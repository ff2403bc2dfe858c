-- ===== src/Console/Safety/Terminal.antt =====
-- Attaching, detaching and closing the console.
use libvirt_sandbox.Base.{◌≡◌, refl, arith, Bool, [], ◌⊎◌, inl, inr, ◌∙◌, false, Bool-cases}
use libvirt_sandbox.Protocol.Xdr.{Xdr, IsXdr}
use libvirt_sandbox.Result.{Result, ok, err, fault, Leaves, ◌>>=◌, restore_terminal_failed}
use libvirt_sandbox.Console.{Console, State, inactive, empty_queue}
use libvirt_sandbox.Console.Terminal.{
  Terminal, detach, close, attach, stop_term, start_term, open_console, attach_from, released,
  left_by,
}
use libvirt_sandbox.Console.Invariant.{Inv, QueueOk}
use libvirt_sandbox.Console.Safety.States.{update_events-Inv, waiting_entered}

pub empty_queue-QueueOk : QueueOk empty_queue
empty_queue-QueueOk = omega arith

pub released-Inv : (c : Console) → c.stderr_written ≡ [] → Inv (released c)
released-Inv c silent = record {
  rx_ok = tt;
  tx_ok = tt;
  stdout_ok = empty_queue-QueueOk;
  stderr_ok = empty_queue-QueueOk;
  flow_ok = tt;
  stderr_start = refl;
  stderr_silent = silent;
  drained_ok = (refl, refl);
}

-- Only fields that the invariant does not read differ.
abbrev pub Same : Console → Console → Type 0
Same c c' =
    (c'.state ≡ c.state)
    × (c'.rx ≡ c.rx)
    × (c'.tx ≡ c.tx)
    × (c'.to_stdout ≡ c.to_stdout)
    × (c'.to_stderr ≡ c.to_stderr)
    × (c'.stderr_written ≡ c.stderr_written)

pub Same-Inv : (c c' : Console) → Same c c' → Inv c → Inv c'
Same-Inv c c' (s, r, t, o, e, w) v = record {
  rx_ok = rw (s, r) v.rx_ok;
  tx_ok = rw t v.tx_ok;
  stdout_ok = rw o v.stdout_ok;
  stderr_ok = rw e v.stderr_ok;
  flow_ok = rw (s, r, o, e) v.flow_ok;
  stderr_start = rw e v.stderr_start;
  stderr_silent = rw w v.stderr_silent;
  drained_ok = rw (s, o, e) v.drained_ok;
}

-- Detaching either releases everything, does nothing, or fails and changes nothing.
pub detach_cases :
    (t : Terminal) (c : Console)
    → ((c.state ≡ inactive) × (detach t c ≡ ok c))
      ⊎ (detach t c ≡ ok (released c))
      ⊎ (detach t c ≡ ok (released (record c { termios_active = false })))
      ⊎ (detach t c ≡ err restore_terminal_failed c)
unfolding detach
detach_cases t c = ground arith

pub detach-Inv : (t : Terminal) (c : Console) → Inv c → Leaves Inv (detach t c)
detach-Inv t c v = elim (detach_cases t c) [
  | inl (_, e) ↦ rw e v
  | inr (inl e) ↦ rw e (released-Inv c v.stderr_silent)
  | inr (inr (inl e)) ↦ rw e (released-Inv (record c { termios_active = false }) v.stderr_silent)
  | inr (inr (inr e)) ↦ rw e v
]

left_by-Inv : (c : Console) (r : Result Console) → Leaves Inv r → Inv (left_by c r)
left_by-Inv c (ok c') v = v
left_by-Inv c (err e c') v = v
left_by-Inv c fault v = absurd v

pub close-Inv : (t : Terminal) (failed : Bool) (c : Console) → Inv c → Inv (close t failed c)
unfolding close
close-Inv t failed c v =
    Same-Inv (left_by c (detach t c)) _ (refl, refl, refl, refl, refl, refl)
      (left_by-Inv c (detach t c) (detach-Inv t c v))

start_term-Same : (t : Terminal) (b : Bool) (c : Console) → Leaves (Same c) (start_term t b c)
unfolding start_term
start_term-Same t b c = ground arith

stop_term-Same : (t : Terminal) (b : Bool) (c : Console) → Leaves (Same c) (stop_term t b c)
unfolding stop_term
stop_term-Same t b c = ground arith

-- Two calls in turn, the second on what the first one leaves.
pub Leaves->>= :
    {A : Type 0} {P Q : A → Type 0} (r : Result A) (f : A → Result A)
    → Leaves P r
    → ((a : A) → P a → Leaves Q (f a))
    → ((a : A) → P a → Q a)
    → Leaves Q (r >>= f)
Leaves->>= (ok a) f p next weaken = next a p
Leaves->>= (err e a) f p next weaken = weaken a p
Leaves->>= fault f p next weaken = p

left_by-Same : (c : Console) (r : Result Console) → Leaves (Same c) r → Same c (left_by c r)
left_by-Same c (ok c') s = s
left_by-Same c (err e c') s = s
left_by-Same c fault s = absurd s

module _ (x : Xdr) (law : IsXdr x) (t : Terminal) (has_stdin opened : Bool) where
  open_console-Inv :
      (c : Console) → c.state ≡ inactive → Inv c → Leaves Inv (open_console x t has_stdin opened c)
  unfolding open_console
  open_console-Inv c s v =
      let (c', e, _, v') = waiting_entered x law c s v in
      let left = left_by c (stop_term t has_stdin c) in
      let kept : Inv left =
        Same-Inv c left (left_by-Same c (stop_term t has_stdin c) (stop_term-Same t has_stdin c))
          v in
      elim (Bool-cases opened) [
        | inl yes' ↦ rw (yes', e) (update_events-Inv c' v')
        | inr no' ↦ rw no' kept
      ]

  attach_from-Inv :
      (s : State) (c : Console)
      → c.state ≡ s
      → Inv c
      → Leaves Inv (attach_from s x t has_stdin opened c)
  unfolding attach_from
  attach_from-Inv inactive c e v =
      Leaves->>= (start_term t has_stdin c) _ (start_term-Same t has_stdin c)
        (λ c' s. open_console-Inv (record c' { local_stdin = _ }) (s.0 ∙ e) (Same-Inv c _ s v))
        (λ c' s. Same-Inv c c' s v)
  attach_from-Inv _ c e v = v

  pub attach-Inv : (c : Console) → Inv c → Leaves Inv (attach x t has_stdin opened c)
  unfolding attach
  attach-Inv c v = attach_from-Inv c.state c refl v

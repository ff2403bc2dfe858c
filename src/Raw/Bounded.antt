-- ===== src/Raw/Bounded.antt =====
-- The bounds of the raw console's queues over attach, detach and close.
use libvirt_sandbox.Base.{
  ℕ, ◌≤◌, ◌≡◌, refl, sym, subst, arith, true, false, Bool, Bool-cases, [], Bytes, length, inl, inr,
  if◌then◌else◌,
}
use libvirt_sandbox.Result.{Result, ok, err, fault, already_attached, Leaves, ◌>>=◌}
use libvirt_sandbox.Console.Terminal.{Terminal}
use libvirt_sandbox.Raw.{Raw}
use libvirt_sandbox.Raw.Events.{update_events}
use libvirt_sandbox.Raw.Terminal.{
  start_term, stop_term, left_of, open_remote, remote_opened, attach, detach, close, dropped,
  buffers,
}

abbrev pub Fits : Bytes → ℕ → Type 0
Fits bs size = (length bs ≤ size) × (size ≤ 4096)

-- Each queue lies in the memory that is allocated for it, of 4096 bytes at most.
abbrev pub Bounded : Raw → Type 0
Bounded r = Fits r.to_local r.to_local_length × Fits r.to_console r.to_console_length

-- The queues and what was handed over.
abbrev pub queues : Raw → Bytes × ℕ × Bytes × ℕ × Bytes × Bytes × Bool
queues r = (
  r.to_local, r.to_local_length, r.to_console, r.to_console_length, r.local_written,
  r.console_written, r.attached,
)

pub update_events-queues : (r : Raw) → queues (update_events r) ≡ queues r
unfolding update_events
update_events-queues r = elim (Bool-cases r.attached) [
  | inr gone ↦ rw gone refl
  | inl hit ↦ elim (Bool-cases r.stream) [ inl s ↦ rw (hit, s) refl | inr s ↦ rw (hit, s) refl ]
]

pub update_events-Bounded : (r : Raw) → Bounded r → Bounded (update_events r)
update_events-Bounded r b =
    subst (λ k. Fits k.0 k.1 × Fits k.2 k.3) (sym (update_events-queues r)) b

Leaves->>= :
    (m : Result Raw) (f : Raw → Result Raw)
    → Leaves Bounded m
    → ((r : Raw) → Bounded r → Leaves Bounded (f r))
    → Leaves Bounded (m >>= f)
Leaves->>= (ok r) f b go = go r b
Leaves->>= (err e r) f b go = b
Leaves->>= fault f b go = b

start_term-Bounded :
    (t : Terminal) (b : Bool) (r : Raw) → Bounded r → Leaves Bounded (start_term t b r)
unfolding start_term
start_term-Bounded t false r v = v
start_term-Bounded t true r v = elim (Bool-cases t.is_tty) [
  | inr plain ↦ rw plain v
  | inl tty ↦ elim (Bool-cases t.query_succeeds) [
    | inr q ↦ rw (tty, q) v
    | inl q ↦ elim (Bool-cases t.update_succeeds) [
      | inl u ↦ rw (tty, q, u) v
      | inr u ↦ rw (tty, q, u) v
    ]
  ]
]

stop_term-Bounded :
    (t : Terminal) (b : Bool) (r : Raw) → Bounded r → Leaves Bounded (stop_term t b r)
unfolding stop_term
stop_term-Bounded t false r v = v
stop_term-Bounded t true r v = elim (Bool-cases t.is_tty) [
  | inr plain ↦ rw plain v
  | inl tty ↦ elim (Bool-cases t.update_succeeds) [ inl u ↦ rw (tty, u) v | inr u ↦ rw (tty, u) v ]
]

pub if-Bounded :
    (b : Bool) (m n : Result Raw)
    → Leaves Bounded m
    → Leaves Bounded n
    → Leaves Bounded (if b then m else n)
if-Bounded true m n v w = v
if-Bounded false m n v w = w

left_of-Bounded : (r : Raw) (m : Result Raw) → Leaves Bounded m → Bounded (left_of r m)
left_of-Bounded r (ok r') v = v
left_of-Bounded r (err e r') v = v
left_of-Bounded r fault v = absurd v

pub detach-Bounded : (t : Terminal) (r : Raw) → Bounded r → Leaves Bounded (detach t r)
unfolding detach
detach-Bounded t r v =
    let empty : (r' : Raw) → Bounded (dropped r') =
      λ r'. ((omega arith, omega arith), (omega arith, omega arith)) in
    if-Bounded r.attached _ (ok r)
      (Leaves->>= (stop_term t r.local_stdin r) (λ r'. ok (dropped r'))
        (stop_term-Bounded t r.local_stdin r v) (λ r' _. empty r'))
      v

pub close-Bounded :
    (t : Terminal) (failed : Bool) (r : Raw) → Bounded r → Bounded (close t failed r)
unfolding close
close-Bounded t failed r v = left_of-Bounded r (detach t r) (detach-Bounded t r v)

sized : (b : Bool) (n : ℕ) → n ≤ 4096 → Fits [] (if b then 4096 else n)
sized true n h = (omega arith, omega arith)
sized false n h = (omega arith, h)

remote_opened-Bounded :
    (t : Terminal) (b : Bool) (m : Result Raw)
    → Leaves Bounded m
    → Leaves Bounded (remote_opened t b m)
unfolding remote_opened
remote_opened-Bounded t b (ok r) v =
    update_events-Bounded (buffers b r)
      ((omega arith, omega arith), sized b r.to_console_length v.1.1)
remote_opened-Bounded t b (err e r) v =
    left_of-Bounded r (stop_term t b r) (stop_term-Bounded t b r v)
remote_opened-Bounded t b fault v = v

open_remote-Bounded :
    (direct opened : Bool) (r : Raw) → Bounded r → Leaves Bounded (open_remote direct opened r)
unfolding open_remote
open_remote-Bounded true true r v = v
open_remote-Bounded false true r v = v
open_remote-Bounded direct false r v = v

pub attach-Bounded :
    (t : Terminal) (i o d opened : Bool) (r : Raw)
    → Bounded r
    → Leaves Bounded (attach t i o d opened r)
unfolding attach
attach-Bounded t i o d opened r v = if-Bounded r.attached (err already_attached r) _ v (
    Leaves->>= (start_term t i r) _ (start_term-Bounded t i r v) λ r' v'.
      remote_opened-Bounded t i _
        (open_remote-Bounded d opened (record r' { local_stdin = i; local_stdout = o }) v'))

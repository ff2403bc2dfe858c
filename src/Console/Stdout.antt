-- ===== src/Console/Stdout.antt =====
-- The guest's stdout on the host, from its queue to the local stdout (do_console_rpc_stdout_write).
use Prim.Native.Nat.{min}
use mathlib.Core.List.{append_assoc}
use libvirt_sandbox.Base.{
  ℕ, ◌+◌, ◌-◌, ◌≤◌, ◌≡◌, refl, sym, arith, ap, ap₂, ◌∙◌, [], ◌∷◌, ◌++◌, inl, inr, Bool-cases, none,
  some, Option, Bytes, length, take, drop, ◌==◌, ◌&&◌, add64, sub64, length-drop, drop_nil,
  drop_all, drop-drop, drop-append_le, take_all, take-append-drop,
}
use libvirt_sandbox.Protocol.Xdr.{Xdr, IsXdr}
use libvirt_sandbox.Result.{ok}
use libvirt_sandbox.Console.{
  Console, Queue, queued, region, enqueue, append, empty_queue, number, stopping, finished,
}
use libvirt_sandbox.Console.Events.{set_state, update_events}
use libvirt_sandbox.Console.Terminal.{Terminal}
use libvirt_sandbox.Console.Io.{taken}
use libvirt_sandbox.Console.Local.{stdout_write, stdout_taken, drained, rearm, clear_stdout}
use libvirt_sandbox.Console.Invariant.{Inv, QueueOk, text_size, quit_built}

abbrev text_of : Option Bytes → Bytes
text_of none = []
text_of (some bytes) = bytes

-- What is still to be written.
abbrev pub pending : Queue → Bytes
pending q = drop q.offset (text_of q.text)

-- All that the guest has sent to stdout so far.
abbrev pub stdout_total : Console → Bytes
stdout_total c = c.stdout_written ++ pending c.to_stdout

region_pending :
    (at n : ℕ) (t : Option Bytes)
    → at + n ≡ text_size t
    → region at n t ≡ some (drop at (text_of t))
unfolding region
region_pending at n none h = ground (arith, drop_nil {0} {A = ℕ} at)
region_pending at n (some bytes) h =
    ground (arith, take_all n (drop at bytes) (omega (arith, length-drop at bytes)))

queued-pending :
    (q : Queue) → QueueOk q → queued q q.offset (sub64 q.size q.offset) ≡ some (pending q)
unfolding queued
queued-pending q v = region_pending q.offset (sub64 q.size q.offset) q.text (omega (arith, v))

pending-none : (q : Queue) → q.text ≡ none → pending q ≡ []
pending-none q e = ap (λ t. drop q.offset (text_of t)) e ∙ sym (drop_nil q.offset)

pending-append :
    (q : Queue) (bytes : Bytes) (t : Option Bytes)
    → q.text ≡ t
    → QueueOk q
    → pending (append q bytes t) ≡ pending q ++ bytes
unfolding append
pending-append q bytes (some old) e v =
    let n : length old ≡ q.size = rw e at v.size_eq in
    let p : pending q ≡ drop q.offset old = ap (λ t. drop q.offset (text_of t)) e in
    drop-append_le q.offset old bytes (omega (arith, v)) ∙ ap (λ k. k ++ bytes) (sym p)
pending-append q [] none e v = ap (λ k. k ++ []) (sym (pending-none q e))
pending-append q (b ∷ bytes) none e v = ap (λ k. k ++ b ∷ bytes) (sym (pending-none q e))

pub pending-enqueue :
    (q : Queue) (bytes : Bytes) → QueueOk q → pending (enqueue q bytes) ≡ pending q ++ bytes
unfolding enqueue
pending-enqueue q bytes v = pending-append q bytes q.text refl v

module _ (x : Xdr) (law : IsXdr x) where
  -- The end of a write leaves both sides of stdout alone.
  abbrev Keeps : Console → Console → Type 0
  Keeps c d = (d.stdout_written ≡ c.stdout_written) × (d.to_stdout ≡ c.to_stdout)

  finished_ok : (c : Console) → (d : Console) × (set_state x finished c ≡ ok d) × Keeps c d
  unfolding set_state
  finished_ok c =
      let (p, e, _) = quit_built x law (record c { state = finished }) in
      elim (Bool-cases (number c.state == number finished)) [
        | inl already ↦ (c, rw already, (refl, refl))
        | inr entering ↦ (
          record c { state = finished; tx = some p; serial = add64 c.serial 1 },
          rw (entering, e),
          (refl, refl),
        )
      ]

  rearm-Keeps : (other : ℕ) (c : Console) → Keeps c (rearm other c)
  rearm-Keeps other c = ground arith

  drained_ok : (other : ℕ) (c : Console) → (d : Console) × (drained x other c ≡ ok d) × Keeps c d
  unfolding drained
  drained_ok other c =
      let c' = rearm other c in
      let k = rearm-Keeps other c in
      let (d, e, k') = finished_ok c' in
      elim (Bool-cases (number c'.state == number stopping && other == 0)) [
        | inl last ↦ (d, rw (last, e), (k'.0 ∙ k.0, k'.1 ∙ k.1))
        | inr stay ↦ (c', rw stay, k)
      ]

  length-text_of : (t : Option Bytes) → length (text_of t) ≡ text_size t
  length-text_of none = refl
  length-text_of (some bytes) = refl

  length-pending : (q : Queue) → QueueOk q → length (pending q) ≡ q.size - q.offset
  length-pending q v =
      omega (arith, length-drop q.offset (text_of q.text), length-text_of q.text, v.size_eq)

  module _ (t : Terminal) (c : Console) (v : Inv c) where
    abbrev Moved : ℕ → Console → Type 0
    Moved m c' =
        (c'.stdout_written ≡ c.stdout_written ++ take m (pending c.to_stdout))
        × (pending c'.to_stdout ≡ drop m (pending c.to_stdout))

    stdout_taken-Moved :
        (m : ℕ)
        → m ≤ length (pending c.to_stdout)
        → (c' : Console) × (stdout_taken t x m (take m (pending c.to_stdout)) c ≡ ok c')
          × Moved m c'
    unfolding stdout_taken update_events
    stdout_taken-Moved m h =
        let q = c.to_stdout in
        let rest = pending q in
        let n = length-pending q v.stdout_ok in
        let c1 = record c { stdout_written = c.stdout_written ++ take m rest } in
        let (d, e, kept) = drained_ok c.to_stderr.size (record c1 { to_stdout = empty_queue }) in
        let at : add64 q.offset m ≡ q.offset + m = omega (arith, n, v.stdout_ok) in
        elim (Bool-cases (add64 q.offset m == q.size)) [
          | inl all ↦
              let whole : length rest ≤ m = ground (arith, n, all) in
              (
                update_events (clear_stdout d),
                rw (all, e),
                (kept.0, ap pending kept.1 ∙ sym (drop_all m rest whole)),
              )
          | inr part ↦ (
            update_events
                (clear_stdout (record c1 { to_stdout = record q { offset = add64 q.offset m } })),
            rw part,
            (
              refl,
              ap (λ k. drop k (text_of q.text)) at ∙ sym (drop-drop q.offset m (text_of q.text)),
            ),
          )
        ]

    starts :
        (n : ℕ)
        → let k = min n (length (pending c.to_stdout)) in
          stdout_write t x (taken n) c ≡ stdout_taken t x k (take k (pending c.to_stdout)) c
    unfolding stdout_write
    starts n =
        let q = c.to_stdout in
        let left : sub64 q.size q.offset ≡ length (pending q) =
          omega (arith, length-pending q v.stdout_ok, v.stdout_ok) in
        rw (queued-pending q v.stdout_ok, stdout_write)
          (ap (λ k. stdout_taken t x (min n k) (take (min n k) (pending q)) c) left)

    -- A write that takes `n` bytes at most always succeeds. It moves as many bytes as there are, up
    -- to `n`, from the front of the queue to the local stdout, so that what was written and what is
    -- queued stay one and the same sequence.
    pub stdout_write_moves :
        (n : ℕ)
        → let k = min n (length (pending c.to_stdout)) in
          (c' : Console) × (stdout_write t x (taken n) c ≡ ok c')
          × (c'.stdout_written ≡ c.stdout_written ++ take k (pending c.to_stdout))
          × (pending c'.to_stdout ≡ drop k (pending c.to_stdout))
          × (stdout_total c' ≡ stdout_total c)
    stdout_write_moves n =
        let rest = pending c.to_stdout in
        let k = min n (length rest) in
        let (c', e, (w, p)) = stdout_taken-Moved k (omega arith) in
        let total : stdout_total c' ≡ stdout_total c =
          ap₂ ◌++◌ w p
          ∙ append_assoc c.stdout_written (take k rest) (drop k rest)
          ∙ ap (◌++◌ c.stdout_written) (take-append-drop k rest) in
        (c', starts n ∙ e, w, p, total)

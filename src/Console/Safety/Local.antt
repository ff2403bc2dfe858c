-- ===== src/Console/Safety/Local.antt =====
-- The callbacks of the local files.
use libvirt_sandbox.Base.{
  ℕ, ◌+◌, ◌≤◌, ◌<◌, ◌≡◌, refl, arith, true, false, Bool-cases, ◌==◌, ◌&&◌, not, ltb, Option, none,
  some, [], ◌∷◌, Bytes, length, take, drop, length-take, inl, inr, ◌∙◌,
}
use libvirt_sandbox.Protocol.Xdr.{Xdr, IsXdr}
use libvirt_sandbox.Result.{Result, ok, err, fault, Leaves}
use libvirt_sandbox.Packet.{Packet, new}
use libvirt_sandbox.Console.{
  Console, State, running, stopping, number, Queue, queued, region, max_queued_data, max_io, is_set,
}
use libvirt_sandbox.Console.Packets.{build_stdin, set_tx, next_serial}
use libvirt_sandbox.Console.Terminal.{Terminal}
use libvirt_sandbox.Console.Local.{
  Input, got, read_failed, is_escape, note_eof, stdin_bytes, stdin_read, finish_write, rearm,
  drained,
}
use libvirt_sandbox.Console.Invariant.{
  Inv, RxOk, FlowOk, DrainedOk, QueueOk, text_size, stdin_built, IsFrame-IsValid,
}
use libvirt_sandbox.Console.Safety.States.{of_number, update_events-Inv, finished_entered}
use libvirt_sandbox.Console.Safety.Terminal.{close-Inv, Same, Same-Inv}

pub RxOk-stopping : (o : Option Packet) → RxOk stopping o → o ≡ none
RxOk-stopping none v = refl
RxOk-stopping (some p) v = absurd v

pub FlowOk-less :
    (s : State) (o : Option Packet) {a b a' b' : ℕ}
    → a' ≤ a
    → b' ≤ b
    → FlowOk s o a b
    → FlowOk s o a' b'
FlowOk-less running none h h' f = tt
FlowOk-less running (some p) h h' f = omega arith
FlowOk-less _ o h h' f = tt

pub DrainedOk-less :
    (s : State) {a b a' b' : ℕ} → a' ≤ a → b' ≤ b → DrainedOk s a b → DrainedOk s a' b'
DrainedOk-less running h h' f = tt
DrainedOk-less stopping h h' f = tt
DrainedOk-less _ h h' f = omega arith

region-ok :
    (at n : ℕ) (t : Option Bytes)
    → at + n ≤ text_size t
    → (bytes : Bytes) × (region at n t ≡ some bytes)
unfolding region
region-ok at n none h = ([], ground arith)
region-ok at n (some bytes) h = (take n (drop at bytes), ground arith)

-- The bytes of a queue can be read up to its size.
pub queued-ok :
    (q : Queue) (at n : ℕ)
    → QueueOk q
    → at + n ≤ q.size
    → (bytes : Bytes) × (queued q at n ≡ some bytes)
unfolding queued
queued-ok q at n v h = region-ok at n q.text (omega (arith, v.size_eq))

module _ (x : Xdr) (law : IsXdr x) (t : Terminal) where
  -- Sending what was read never fails: 4096 bytes fit a packet.
  pub stdin_sent :
      (bytes : Bytes) (c : Console)
      → length bytes ≤ max_io
      → Inv c
      → (c' : Console) × (set_tx (build_stdin x bytes c) ≡ ok c') × Inv c'
  unfolding set_tx
  stdin_sent bytes c short v =
      let (p, e, frame) = stdin_built x law bytes c (omega arith) in
      (
        record (next_serial c) { tx = some p },
        rw e,
        record {
          rx_ok = v.rx_ok;
          tx_ok = IsFrame-IsValid x law frame;
          stdout_ok = v.stdout_ok;
          stderr_ok = v.stderr_ok;
          flow_ok = v.flow_ok;
          stderr_start = v.stderr_start;
          stderr_silent = v.stderr_silent;
          drained_ok = v.drained_ok;
        },
      )

  note_eof-Same : (bytes : Bytes) (c : Console) → Same c (note_eof bytes c)
  unfolding note_eof
  note_eof-Same [] c = (refl, refl, refl, refl, refl, refl)
  note_eof-Same (b ∷ bytes) c = (refl, refl, refl, refl, refl, refl)

  stdin_bytes-Inv :
      (bytes : Bytes) (c : Console)
      → length bytes ≤ max_io
      → Inv c
      → Leaves Inv (stdin_bytes t x bytes c)
  unfolding stdin_bytes
  stdin_bytes-Inv bytes c short v =
      let noted = note_eof bytes c in
      let (c', e, v') = stdin_sent bytes noted short (Same-Inv c noted (note_eof-Same bytes c) v) in
      let cleared =
        Same-Inv c' (record c' { stdin_source = false }) (refl, refl, refl, refl, refl, refl) v' in
      elim (Bool-cases (is_escape bytes c)) [
        | inl leave ↦ rw leave (update_events-Inv _ (close-Inv t false c v))
        | inr stay ↦ rw (stay, e) (update_events-Inv _ cleared)
      ]

  pub stdin_read-Inv : (i : Input) (c : Console) → Inv c → Leaves Inv (stdin_read t x i c)
  unfolding stdin_read
  stdin_read-Inv read_failed c v = update_events-Inv _ (close-Inv t true c v)
  stdin_read-Inv (got bytes) c v =
      stdin_bytes-Inv (take max_io bytes) c (omega (arith, length-take max_io bytes)) v

  pub finish_write-Inv :
      (clear : Console → Console) (r : Result Console)
      → ((c : Console) → Same c (clear c))
      → Leaves Inv r
      → Leaves Inv (finish_write t clear r)
  unfolding finish_write
  finish_write-Inv clear (ok c) same v = update_events-Inv _ (Same-Inv c (clear c) (same c) v)
  finish_write-Inv clear (err e c) same v = close-Inv t true c v
  finish_write-Inv clear fault same v = v

  -- Another packet is received only below the limit of both queues.
  rearm-Inv :
      (other : ℕ) (c : Console)
      → (other < max_queued_data
          → (c.to_stdout.size < max_queued_data) × (c.to_stderr.size < max_queued_data))
      → Inv c
      → Inv (rearm other c)
  unfolding new
  rearm-Inv other c low v =
      let go = number c.state == number running && not (is_set c.rx) && ltb other max_queued_data in
      elim (Bool-cases go) [
        | inr stay ↦ rw stay v
        | inl hit ↦
            let busy : c.state ≡ running = of_number c.state running (ground (arith, hit)) in
            rw hit (record {
              rx_ok = rw busy (omega arith);
              tx_ok = v.tx_ok;
              stdout_ok = v.stdout_ok;
              stderr_ok = v.stderr_ok;
              flow_ok = rw busy (low (ground (arith, hit)));
              stderr_start = v.stderr_start;
              stderr_silent = v.stderr_silent;
              drained_ok = v.drained_ok;
            })
      ]

  rearm_queues :
      (other : ℕ) (c : Console)
      → ((rearm other c).to_stdout.size ≡ c.to_stdout.size)
        × ((rearm other c).to_stderr.size ≡ c.to_stderr.size)
  rearm_queues other c = ground arith

  rearm_stopping :
      (other : ℕ) (c : Console)
      → (rearm other c).state ≡ stopping
      → Inv c
      → (rearm other c).rx ≡ none
  rearm_stopping other c e v =
      let idle : c.state ≡ stopping → c.rx ≡ none = λ s. RxOk-stopping c.rx (rw s at v.rx_ok) in
      ground (arith, idle)

  pub drained-Inv :
      (other : ℕ) (c : Console)
      → (other < max_queued_data
          → (c.to_stdout.size < max_queued_data) × (c.to_stderr.size < max_queued_data))
      → (other ≡ 0 → (c.to_stdout.size ≡ 0) × (c.to_stderr.size ≡ 0))
      → Inv c
      → Leaves Inv (drained x other c)
  unfolding drained
  drained-Inv other c low zero_sizes v =
      let c' = rearm other c in
      let v' = rearm-Inv other c low v in
      let (out_same, err_same) = rearm_queues other c in
      elim (Bool-cases (number c'.state == number stopping && other == 0)) [
        | inr stay ↦ rw stay v'
        | inl last ↦
            let ending : c'.state ≡ stopping = of_number c'.state stopping (ground (arith, last)) in
            let zero_all = zero_sizes (ground (arith, last)) in
            let (c'', e, _, _, v'') =
              finished_entered x law c' (rw ending (omega arith)) (rearm_stopping other c ending v)
                (out_same ∙ zero_all.0) (err_same ∙ zero_all.1) v' in
            rw (last, e) v''
      ]
  -- Behind a write that took `n` bytes of what was left.

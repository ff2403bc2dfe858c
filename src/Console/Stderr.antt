-- ===== src/Console/Stderr.antt =====
-- What becomes of the guest's stderr. do_console_rpc_stderr_write writes `localToStderrOffset` bytes
-- from the start of the queue, where stdout_write takes what lies behind the offset; the offset
-- starts at 0.
use Prim.Native.Nat.{min}
use libvirt_sandbox.Base.{
  ℕ, ◌≤◌, ◌<◌, ◌≡◌, ◌≢◌, refl, arith, ap, List, [], ◌∷◌, ◌++◌, ◌⊎◌, inl, inr, Bool, true, false,
  Bool-cases, Option-cases, Option, none, some, Bytes, length, take, length-take, ◌==◌, add64,
  sub64,
}
use libvirt_sandbox.Protocol.Xdr.{Xdr, IsXdr}
use libvirt_sandbox.Result.{ok, Leaves}
use libvirt_sandbox.Packet.{Packet, inside}
use libvirt_sandbox.Console.{Console, fresh, stopping, inactive, max_io}
use libvirt_sandbox.Console.Events.{update_events}
use libvirt_sandbox.Console.Terminal.{Terminal, attach, detach, close}
use libvirt_sandbox.Console.Receive.{handshake_wait_tx_queue, process_packet_tx}
use libvirt_sandbox.Console.Io.{
  Arrival, Departure, taken, Flow, next, done, cleanup, broken, receive_loop, sent, send_packet,
  finish_stream, then_send, stream_readwrite,
}
use libvirt_sandbox.Console.Local.{
  Input, got, read_failed, stdin_read, stdin_bytes, is_escape, stdout_write, stdout_taken,
  stderr_write, stderr_taken,
}
use libvirt_sandbox.Console.Step.{
  Event, attached, detached, timer, stream, stdin, stdout, stderr, step, run,
}
use libvirt_sandbox.Console.Invariant.{Inv, stdin_built}
use libvirt_sandbox.Console.Packets.{set_tx, data_header}
use libvirt_sandbox.Protocol.{proc_stdin, proc_quit}
use libvirt_sandbox.Buffer.{read_at}
use libvirt_sandbox.Packet.Safety.{IsValid}
use libvirt_sandbox.Console.Safety.Terminal.{detach_cases}
use libvirt_sandbox.Console.Safety.Io.{FlowLeaves}
use libvirt_sandbox.Console.Safety.Local.{queued-ok, RxOk-stopping}
use libvirt_sandbox.Console.Safety.Runs.{run-Inv, fresh-Inv}

-- What is to be sent is no QUIT packet.
abbrev pub NoQuit : Option Packet → Type 0
NoQuit none = Unit
NoQuit (some p) = p.header.proc ≢ proc_quit

NoQuit-stdin :
    (p : Packet) (serial : ℕ) → p.header ≡ data_header proc_stdin serial → NoQuit (some p)
NoQuit-stdin p serial e = ground (arith, ap (λ h. h.proc) e)

module _ (x : Xdr) (law : IsXdr x) where
  -- In no run from the new console on is a byte written to the local stderr.
  pub run-stderr_silent :
      (escape : ℕ) (events : List (Terminal × Event))
      → (c : Console) × (run x events (fresh escape) ≡ ok c) × (c.stderr_written ≡ [])
  run-stderr_silent escape events =
      let (c, r, v) = run-Inv x law events (fresh escape) (fresh-Inv escape) in
      (c, r, v.stderr_silent)

  -- The console still waits for its stderr and has no QUIT packet to send, or it was closed.
  abbrev pub Stuck : Console → Console → Type 0
  Stuck c c' =
      ((c'.state ≡ stopping) × ((c'.to_stderr ≡ c.to_stderr) × NoQuit c'.tx))
      ⊎ (c'.state ≡ inactive)

  close-Stuck :
      (t : Terminal) (failed : Bool) (c : Console)
      → c.state ≡ stopping
      → NoQuit c.tx
      → Stuck c (close t failed c)
  unfolding close
  close-Stuck t failed c s quiet = ground (arith, detach_cases t c)

  process_stopping :
      (t : Terminal) (p : Packet) (c : Console)
      → c.state ≡ stopping
      → process_packet_tx t x p c ≡ ok c
  unfolding process_packet_tx
  process_stopping t p c s = ground (arith, s)

  module _ (t : Terminal) (c : Console) (v : Inv c) (s : c.state ≡ stopping)
      (some_left : 0 < c.to_stderr.size) (quiet : NoQuit c.tx) where
    stderr_write-Stuck : (d : Departure) → Leaves (Stuck c) (stderr_write t x d c)
    unfolding stderr_write stderr_taken update_events
    stderr_write-Stuck Departure.failed = close-Stuck t true c s quiet
    stderr_write-Stuck (taken n) =
        let q = c.to_stderr in
        let (bytes, e) = queued-ok q 0 q.offset v.stderr_ok (omega (arith, v.stderr_ok)) in
        let same : add64 q.offset (min n q.offset) ≡ q.offset = omega (arith, v.stderr_start) in
        let miss : (add64 q.offset (min n q.offset) == q.size) ≡ false =
          ground (arith, v.stderr_start) in
        rw (e, stderr_write) (rw miss (inl (s, (ap (λ k. record q { offset = k }) same, quiet))))

    stdout_write-Stuck : (d : Departure) → Leaves (Stuck c) (stdout_write t x d c)
    unfolding stdout_write stdout_taken update_events
    stdout_write-Stuck Departure.failed = close-Stuck t true c s quiet
    stdout_write-Stuck (taken n) =
        let q = c.to_stdout in
        let left = sub64 q.size q.offset in
        let (bytes, e) = queued-ok q q.offset left v.stdout_ok (omega (arith, v.stdout_ok)) in
        rw (e, stdout_write)
          (elim (Bool-cases (add64 q.offset (min n left) == q.size)) [
            | inr part ↦ rw part (inl (s, (refl, quiet)))
            | inl all ↦ rw all (ground (arith, s))
          ])

    stdin_bytes-Stuck :
        (bytes : Bytes) → length bytes ≤ max_io → Leaves (Stuck c) (stdin_bytes t x bytes c)
    unfolding stdin_bytes update_events set_tx
    stdin_bytes-Stuck [] short =
        let (p, e, f) = stdin_built x law [] (record c { local_eof = true }) (omega arith) in
        rw e (inl (s, (refl, NoQuit-stdin p c.serial f.header_eq)))
    stdin_bytes-Stuck (b ∷ bytes) short =
        let (p, e, f) = stdin_built x law (b ∷ bytes) c (omega arith) in
        elim (Bool-cases (is_escape (b ∷ bytes) c)) [
          | inl leave ↦ rw leave (close-Stuck t false c s quiet)
          | inr stay ↦ rw (stay, e) (inl (s, (refl, NoQuit-stdin p c.serial f.header_eq)))
        ]

    stdin_read-Stuck : (i : Input) → Leaves (Stuck c) (stdin_read t x i c)
    unfolding stdin_read update_events
    stdin_read-Stuck read_failed = close-Stuck t true c s quiet
    stdin_read-Stuck (got bytes) =
        stdin_bytes-Stuck (take max_io bytes) (omega (arith, length-take max_io bytes))

    sent-Stuck :
        (d : Departure) (p : Packet) → c.tx ≡ some p → FlowLeaves (Stuck c) (sent t x d p c)
    unfolding sent
    sent-Stuck Departure.failed p e = close-Stuck t true c s quiet
    sent-Stuck (taken n) p e =
        let valid : IsValid p = rw e at v.tx_ok in
        let other : NoQuit (some p) = rw e at quiet in
        let left = sub64 p.buffer_length p.buffer_offset in
        let fits : inside p.buffer_offset left ≡ true = ground (arith, valid) in
        let p' = record p { buffer_offset = add64 p.buffer_offset (min n left) } in
        let c' = record c {
          tx = none;
          stream_sent = c.stream_sent ++ read_at p.buffer p.buffer_offset (min n left);
        } in
        elim (Bool-cases (p'.buffer_offset == p'.buffer_length)) [
          | inr part ↦ rw (fits, part) (inl (s, (refl, other)))
          | inl full ↦ rw (fits, full, process_stopping t p' c' s) (inl (s, (refl, tt)))
        ]

    send_packet-Stuck : (w : Bool) (d : Departure) → FlowLeaves (Stuck c) (send_packet t x w d c)
    unfolding send_packet
    send_packet-Stuck false d = inl (s, (refl, quiet))
    send_packet-Stuck true d = elim (Option-cases c.tx) [
      | inl e ↦ rw (e, send_packet) (inl (s, (refl, quiet)))
      | inr (p, e) ↦ rw (e, send_packet) (sent-Stuck d p e)
    ]

    finish_stream-Stuck :
        (flow : Flow) → FlowLeaves (Stuck c) flow → Leaves (Stuck c) (finish_stream flow)
    unfolding finish_stream update_events
    finish_stream-Stuck (next c') v' = v'
    finish_stream-Stuck (done c') v' = v'
    finish_stream-Stuck (cleanup c') v' = v'
    finish_stream-Stuck broken v' = v'

    -- Nothing is received any more.
    receive_loop-next : (arrivals : List Arrival) → receive_loop t x arrivals c ≡ next c
    unfolding receive_loop
    receive_loop-next [] = refl
    receive_loop-next (a ∷ arrivals) =
        let idle = RxOk-stopping c.rx (rw s at v.rx_ok) in ground (arith, idle)

    stream-Stuck :
        (r w : Bool) (arrivals : List Arrival) (d : Departure)
        → Leaves (Stuck c) (stream_readwrite t x r w arrivals d c)
    unfolding stream_readwrite then_send
    stream-Stuck true w arrivals d =
        rw (receive_loop-next arrivals) (finish_stream-Stuck _ (send_packet-Stuck w d))
    stream-Stuck false w arrivals d = finish_stream-Stuck _ (send_packet-Stuck w d)

    attach-Stuck : (has_stdin opened : Bool) → Leaves (Stuck c) (attach x t has_stdin opened c)
    unfolding attach
    attach-Stuck has_stdin opened = ground (arith, s)

    detach-Stuck : Leaves (Stuck c) (detach t c)
    detach-Stuck = ground (arith, detach_cases t c)

    timer-Stuck : Stuck c (handshake_wait_tx_queue c)
    unfolding handshake_wait_tx_queue
    timer-Stuck = ground (arith, s)

  -- For a console that satisfies its invariant and is in STOPPING, with some of the guest's
  -- stderr queued and no QUIT packet to be sent: whatever the event, the console is closed by
  -- it, or it is still in STOPPING with the same queue of stderr, and still has no QUIT packet
  -- to send.
  pub step-Stuck :
      (t : Terminal) (e : Event) (c : Console)
      → Inv c
      → c.state ≡ stopping
      → 0 < c.to_stderr.size
      → NoQuit c.tx
      → Leaves (Stuck c) (step x t e c)
  unfolding step
  step-Stuck t (attached has_stdin opened) c v s h quiet =
      attach-Stuck t c v s h quiet has_stdin opened
  step-Stuck t detached c v s h quiet = detach-Stuck t c v s h quiet
  step-Stuck t timer c v s h quiet = timer-Stuck t c v s h quiet
  step-Stuck t (stream r w arrivals d) c v s h quiet = stream-Stuck t c v s h quiet r w arrivals d
  step-Stuck t (stdin i) c v s h quiet = stdin_read-Stuck t c v s h quiet i
  step-Stuck t (stdout d) c v s h quiet = stdout_write-Stuck t c v s h quiet d
  step-Stuck t (stderr d) c v s h quiet = stderr_write-Stuck t c v s h quiet d

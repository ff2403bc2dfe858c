-- ===== src/Console/Safety/Io.antt =====
-- The callbacks of the stream and of the local files, and any run of them.
use Prim.Native.Nat.{min}
use libvirt_sandbox.Base.{
  ℕ, ◌+◌, ◌≤◌, ◌≡◌, refl, arith, Bool, true, false, Bool-cases, Option-cases, ◌==◌, none, some,
  List, [], ◌∷◌, ◌++◌, Bytes, length, take, length-take, add64, sub64, inl, inr,
}
use libvirt_sandbox.Buffer.{store, read_at}
use libvirt_sandbox.Protocol.Xdr.{Xdr, IsXdr}
use libvirt_sandbox.Result.{Result, ok, err, fault, Leaves}
use libvirt_sandbox.Packet.{Packet, inside}
use libvirt_sandbox.Packet.Safety.{IsValid}
use libvirt_sandbox.Console.{
  Console, State, inactive, waiting, syncing, running, stopping, finished, no_watch,
}
use libvirt_sandbox.Console.Terminal.{Terminal}
use libvirt_sandbox.Console.Io.{
  Arrival, arrived, would_block, Departure, taken, Flow, next, done, cleanup, broken, processed,
  receive_bytes, received, receive_loop, sent, send_packet, finish_stream, then_send,
  stream_readwrite,
}
use libvirt_sandbox.Console.Invariant.{Inv, RxOk, FlowOk}
use libvirt_sandbox.Console.Safety.States.{update_events-Inv}
use libvirt_sandbox.Console.Safety.Terminal.{close-Inv, Same-Inv}
use libvirt_sandbox.Console.Safety.Receive.{process_packet_rx-Inv, process_packet_tx-Inv}

abbrev pub FlowLeaves : (Console → Type 0) → Flow → Type 0
FlowLeaves P (next c) = P c
FlowLeaves P (done c) = P c
FlowLeaves P (cleanup c) = P c
FlowLeaves P broken = ⊥

RxOk-IsValid : (s : State) (p : Packet) → RxOk s (some p) → IsValid p
RxOk-IsValid waiting p v = v
RxOk-IsValid running p v = v.0
RxOk-IsValid inactive p v = absurd v
RxOk-IsValid syncing p v = absurd v
RxOk-IsValid stopping p v = absurd v
RxOk-IsValid finished p v = absurd v

-- The position moves on inside the packet.
RxOk-moved :
    (s : State) (p q : Packet)
    → RxOk s (some p)
    → q.buffer_length ≡ p.buffer_length
    → q.buffer_offset ≤ q.buffer_length
    → RxOk s (some q)
RxOk-moved waiting p q v e h = omega arith
RxOk-moved running p q v e h = omega arith
RxOk-moved inactive p q v e h = absurd v
RxOk-moved syncing p q v e h = absurd v
RxOk-moved stopping p q v e h = absurd v
RxOk-moved finished p q v e h = absurd v

FlowOk-moved : (s : State) (p q : Packet) (a b : ℕ) → FlowOk s (some p) a b → FlowOk s (some q) a b
FlowOk-moved running p q a b f = f
FlowOk-moved _ p q a b f = tt

FlowOk-none : (s : State) (a b : ℕ) → FlowOk s none a b
FlowOk-none running a b = tt
FlowOk-none _ a b = tt

processed-Inv :
    (t : Terminal) (r : Result Console) (go : Console → Flow)
    → Leaves Inv r
    → ((c : Console) → Inv c → FlowLeaves Inv (go c))
    → FlowLeaves Inv (processed t r go)
processed-Inv t (ok c) go v keep = keep c v
processed-Inv t (err e c) go v keep = close-Inv t true c v
processed-Inv t fault go v keep = v

rx_none-Inv : (c : Console) → Inv c → Inv (record c { rx = none })
rx_none-Inv c v = record {
  rx_ok = tt;
  tx_ok = v.tx_ok;
  stdout_ok = v.stdout_ok;
  stderr_ok = v.stderr_ok;
  flow_ok = FlowOk-none c.state _ _;
  stderr_start = v.stderr_start;
  stderr_silent = v.stderr_silent;
  drained_ok = v.drained_ok;
}

module _ (x : Xdr) (law : IsXdr x) (t : Terminal) where
  receive_bytes-Inv :
      (bytes : Bytes) (p : Packet) (c : Console) (go : Console → Flow)
      → Inv c
      → RxOk c.state (some p)
      → FlowOk c.state (some p) c.to_stdout.size c.to_stderr.size
      → p.buffer_offset + length bytes ≤ p.buffer_length
      → ((c' : Console) → Inv c' → FlowLeaves Inv (go c'))
      → FlowLeaves Inv (receive_bytes t x bytes p c go)
  unfolding receive_bytes
  receive_bytes-Inv [] p c go v r f h keep = v
  receive_bytes-Inv (b ∷ bytes) p c go v r f h keep =
      let valid = RxOk-IsValid c.state p r in
      let p' = record p {
        buffer = store p.buffer p.buffer_offset (b ∷ bytes);
        buffer_offset = add64 p.buffer_offset (length (b ∷ bytes));
      } in
      let r' = RxOk-moved c.state p p' r refl (omega (arith, valid.length_le)) in
      let f' = FlowOk-moved c.state p p' _ _ f in
      let going : Inv (record c { rx = some p' }) = record {
        rx_ok = r';
        tx_ok = v.tx_ok;
        stdout_ok = v.stdout_ok;
        stderr_ok = v.stderr_ok;
        flow_ok = f';
        stderr_start = v.stderr_start;
        stderr_silent = v.stderr_silent;
        drained_ok = v.drained_ok;
      } in
      elim (Bool-cases (p'.buffer_offset == p'.buffer_length)) [
        | inl full ↦ rw full (
            processed-Inv t _ go
              (process_packet_rx-Inv x law p' (record c { rx = none }) (rx_none-Inv c v) refl r' f')
              keep)
        | inr part ↦ rw part (keep _ going)
      ]

  received-Inv :
      (a : Arrival) (p : Packet) (c : Console) (go : Console → Flow)
      → c.rx ≡ some p
      → Inv c
      → ((c' : Console) → Inv c' → FlowLeaves Inv (go c'))
      → FlowLeaves Inv (received t x a p c go)
  unfolding received
  received-Inv would_block p c go e v keep = v
  received-Inv Arrival.failed p c go e v keep = close-Inv t true c v
  received-Inv (arrived bytes) p c go e v keep =
      let r : RxOk c.state (some p) = rw e at v.rx_ok in
      let f : FlowOk c.state (some p) c.to_stdout.size c.to_stderr.size = rw e at v.flow_ok in
      let valid = RxOk-IsValid c.state p r in
      let free = sub64 p.buffer_length p.buffer_offset in
      let fits : inside p.buffer_offset free ≡ true = ground (arith, valid) in
      rw fits (
        receive_bytes-Inv (take free bytes) p c go v r f
          (omega (arith, length-take free bytes, valid)) keep)

  receive_loop-Inv :
      (arrivals : List Arrival) (c : Console) → Inv c → FlowLeaves Inv (receive_loop t x arrivals c)
  unfolding receive_loop
  receive_loop-Inv [] c v = v
  receive_loop-Inv (a ∷ arrivals) c v =
      let keep = receive_loop-Inv arrivals in
      elim (Option-cases c.rx) [
        | inl e ↦ rw (e, receive_loop) v
        | inr (p, e) ↦
            rw (e, receive_loop) (received-Inv a p c (receive_loop t x arrivals) e v keep)
      ]

  sent-Inv :
      (d : Departure) (p : Packet) (c : Console)
      → c.tx ≡ some p
      → Inv c
      → FlowLeaves Inv (sent t x d p c)
  unfolding sent
  sent-Inv Departure.failed p c e v = close-Inv t true c v
  sent-Inv (taken n) p c e v =
      let valid : IsValid p = rw e at v.tx_ok in
      let left = sub64 p.buffer_length p.buffer_offset in
      let count = min n left in
      let p' = record p { buffer_offset = add64 p.buffer_offset count } in
      let fits : inside p.buffer_offset left ≡ true = ground (arith, valid) in
      let sent_c = record c {
        stream_sent = c.stream_sent ++ read_at p.buffer p.buffer_offset count;
        tx = none;
      } in
      let v' : Inv sent_c = record {
        rx_ok = v.rx_ok;
        tx_ok = tt;
        stdout_ok = v.stdout_ok;
        stderr_ok = v.stderr_ok;
        flow_ok = v.flow_ok;
        stderr_start = v.stderr_start;
        stderr_silent = v.stderr_silent;
        drained_ok = v.drained_ok;
      } in
      let part_sent : Inv (record sent_c { tx = some p' }) = record {
        rx_ok = v.rx_ok;
        tx_ok = omega (arith, valid);
        stdout_ok = v.stdout_ok;
        stderr_ok = v.stderr_ok;
        flow_ok = v.flow_ok;
        stderr_start = v.stderr_start;
        stderr_silent = v.stderr_silent;
        drained_ok = v.drained_ok;
      } in
      elim (Bool-cases (p'.buffer_offset == p'.buffer_length)) [
        | inl full ↦
            rw (fits, full)
              (processed-Inv t _ done (process_packet_tx-Inv x law t p' sent_c v') (λ c' v''. v''))
        | inr part ↦ rw (fits, part) part_sent
      ]

  send_packet-Inv :
      (writable : Bool) (d : Departure) (c : Console)
      → Inv c
      → FlowLeaves Inv (send_packet t x writable d c)
  unfolding send_packet
  send_packet-Inv false d c v = v
  send_packet-Inv true d c v = elim (Option-cases c.tx) [
    | inl e ↦ rw (e, send_packet) v
    | inr (p, e) ↦ rw (e, send_packet) (sent-Inv d p c e v)
  ]

  then_send-Inv :
      (writable : Bool) (d : Departure) (flow : Flow)
      → FlowLeaves Inv flow
      → FlowLeaves Inv (then_send t x writable d flow)
  unfolding then_send
  then_send-Inv writable d (next c) v = send_packet-Inv writable d c v
  then_send-Inv writable d (done c) v = v
  then_send-Inv writable d (cleanup c) v = v
  then_send-Inv writable d broken v = v

  finish_stream-Inv : (flow : Flow) → FlowLeaves Inv flow → Leaves Inv (finish_stream flow)
  unfolding finish_stream
  finish_stream-Inv (next c) v =
      update_events-Inv _
        (Same-Inv c (record c { console_watch = no_watch }) (refl, refl, refl, refl, refl, refl) v)
  finish_stream-Inv (done c) v =
      update_events-Inv _
        (Same-Inv c (record c { console_watch = no_watch }) (refl, refl, refl, refl, refl, refl) v)
  finish_stream-Inv (cleanup c) v = v
  finish_stream-Inv broken v = v

  pub stream_readwrite-Inv :
      (readable writable : Bool) (arrivals : List Arrival) (d : Departure) (c : Console)
      → Inv c
      → Leaves Inv (stream_readwrite t x readable writable arrivals d c)
  unfolding stream_readwrite
  stream_readwrite-Inv true writable arrivals d c v =
      finish_stream-Inv _ (then_send-Inv writable d _ (receive_loop-Inv arrivals c v))
  stream_readwrite-Inv false writable arrivals d c v =
      finish_stream-Inv _ (then_send-Inv writable d (next c) v)

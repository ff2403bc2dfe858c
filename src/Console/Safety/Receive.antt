-- ===== src/Console/Safety/Receive.antt =====
-- Packets that were received or sent in full.
use libvirt_sandbox.Base.{
  ◌≤◌, ◌≡◌, refl, arith, false, Bool-cases, ◌==◌, ◌&&◌, not, ltb, none, some, ◌⊎◌, inl, inr,
}
use libvirt_sandbox.Protocol.{len_max, handshake_sync, handshake_wait}
use libvirt_sandbox.Protocol.Xdr.{Xdr, IsXdr}
use libvirt_sandbox.Result.{ok, err, Leaves, Error}
use libvirt_sandbox.Packet.{Packet, new, capacity, decode_length}
use libvirt_sandbox.Packet.Safety.{IsValid, decode_length_parts}
use libvirt_sandbox.Console.{
  Console, State, inactive, waiting, syncing, running, finished, max_queued_data, number, is_set,
}
use native.Mathlib.Decide.{dec_lt}
use libvirt_sandbox.Console.Packets.{build_handshake_sync, build_handshake_wait}
use libvirt_sandbox.Console.Terminal.{Terminal}
use libvirt_sandbox.Console.Events.{rx_byte}
use libvirt_sandbox.Console.Receive.{
  dispatch_proc, next_rx, process_packet_rx_in, process_packet_rx, process_packet_tx_in,
  process_packet_tx, handshake_wait_tx_queue,
}
use libvirt_sandbox.Console.Invariant.{Inv, RxOk, FlowOk}
use libvirt_sandbox.Console.Safety.States.{
  of_number, syncing_entered, running_entered, update_events-Inv,
}
use libvirt_sandbox.Console.Safety.Terminal.{close-Inv, Leaves->>=, Same-Inv}
use libvirt_sandbox.Console.Safety.Dispatch.{Busy, Dispatched, dispatch_proc-Dispatched}

module _ (x : Xdr) (law : IsXdr x) where
  next_rx-Inv : (c : Console) → Dispatched c → Inv (next_rx c)
  unfolding next_rx new
  next_rx-Inv c (v, r) =
      let go =
        number c.state == number running
        && ltb c.to_stdout.size max_queued_data
        && ltb c.to_stderr.size max_queued_data in
      elim (Bool-cases go) [
        | inr stay ↦ rw stay v
        | inl hit ↦
            let busy : c.state ≡ running = of_number c.state running (ground (arith, hit)) in
            rw hit (record {
              rx_ok = rw busy (omega arith);
              tx_ok = v.tx_ok;
              stdout_ok = v.stdout_ok;
              stderr_ok = v.stderr_ok;
              flow_ok = rw busy (ground (arith, hit));
              stderr_start = v.stderr_start;
              stderr_silent = v.stderr_silent;
              drained_ok = v.drained_ok;
            })
      ]

  -- A length word that was received: the same packet goes on, or the console is left as it is.
  decode_length_cases :
      (pkt : Packet)
      → pkt.buffer_length ≡ len_max
      → ((p : Packet) × (decode_length x pkt ≡ ok p)
          × (p.buffer_offset ≡ 4)
          × (4 ≤ p.buffer_length)
          × (p.buffer_length ≤ capacity))
        ⊎ ((e : Error) × (p : Packet) × (decode_length x pkt ≡ err e p))
  decode_length_cases pkt h =
      let (len, _, small, big, good) = decode_length_parts x law pkt h in
      elim (dec_lt len len_max) [
        | yes lo ↦ inr (_, _, small lo)
        | no lo ↦ elim (dec_lt capacity len) [
          | yes hi ↦ inr (_, _, big hi)
          | no hi ↦ inl (_, good (omega arith) (omega arith), refl, omega arith, omega arith)
        ]
      ]

  process_packet_rx_in-Inv :
      (s : State) (pkt : Packet) (c : Console)
      → c.state ≡ s
      → Inv c
      → c.rx ≡ none
      → RxOk s (some pkt)
      → FlowOk s (some pkt) c.to_stdout.size c.to_stderr.size
      → Leaves Inv (process_packet_rx_in s x pkt c)
  unfolding process_packet_rx_in new
  process_packet_rx_in-Inv waiting pkt c e v r ok_rx flow =
      let (c', e', _, v') = syncing_entered x law c e r v in
      let again : Inv (record c { rx = some rx_byte }) = record {
        rx_ok = rw e (omega arith);
        tx_ok = v.tx_ok;
        stdout_ok = v.stdout_ok;
        stderr_ok = v.stderr_ok;
        flow_ok = rw e tt;
        stderr_start = v.stderr_start;
        stderr_silent = v.stderr_silent;
        drained_ok = v.drained_ok;
      } in
      elim (Bool-cases (pkt.buffer 0 == handshake_sync)) [
        | inl hit ↦ rw (hit, e') v'
        | inr miss ↦ rw miss again
      ]
  process_packet_rx_in-Inv running pkt c e v r ok_rx flow =
      let b : Busy c = record {
        inv = v;
        busy = e;
        idle = r;
        stdout_low = flow.0;
        stderr_low = flow.1;
      } in
      elim (Bool-cases (pkt.buffer_length == len_max)) [
        | inr body ↦ rw body (
            Leaves->>= (dispatch_proc x pkt c) _
              (dispatch_proc-Dispatched x law pkt c b ok_rx.1 ok_rx.0.length_le) next_rx-Inv
              (λ a d. d.0))
        | inl word ↦ rw word (elim (decode_length_cases pkt (ground (arith, word))) [
          | inr (_, _, e') ↦ rw e' v
          | inl (p, e', at, lo, hi) ↦ rw e' (record {
            rx_ok = rw e (omega (arith, at, lo, hi));
            tx_ok = v.tx_ok;
            stdout_ok = v.stdout_ok;
            stderr_ok = v.stderr_ok;
            flow_ok = rw e flow;
            stderr_start = v.stderr_start;
            stderr_silent = v.stderr_silent;
            drained_ok = v.drained_ok;
          })
        ])
      ]
  process_packet_rx_in-Inv _ pkt c e v r ok_rx flow = v

  pub process_packet_rx-Inv :
      (pkt : Packet) (c : Console)
      → Inv c
      → c.rx ≡ none
      → RxOk c.state (some pkt)
      → FlowOk c.state (some pkt) c.to_stdout.size c.to_stderr.size
      → Leaves Inv (process_packet_rx x pkt c)
  unfolding process_packet_rx
  process_packet_rx-Inv pkt c v r ok_rx flow =
      process_packet_rx_in-Inv c.state pkt c refl v r ok_rx flow

  tx-Inv : (c : Console) (p : Packet) → Inv c → IsValid p → Inv (record c { tx = some p })
  tx-Inv c p v valid = record {
    rx_ok = v.rx_ok;
    tx_ok = valid;
    stdout_ok = v.stdout_ok;
    stderr_ok = v.stderr_ok;
    flow_ok = v.flow_ok;
    stderr_start = v.stderr_start;
    stderr_silent = v.stderr_silent;
    drained_ok = v.drained_ok;
  }

  process_packet_tx_in-Inv :
      (s : State) (t : Terminal) (pkt : Packet) (c : Console)
      → c.state ≡ s
      → Inv c
      → Leaves Inv (process_packet_tx_in s t x pkt c)
  unfolding process_packet_tx_in build_handshake_sync new
  process_packet_tx_in-Inv waiting t pkt c e v =
      Same-Inv c (record c { timers = _ }) (refl, refl, refl, refl, refl, refl) v
  process_packet_tx_in-Inv syncing t pkt c e v =
      let (c', e', _, v') = running_entered x law c e v in
      elim (Bool-cases (pkt.buffer 0 == handshake_wait)) [
        | inl hit ↦ rw hit (tx-Inv c build_handshake_sync v (omega arith))
        | inr miss ↦ rw (miss, e') v'
      ]
  process_packet_tx_in-Inv finished t pkt c e v = close-Inv t false c v
  process_packet_tx_in-Inv inactive t pkt c e v = v
  process_packet_tx_in-Inv _ t pkt c e v = v

  pub process_packet_tx-Inv :
      (t : Terminal) (pkt : Packet) (c : Console) → Inv c → Leaves Inv (process_packet_tx t x pkt c)
  unfolding process_packet_tx
  process_packet_tx-Inv t pkt c v = process_packet_tx_in-Inv c.state t pkt c refl v

  pub handshake_wait_tx_queue-Inv : (c : Console) → Inv c → Inv (handshake_wait_tx_queue c)
  unfolding handshake_wait_tx_queue build_handshake_wait new
  handshake_wait_tx_queue-Inv c v =
      let queued = update_events-Inv _ (tx-Inv c build_handshake_wait v (omega arith)) in
      elim (Bool-cases (number c.state == number waiting && not (is_set c.tx))) [
        | inl hit ↦ rw hit queued
        | inr miss ↦ rw miss v
      ]

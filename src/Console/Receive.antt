-- ===== src/Console/Receive.antt =====
-- do_console_rpc_dispatch_proc, process_packet_rx, process_packet_tx and the timer of the handshake.
use libvirt_sandbox.Base.{
  ℕ, ◌+◌, ◌==◌, ltb, if◌then◌else◌, true, false, not, ◌&&◌, some, ◌∷◌, sub64,
}
use libvirt_sandbox.Buffer.{read_at}
use libvirt_sandbox.Protocol.{
  len_max, handshake_wait, handshake_sync, proc_stdout, proc_stderr, proc_exit, status_ok,
}
use libvirt_sandbox.Protocol.Xdr.{Xdr}
use libvirt_sandbox.Result.{
  Result, ok, err, fault, ◌>>=◌, unexpected_status, unexpected_proc, unexpected_rx, unexpected_tx,
}
use libvirt_sandbox.Packet.{Packet, new, inside, decode_length, decode_header, decode_payload_msg}
use libvirt_sandbox.Console.{
  Console, State, inactive, waiting, syncing, running, stopping, finished, number, Queue, exited,
  enqueue, max_queued_data, is_set,
}
use libvirt_sandbox.Console.Packets.{build_handshake_wait, build_handshake_sync}
use libvirt_sandbox.Console.Events.{set_state, update_events, rx_byte}
use libvirt_sandbox.Console.Terminal.{Terminal, close}

-- A call on the packet from within a call on the console: an error leaves the console as it is.
abbrev pub on_packet {ℓ} : {A : Type ℓ} → Result A → Console → (A → Result Console) → Result Console
on_packet (ok p) c next = next p
on_packet (err e p) c next = err e c
on_packet fault c next = fault

abbrev pub set_stdout : Console → Queue → Console
set_stdout c q = record c { to_stdout = q }

abbrev pub set_stderr : Console → Queue → Console
set_stderr c q = record c { to_stderr = q }

-- The payload of `pkt` behind `pkt->bufferOffset`, copied to a queue.
unfoldable pub queue_payload : Packet → (Queue → Console) → Queue → Result Console
queue_payload p store q =
    let want = sub64 p.buffer_length p.buffer_offset in
    if inside p.buffer_offset want
    then ok (store (enqueue q (read_at p.buffer p.buffer_offset want)))
    else fault

unfoldable pub guest_exited : Xdr → ℕ → Console → Result Console
guest_exited x status c =
    let c' = record c { signals = exited status ∷ c.signals } in
    if c.to_stdout.size == 0 && c.to_stderr.size == 0
    then set_state x finished c'
    else set_state x stopping c'

unfoldable pub dispatch_header : Xdr → Packet → Console → Result Console
unfolding queue_payload
dispatch_header x p c =
    if p.header.status == status_ok
    then if p.header.proc == proc_stdout
      then queue_payload p (set_stdout c) c.to_stdout
      else if p.header.proc == proc_stderr
      then queue_payload p (set_stderr c) c.to_stderr
      else if p.header.proc == proc_exit
      then on_packet (decode_payload_msg x.message_exit 0 p) c (λ r. guest_exited x r.1 c)
      else err (unexpected_proc p.header.proc) c
    else err (unexpected_status p.header.status) c

unfoldable pub dispatch_proc : Xdr → Packet → Console → Result Console
unfolding dispatch_header
dispatch_proc x pkt c = on_packet (decode_header x pkt) c λ p. dispatch_header x p c

-- "We can receive another packet" once one was dispatched, unless too much is queued.
unfoldable pub next_rx : Console → Console
next_rx c =
    if number c.state == number running
      && ltb c.to_stdout.size max_queued_data
      && ltb c.to_stderr.size max_queued_data
    then record c { rx = some (new true) }
    else c

unfoldable pub process_packet_rx_in : State → Xdr → Packet → Console → Result Console
process_packet_rx_in waiting x pkt c =
    if pkt.buffer 0 == handshake_sync
    then set_state x syncing c
    else ok (record c { rx = some rx_byte })
process_packet_rx_in running x pkt c =
    if pkt.buffer_length == len_max
    then on_packet (decode_length x pkt) c (λ p. ok (record c { rx = some p }))
    else (do c' ← dispatch_proc x pkt c; ok (next_rx c'))
process_packet_rx_in s x pkt c = err (unexpected_rx (number s)) c

unfoldable pub process_packet_rx : Xdr → Packet → Console → Result Console
unfolding process_packet_rx_in
process_packet_rx x pkt c = process_packet_rx_in c.state x pkt c

unfoldable pub process_packet_tx_in : State → Terminal → Xdr → Packet → Console → Result Console
process_packet_tx_in waiting t x pkt c = ok (record c { timers = c.timers + 1 })
process_packet_tx_in syncing t x pkt c =
    if pkt.buffer 0 == handshake_wait
    then ok (record c { tx = some build_handshake_sync })
    else set_state x running c
process_packet_tx_in finished t x pkt c = ok (close t false c)
process_packet_tx_in inactive t x pkt c = err (unexpected_tx (number inactive)) c
process_packet_tx_in _ t x pkt c = ok c

unfoldable pub process_packet_tx : Terminal → Xdr → Packet → Console → Result Console
unfolding process_packet_tx_in
process_packet_tx t x pkt c = process_packet_tx_in c.state t x pkt c

-- do_console_handshake_wait_tx_queue, 50ms after a WAIT byte was sent.
unfoldable pub handshake_wait_tx_queue : Console → Console
handshake_wait_tx_queue c =
    if number c.state == number waiting && not (is_set c.tx)
    then update_events (record c { tx = some build_handshake_wait })
    else c

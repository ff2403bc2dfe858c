-- ===== src/Console/Events.antt =====
-- do_console_rpc_set_state and do_console_rpc_update_events.
use libvirt_sandbox.Base.{ℕ, ◌==◌, if◌then◌else◌, Bool, true, false, not, ◌&&◌, none, some}
use libvirt_sandbox.Protocol.Xdr.{Xdr}
use libvirt_sandbox.Result.{Result, ok}
use libvirt_sandbox.Packet.{Packet, new}
use libvirt_sandbox.Console.{
  Console, State, inactive, waiting, syncing, running, stopping, finished, number, Watch, no_watch,
  is_set,
}
use libvirt_sandbox.Console.Packets.{build_handshake_wait, build_handshake_sync, build_quit, set_tx}

-- A packet of which one byte is to be received.
abbrev pub rx_byte : Packet
rx_byte = record (new false) { buffer_length = 1 }

-- The `switch` on the new state.
enter : Xdr → State → Console → Result Console
enter x waiting c = ok (record c { tx = some build_handshake_wait; rx = some rx_byte })
enter x syncing c = ok (record c { tx = some build_handshake_sync })
enter x running c = ok (record c { rx = some (new true) })
enter x stopping c = ok (record c { tx = none })
enter x finished c = set_tx (build_quit x c)
enter x inactive c = ok c

unfoldable pub set_state : Xdr → State → Console → Result Console
unfolding enter set_tx
set_state x s c = if number c.state == number s then ok c else enter x s (record c { state = s })

unfoldable pub need_stdin : State → Console → Bool
need_stdin running c = not (is_set c.tx) && not c.local_eof
need_stdin _ c = false

has_queue : State → ℕ → Bool
has_queue running size = not (size == 0)
has_queue stopping size = not (size == 0)
has_queue _ size = false

watch : State → Console → Watch
watch inactive c = no_watch
watch finished c = record { readable = false; writable = is_set c.tx }
watch _ c = record { readable = is_set c.rx; writable = is_set c.tx }

unfoldable pub update_events : Console → Console
unfolding need_stdin has_queue watch
update_events c = record c {
  stdin_source = need_stdin c.state c;
  stdout_source = has_queue c.state c.to_stdout.size;
  stderr_source = has_queue c.state c.to_stderr.size;
  console_watch = watch c.state c;
}

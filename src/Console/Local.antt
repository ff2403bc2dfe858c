-- ===== src/Console/Local.antt =====
-- The callbacks of the local files: do_console_rpc_stdin_read, stdout_write and stderr_write.
use Prim.Native.Nat.{min, bit_xor}
use libvirt_sandbox.Base.{
  ℕ, ◌==◌, ltb, if◌then◌else◌, Bool, true, false, not, ◌&&◌, none, some, [], ◌∷◌, ◌++◌, Bytes, take,
  sub64, add64,
}
use libvirt_sandbox.Protocol.Xdr.{Xdr}
use libvirt_sandbox.Result.{Result, ok, err, fault}
use libvirt_sandbox.Packet.{new}
use libvirt_sandbox.Console.{
  Console, running, stopping, finished, number, empty_queue, queued, max_queued_data, max_io,
  is_set,
}
use libvirt_sandbox.Console.Packets.{build_stdin, set_tx}
use libvirt_sandbox.Console.Events.{set_state, update_events}
use libvirt_sandbox.Console.Terminal.{Terminal, close}
use libvirt_sandbox.Console.Io.{Departure, taken, failed}

-- What g_input_stream_read returns: bytes (none at the end of the file), or an error.
pub data Input : Type 0 where
  got : Bytes → Input
  read_failed : Input

-- CONTROL(c)
abbrev pub control : ℕ → ℕ
control c = bit_xor c 0x40

-- The packet with what was read, sent next.
unfoldable pub send_stdin : Terminal → Result Console → Result Console
send_stdin t (ok c) = ok (update_events (record c { stdin_source = false }))
send_stdin t (err e c) = ok (update_events (close t true c))
send_stdin t fault = fault

unfoldable pub is_escape : Bytes → Console → Bool
is_escape [] c = false
is_escape (b ∷ bytes) c = c.allow_escape && b == control c.escape

unfoldable pub note_eof : Bytes → Console → Console
note_eof [] c = record c { local_eof = true }
note_eof (b ∷ bytes) c = c

unfoldable pub stdin_bytes : Terminal → Xdr → Bytes → Console → Result Console
unfolding send_stdin is_escape note_eof
stdin_bytes t x bytes c =
    if is_escape bytes c
    then ok (update_events (close t false c))
    else send_stdin t (set_tx (build_stdin x bytes (note_eof bytes c)))

unfoldable pub stdin_read : Terminal → Xdr → Input → Console → Result Console
unfolding stdin_bytes
stdin_read t x read_failed c = ok (update_events (close t true c))
stdin_read t x (got bytes) c = stdin_bytes t x (take max_io bytes) c

-- `set_state` at the end of a write, whose failure closes the console.
unfoldable pub finish_write : Terminal → (Console → Console) → Result Console → Result Console
finish_write t clear (ok c) = ok (update_events (clear c))
finish_write t clear (err e c) = ok (close t true c)
finish_write t clear fault = fault

abbrev pub clear_stdout : Console → Console
clear_stdout c = record c { stdout_source = false }

abbrev pub clear_stderr : Console → Console
clear_stderr c = record c { stderr_source = false }

-- Another packet may be received once a queue is empty, unless too much is in the other one.
abbrev pub rearm : ℕ → Console → Console
rearm other c =
    if number c.state == number running && not (is_set c.rx) && ltb other max_queued_data
    then record c { rx = some (new true) }
    else c

-- The queue that was written is empty, `other` bytes are in the other one.
unfoldable pub drained : Xdr → ℕ → Console → Result Console
drained x other c =
    let c' = rearm other c in
    if number c'.state == number stopping && other == 0 then set_state x finished c' else ok c'

unfoldable pub stdout_taken : Terminal → Xdr → ℕ → Bytes → Console → Result Console
unfolding drained finish_write
stdout_taken t x n bytes c =
    let q = c.to_stdout in
    let at = add64 q.offset n in
    let c' = record c { stdout_written = c.stdout_written ++ bytes } in
    finish_write t clear_stdout (
      if at == q.size
      then drained x c.to_stderr.size (record c' { to_stdout = empty_queue })
      else ok (record c' { to_stdout = record q { offset = at } }))

unfoldable pub stdout_write : Terminal → Xdr → Departure → Console → Result Console
stdout_write t x failed c = ok (close t true c)
stdout_write t x (taken n) c =
    let q = c.to_stdout in
    let left = sub64 q.size q.offset in
    elim (queued q q.offset left) [
      | none ↦ fault
      | some bytes ↦ stdout_taken t x (min n left) (take (min n left) bytes) c
    ]

unfoldable pub stderr_taken : Terminal → Xdr → ℕ → Bytes → Console → Result Console
unfolding drained finish_write
stderr_taken t x n bytes c =
    let q = c.to_stderr in
    let at = add64 q.offset n in
    let c' = record c { stderr_written = c.stderr_written ++ bytes } in
    finish_write t clear_stderr (
      if at == q.size
      then drained x c.to_stdout.size (record c' { to_stderr = empty_queue })
      else ok (record c' { to_stderr = record q { offset = at } }))

-- The call writes `localToStderrOffset` bytes from the start of the queue.
unfoldable pub stderr_write : Terminal → Xdr → Departure → Console → Result Console
stderr_write t x failed c = ok (close t true c)
stderr_write t x (taken n) c =
    let q = c.to_stderr in
    elim (queued q 0 q.offset) [
      | none ↦ fault
      | some bytes ↦ stderr_taken t x (min n q.offset) (take (min n q.offset) bytes) c
    ]

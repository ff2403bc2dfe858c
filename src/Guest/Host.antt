-- ===== src/Guest/Host.antt =====
-- The channel to the host: reading and dispatching its packets, and writing those of the guest.
use libvirt_sandbox.Base.{
  ℕ, ◌==◌, if◌then◌else◌, Bool, true, Option, none, some, List, [], ◌∷◌, ◌++◌, Bytes, length, sub64,
  add64,
}
use libvirt_sandbox.Buffer.{store, read_at}
use libvirt_sandbox.Protocol.{len_max, handshake_wait, handshake_sync, proc_stdin, proc_quit}
use libvirt_sandbox.Protocol.Xdr.{Xdr}
use libvirt_sandbox.Result.{
  Result, ok, err, fault, unexpected_byte, unexpected_proc, pty_failed, pty_owner_failed,
  pipe_failed, fork_failed,
}
use libvirt_sandbox.Packet.{Packet, inside, decode_length, decode_header}
use libvirt_sandbox.Console.Packets.{build_handshake_sync}
use libvirt_sandbox.Guest.{Guest, ConsoleState, waiting, syncing, running}
use libvirt_sandbox.Guest.Calls.{Answer, Taken, read_data, write_data}

-- What the system calls of run_command return: the master of a pty, whether the slave could be
-- given to the user, the guest's ends of three pipes, and the pid of the child.
pub record Spawn : Type 0 where
  pub want_tty : Bool
  pub master : Option ℕ
  pub owned : Bool
  pub pipes : Option (ℕ × ℕ × ℕ)
  pub pid : Option ℕ

abbrev no_fds : Guest → Guest
no_fds g = record g { app_in = none; app_out = none; app_err = none }

unfoldable pub fork_child : Spawn → ℕ → ℕ → ℕ → Guest → Result Guest
fork_child s i o e g = elim s.pid [
  | none ↦ err fork_failed (no_fds g)
  | some pid ↦
      ok (record g { child = some pid; app_in = some i; app_out = some o; app_err = some e })
]

unfoldable pub run_command : Spawn → Guest → Result Guest
unfolding fork_child
run_command s g =
    if s.want_tty
    then elim s.master [
      | none ↦ err pty_failed (no_fds g)
      | some m ↦ if s.owned then fork_child s m m m g else err pty_owner_failed (no_fds g)
    ]
    else elim s.pipes [ none ↦ err pipe_failed (no_fds g) | some (i, o, e) ↦ fork_child s i o e g ]

-- The packet that was received is used again, for `n` bytes.
abbrev expect : ℕ → Packet → Guest → Guest
expect n p g = record g { rx = some (record p { buffer_length = n; buffer_offset = 0 }) }

unfoldable pub process_waiting : Packet → Guest → Result Guest
process_waiting p g =
    if p.buffer 0 == handshake_wait
    then ok (expect 1 p (record g { state = syncing; tx = some build_handshake_sync }))
    else err (unexpected_byte (p.buffer 0)) g

-- run_command has returned.
unfoldable pub start_running : Packet → Result Guest → Result Guest
start_running p (ok g) = ok (expect len_max p (record g { state = running }))
start_running p (err e g) = err e g
start_running p fault = fault

unfoldable pub process_syncing : Spawn → Packet → Guest → Result Guest
unfolding run_command start_running
process_syncing s p g =
    if p.buffer 0 == handshake_sync
    then start_running p (run_command s g)
    else if p.buffer 0 == handshake_wait
    then ok (expect 1 p g)
    else err (unexpected_byte (p.buffer 0)) g

-- A STDIN packet: its bytes, or, of no bytes, the end of the stdin.
unfoldable pub receive_stdin : Packet → Guest → Result Guest
receive_stdin p g =
    let n = sub64 p.buffer_length p.buffer_offset in
    if n == 0
    then ok (record g { app_in = none; rx = none })
    else if inside p.buffer_offset n
    then ok (record g {
      to_stdin = some (read_at p.buffer p.buffer_offset n);
      to_stdin_length = n;
      to_stdin_offset = 0;
      rx = none;
    })
    else fault

unfoldable pub dispatch_host : Packet → Guest → Result Guest
unfolding receive_stdin
dispatch_host p g =
    if p.header.proc == proc_stdin
    then receive_stdin p g
    else if p.header.proc == proc_quit
    then ok (record g { quit = true; rx = none })
    else err (unexpected_proc p.header.proc) (record g { rx = some p })

-- A call on the packet; its failure goes to cleanup.
abbrev pub on_rx : Result Packet → Guest → (Packet → Result Guest) → Result Guest
on_rx (ok p) g next = next p
on_rx (err e p) g next = err e (record g { rx = some p })
on_rx fault g next = fault

-- `goto readmore` is `again`.
unfoldable pub process_running :
    Xdr → Packet → Guest → (Packet → Guest → Result Guest) → Result Guest
unfolding dispatch_host
process_running x p g again =
    if p.buffer_length == len_max
    then on_rx (decode_length x p) g (λ p'. again p' g)
    else on_rx (decode_header x p) g (λ p'. dispatch_host p' g)

unfoldable pub process_host :
    ConsoleState → Xdr → Spawn → Packet → Guest → (Packet → Guest → Result Guest) → Result Guest
unfolding process_waiting process_syncing process_running
process_host waiting x s p g again = process_waiting p g
process_host syncing x s p g again = process_syncing s p g
process_host running x s p g again = process_running x p g again

abbrev pub hung_up : Guest → Guest
hung_up g = record g { rx = none; quit = true }

unfoldable pub host_bytes :
    Xdr → Spawn → Bytes → Packet → Guest → (Packet → Guest → Result Guest) → Result Guest
unfolding process_host
host_bytes x s [] p g again = ok (hung_up g)
host_bytes x s bytes p g again =
    let p' = record p {
      buffer = store p.buffer p.buffer_offset bytes;
      buffer_offset = add64 p.buffer_offset (length bytes);
    } in
    if p'.buffer_length == p'.buffer_offset
    then process_host g.state x s p' g again
    else ok (record g { rx = some p' })

-- The answers of the channel, one for each time that `readmore` is reached; behind them is its end.
unfoldable pub read_more : Xdr → Spawn → List Answer → Packet → Guest → Result Guest
unfolding host_bytes
read_more x s [] p g = ok (hung_up g)
read_more x s (a ∷ answers) p g =
    let free = sub64 p.buffer_length p.buffer_offset in
    if inside p.buffer_offset free
    then elim (read_data free a) [
      | none ↦ ok (hung_up g)
      | some bytes ↦ host_bytes x s bytes p g (read_more x s answers)
    ]
    else fault

unfoldable pub read_host : Xdr → Spawn → List Answer → Guest → Result Guest
read_host x s answers g = elim g.rx [ none ↦ ok g | some p ↦ read_more x s answers p g ]

unfoldable pub host_wrote : ℕ → Packet → Guest → Guest
host_wrote n p g =
    let p' = record p { buffer_offset = add64 p.buffer_offset n } in
    let g' = record g { host_sent = g.host_sent ++ read_at p.buffer p.buffer_offset n } in
    if p'.buffer_offset == p'.buffer_length
    then record g' { tx = none }
    else record g' { tx = some p' }

unfoldable pub write_host : Taken → Guest → Result Guest
unfolding host_wrote
write_host t g = elim g.tx [
  | none ↦ ok g
  | some p ↦
      let left = sub64 p.buffer_length p.buffer_offset in
      if inside p.buffer_offset left
      then elim (write_data left t) [
        | none ↦ ok (record g { tx = none; quit = true })
        | some n ↦ ok (host_wrote n p g)
      ]
      else fault
]

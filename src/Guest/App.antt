-- ===== src/Guest/App.antt =====
-- The application under the guest's event loop: its exit, and what it writes to a pseudo-tty or to
-- the pipes of its stdout and stderr.
use libvirt_sandbox.Base.{
  ℕ, ◌==◌, if◌then◌else◌, Bool, true, false, not, ◌&&◌, ◌||◌, Option, none, some, List, [], ◌∷◌,
  Bytes,
}
use libvirt_sandbox.Protocol.Xdr.{Xdr}
use libvirt_sandbox.Result.{Result, ok, err, ◌>>=◌, signal_pipe_failed}
use libvirt_sandbox.Guest.{Guest}
use libvirt_sandbox.Guest.Calls.{Answer, Taken, read_data}
use libvirt_sandbox.Guest.Packets.{send_exit, send_stdout, send_stderr}
use libvirt_sandbox.Guest.Stdin.{write_stdin}

-- `revents` of an entry of the poll set; `broken` is POLLERR or POLLNVAL.
pub record Ready : Type 0 where
  pub readable : Bool
  pub writable : Bool
  pub hangup : Bool
  pub broken : Bool

abbrev pub any : Ready → Bool
any r = r.readable || r.writable || r.hangup || r.broken

-- `pid == child`, where no child is there before run_command has returned one.
abbrev pub equals : Option ℕ → ℕ → Bool
equals none n = false
equals (some m) n = m == n

-- waitpid has returned a pid and stored its status.
unfoldable pub reaped : Xdr → ℕ → ℕ → Guest → Result Guest
reaped x pid status g =
    let g1 = record g { exit_status = status } in
    if equals g.child pid
    then if g.app_err_eof && g.app_out_eof
      then send_exit x (record g1 { app_quit = true })
      else ok (record g1 { app_quit = true })
    else ok g1

-- The loop of waitpid, which ends when no further child has exited.
unfoldable pub reap : Xdr → List (ℕ × ℕ) → Guest → Result Guest
unfolding reaped
reap x [] g = ok g
reap x ((pid, status) ∷ more) g = do g' ← reaped x pid status g; reap x more g'

-- The self-pipe signal handler; `woken` says whether the byte could be read.
unfoldable pub signalled : Xdr → Ready → Bool → List (ℕ × ℕ) → Guest → Result Guest
unfolding reap
signalled x r woken waits g =
    if any r then if woken then reap x waits g else err signal_pipe_failed g else ok g

abbrev pub chunk : ℕ
chunk = 4096

abbrev both_eof : Guest → Guest
both_eof g = record g { app_out_eof = true; app_err_eof = true }

unfoldable pub exit_if : Xdr → Bool → Guest → Result Guest
exit_if x b g = if b then send_exit x g else ok g

unfoldable pub tty_read : Xdr → Option Bytes → Guest → Result Guest
unfolding exit_if
tty_read x (some (b ∷ bytes)) g = send_stdout x (b ∷ bytes) g
tty_read x _ g = exit_if x g.app_quit (both_eof g)

unfoldable pub read_tty : Xdr → Answer → Guest → Result Guest
unfolding tty_read
read_tty x a g = elim g.tx [ none ↦ tty_read x (read_data chunk a) g | some p ↦ ok g ]

-- A pseudo-tty: POLLHUP counts only when there is nothing to read or to write.
unfoldable pub serve_tty : Xdr → Ready → Answer → Taken → Guest → Result Guest
unfolding read_tty exit_if
serve_tty x r a t g = do
  g1 ← if r.readable then read_tty x a g else ok g
  g2 ← if r.writable then write_stdin t g1 else ok g1
  if r.hangup && not r.readable && not r.writable
      then exit_if x g2.app_quit (both_eof g2)
      else ok g2

unfoldable pub serve_stdin : Ready → Taken → Guest → Result Guest
serve_stdin r t g = if any r then write_stdin t g else ok g

unfoldable pub stdout_read : Xdr → Option Bytes → Guest → Result Guest
unfolding exit_if
stdout_read x (some (b ∷ bytes)) g = send_stdout x (b ∷ bytes) g
stdout_read x _ g = exit_if x (g.app_err_eof && g.app_quit) (record g { app_out_eof = true })

unfoldable pub serve_stdout : Xdr → Ready → Answer → Guest → Result Guest
unfolding stdout_read
serve_stdout x r a g =
    if any r then elim g.tx [ none ↦ stdout_read x (read_data chunk a) g | some p ↦ ok g ] else ok g

unfoldable pub stderr_read : Xdr → Option Bytes → Guest → Result Guest
unfolding exit_if
stderr_read x (some (b ∷ bytes)) g = send_stderr x (b ∷ bytes) g
stderr_read x _ g = exit_if x (g.app_out_eof && g.app_quit) (record g { app_err_eof = true })

unfoldable pub serve_stderr : Xdr → Ready → Answer → Guest → Result Guest
unfolding stderr_read
serve_stderr x r a g =
    if any r then elim g.tx [ none ↦ stderr_read x (read_data chunk a) g | some p ↦ ok g ] else ok g

-- ===== src/Raw/Terminal.antt =====
-- gvir_sandbox_console_raw_start_term, stop_term, attach and detach, gvir_sandbox_console_open_remote
-- and do_console_raw_close. What the terminal and the domain answer is an argument.
use libvirt_sandbox.Base.{if◌then◌else◌, Bool, true, false, [], ◌∷◌}
use libvirt_sandbox.Result.{
  Result, ok, err, fault, ◌>>=◌, already_attached, query_terminal_failed, update_terminal_failed,
  restore_terminal_failed, open_console_failed,
}
use libvirt_sandbox.Console.{closed, no_watch}
use libvirt_sandbox.Console.Terminal.{Terminal}
use libvirt_sandbox.Raw.{Raw}
use libvirt_sandbox.Raw.Events.{update_events}

unfoldable pub start_term : Terminal → Bool → Raw → Result Raw
start_term t has_stdin r =
    if has_stdin
    then if t.is_tty
      then if t.query_succeeds
        then if t.update_succeeds
          then ok (record r { termios_active = true })
          else err update_terminal_failed r
        else err query_terminal_failed r
      else ok r
    else ok r

unfoldable pub stop_term : Terminal → Bool → Raw → Result Raw
stop_term t has_stdin r =
    if has_stdin
    then if t.is_tty
      then if t.update_succeeds
        then ok (record r { termios_active = false })
        else err restore_terminal_failed r
      else ok r
    else ok r

-- The object as a call leaves it, whatever it returned.
abbrev pub left_of : Raw → Result Raw → Raw
left_of r (ok r') = r'
left_of r (err e r') = r'
left_of r fault = r

-- The stream of the domain's console, or the pseudo-tty that its configuration names; `opened` says
-- whether this one could be opened.
unfoldable pub open_remote : Bool → Bool → Raw → Result Raw
open_remote direct opened r =
    if opened
    then ok (if direct then record r { direct = true } else record r { stream = true })
    else err open_console_failed r

-- The offsets are 0, as detach leaves them.
abbrev pub buffers : Bool → Raw → Raw
buffers has_stdin r = record r {
  to_local = [];
  to_local_length = 4096;
  to_console = [];
  to_console_length = if has_stdin then 4096 else r.to_console_length;
  attached = true;
}

-- Behind open_remote; the failure restores the terminal.
unfoldable pub remote_opened : Terminal → Bool → Result Raw → Result Raw
unfolding update_events stop_term
remote_opened t has_stdin (ok r) = ok (update_events (buffers has_stdin r))
remote_opened t has_stdin (err e r) = err e (left_of r (stop_term t has_stdin r))
remote_opened t has_stdin fault = fault

unfoldable pub attach : Terminal → Bool → Bool → Bool → Bool → Raw → Result Raw
unfolding start_term remote_opened open_remote
attach t has_stdin has_stdout direct opened r = if r.attached then err already_attached r else (do
  r' ← start_term t has_stdin r
  remote_opened t has_stdin (
      open_remote direct opened (record r' { local_stdin = has_stdin; local_stdout = has_stdout })))

abbrev pub dropped : Raw → Raw
dropped r = record r {
  to_local = [];
  to_local_length = 0;
  to_console = [];
  to_console_length = 0;
  stdin_source = false;
  stdout_source = false;
  stderr_source = false;
  console_watch = no_watch;
  input_source = false;
  output_source = false;
  stream = false;
  direct = false;
  local_stdin = false;
  local_stdout = false;
  attached = false;
}

unfoldable pub detach : Terminal → Raw → Result Raw
unfolding stop_term
detach t r = if r.attached then (do r' ← stop_term t r.local_stdin r; ok (dropped r')) else ok r

unfoldable pub close : Terminal → Bool → Raw → Raw
unfolding detach
close t failed r =
    let r' = left_of r (detach t r) in record r' { signals = closed failed ∷ r'.signals }

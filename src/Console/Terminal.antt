-- ===== src/Console/Terminal.antt =====
-- Attaching the console to a domain and detaching it: gvir_sandbox_console_rpc_start_term,
-- stop_term, attach and detach, and do_console_rpc_close.
-- The terminal and the domain are not the program's: what they answer is an argument.
use libvirt_sandbox.Base.{if◌then◌else◌, Bool, true, false, none, ◌∷◌}
use libvirt_sandbox.Protocol.Xdr.{Xdr}
use libvirt_sandbox.Result.{
  Result, ok, err, fault, ◌>>=◌, already_attached, query_terminal_failed, update_terminal_failed,
  restore_terminal_failed, open_console_failed,
}
use libvirt_sandbox.Console.{Console, State, inactive, waiting, closed, empty_queue, no_watch}
use libvirt_sandbox.Console.Events.{set_state, update_events}

-- isatty() of the local stdin, and whether tcgetattr and tcsetattr succeed on it.
pub record Terminal : Type 0 where
  pub is_tty : Bool
  pub query_succeeds : Bool
  pub update_succeeds : Bool

unfoldable pub start_term : Terminal → Bool → Console → Result Console
start_term t has_stdin c =
    if has_stdin
    then if t.is_tty
      then if t.query_succeeds
        then if t.update_succeeds
          then ok (record c { allow_escape = true; termios_active = true })
          else err update_terminal_failed (record c { allow_escape = true })
        else err query_terminal_failed (record c { allow_escape = true })
      else ok (record c { allow_escape = false })
    else ok c

unfoldable pub stop_term : Terminal → Bool → Console → Result Console
stop_term t has_stdin c =
    if has_stdin
    then if t.is_tty
      then if t.update_succeeds
        then ok (record c { termios_active = false })
        else err restore_terminal_failed c
      else ok c
    else ok c

-- The part of detach behind stop_term.
abbrev pub released : Console → Console
released c = record c {
  stdin_source = false;
  stdout_source = false;
  stderr_source = false;
  console_watch = no_watch;
  local_stdin = false;
  to_stdout = empty_queue;
  to_stderr = empty_queue;
  tx = none;
  rx = none;
  state = inactive;
}

unfoldable pub detach_from : State → Terminal → Console → Result Console
detach_from inactive t c = ok c
detach_from _ t c = do c' ← stop_term t c.local_stdin c; ok (released c')

unfoldable pub detach : Terminal → Console → Result Console
unfolding detach_from stop_term
detach t c = detach_from c.state t c

-- The object as a call leaves it, whatever it returned; no call of detach faults.
abbrev pub left_by : Console → Result Console → Console
left_by c (ok c') = c'
left_by c (err e c') = c'
left_by c fault = c

-- `failed` says whether there is a GError.
unfoldable pub close : Terminal → Bool → Console → Console
unfolding detach
close t failed c =
    let c' = left_by c (detach t c) in record c' { signals = closed failed ∷ c'.signals }

-- Behind start_term: the console of the domain is opened, and on failure the terminal restored.
unfoldable pub open_console : Xdr → Terminal → Bool → Bool → Console → Result Console
unfolding set_state stop_term
open_console x t has_stdin opened c =
    if opened
    then (do c' ← set_state x waiting c; ok (update_events c'))
    else err open_console_failed (left_by c (stop_term t has_stdin c))

unfoldable pub attach_from : State → Xdr → Terminal → Bool → Bool → Console → Result Console
attach_from inactive x t has_stdin opened c = do
  c' ← start_term t has_stdin c
  open_console x t has_stdin opened
      (record c' { local_stdin = if has_stdin then true else c'.local_stdin })
attach_from _ x t has_stdin opened c = err already_attached c

-- `opened` is the answer of gvir_domain_open_console.
unfoldable pub attach : Xdr → Terminal → Bool → Bool → Console → Result Console
unfolding attach_from start_term open_console
attach x t has_stdin opened c = attach_from c.state x t has_stdin opened c

-- ===== src/Guest/Loop.antt =====
-- eventloop: the poll set, the dispatch on the descriptor, and the loop.
use libvirt_sandbox.Base.{
  ℕ, ◌==◌, if◌then◌else◌, Bool, true, false, not, ◌&&◌, ◌||◌, Option, none, some, List, [], ◌∷◌,
  ◌++◌,
}
use libvirt_sandbox.Protocol.Xdr.{Xdr}
use libvirt_sandbox.Result.{Result, ok, ◌>>=◌}
use libvirt_sandbox.Console.{is_set, Watch}
use libvirt_sandbox.Guest.{Guest, ConsoleState, waiting, syncing, running}
use libvirt_sandbox.Guest.Calls.{Answer, Taken}
use libvirt_sandbox.Guest.Host.{Spawn, read_host, write_host}
use libvirt_sandbox.Guest.App.{
  Ready, equals, signalled, serve_tty, serve_stdin, serve_stdout, serve_stderr,
}

-- The arguments of eventloop, with what run_command finds.
pub record Setting : Type 0 where
  pub sigread : ℕ
  pub host : ℕ
  pub spawn : Spawn

-- An entry of the poll set with POLLIN or POLLOUT, if the descriptor is there.
abbrev entry : Option ℕ → Bool → Bool → List (ℕ × Watch)
entry none r w = []
entry (some fd) r w = if r || w then (fd, record { readable = r; writable = w }) ∷ [] else []

abbrev fd_differs : Option ℕ → Option ℕ → Bool
fd_differs none none = false
fd_differs (some a) (some b) = not (a == b)
fd_differs _ _ = true

unfoldable pub want_stdin : Guest → Bool
want_stdin g = is_set g.to_stdin && is_set g.app_in

unfoldable pub host_watch : ConsoleState → Guest → Watch
unfolding want_stdin
host_watch waiting g = record { readable = true; writable = false }
host_watch syncing g = record { readable = true; writable = is_set g.tx }
host_watch running g = record {
  readable = not (want_stdin g) && is_set g.rx;
  writable = is_set g.tx;
}

-- The entries of the application's descriptors.
app_set : ConsoleState → Guest → List (ℕ × Watch)
unfolding want_stdin
app_set running g =
    entry g.app_in false (want_stdin g)
    ++ entry g.app_out (not (is_set g.tx) && not g.app_out_eof) false
    ++ entry g.app_err (not (is_set g.tx) && fd_differs g.app_out g.app_err && not g.app_err_eof)
        false
app_set _ g = []

unfoldable pub poll_set : Setting → Guest → List (ℕ × Watch)
unfolding host_watch app_set
poll_set s g =
    let w = host_watch g.state g in
    entry (some s.sigread) true false
    ++ app_set g.state g
    ++ entry (some s.host) w.readable w.writable

-- What poll reports for an entry, and what the calls on its descriptor will answer.
pub record Report : Type 0 where
  pub ready : Ready
  pub woken : Bool
  pub waits : List (ℕ × ℕ)
  pub reads : List Answer
  pub read : Answer
  pub write : Taken

unfoldable pub serve_host : Xdr → Setting → Report → Guest → Result Guest
serve_host x s r g = do
  g1 ← if r.ready.readable then read_host x s.spawn r.reads g else ok g
  g2 ← if r.ready.writable then write_host r.write g1 else ok g1
  ok (if r.ready.hangup || r.ready.broken then record g2 { quit = true } else g2)

-- The branches on `fds[i].fd`.
unfoldable pub serve : Xdr → Setting → ℕ → Report → Guest → Result Guest
unfolding serve_host
serve x s fd r g =
    if fd == s.sigread
    then signalled x r.ready r.woken r.waits g
    else if fd == s.host
    then serve_host x s r g
    else if equals g.app_in fd && equals g.app_out fd
    then serve_tty x r.ready r.read r.write g
    else if equals g.app_in fd
    then serve_stdin r.ready r.write g
    else if equals g.app_out fd
    then serve_stdout x r.ready r.read g
    else if equals g.app_err fd
    then serve_stderr x r.ready r.read g
    else ok g

unfoldable pub serve_all : Xdr → Setting → List (ℕ × Watch) → List Report → Guest → Result Guest
unfolding serve
serve_all x s ((fd, w) ∷ fds) (r ∷ reports) g = do
  g' ← serve x s fd r g
  serve_all x s fds reports g'
serve_all x s _ _ g = ok g

-- `while (!quit)`, where each entry of the list is what one poll reports. Behind it poll waits.
unfoldable pub eventloop : Xdr → Setting → List (List Report) → Guest → Result Guest
unfolding serve_all poll_set
eventloop x s [] g = ok g
eventloop x s (reports ∷ polls) g =
    if g.quit
    then ok g
    else (do g' ← serve_all x s (poll_set s g) reports g; eventloop x s polls g')

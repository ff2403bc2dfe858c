-- ===== src/Guest/Safety/App.antt =====
-- The application's exit, its output and its stdin.
use libvirt_sandbox.Base.{
  ℕ, refl, true, false, Bool, Bool-cases, Option-cases, ◌&&◌, List, [], ◌∷◌, inl, inr,
  if◌then◌else◌, not,
}
use libvirt_sandbox.Protocol.Xdr.{Xdr, IsXdr}
use libvirt_sandbox.Result.{Result, ok}
use libvirt_sandbox.Guest.Host.{Spawn}
use libvirt_sandbox.Guest.{Guest}
use libvirt_sandbox.Guest.Calls.{Answer, Taken, read_data}
use libvirt_sandbox.Guest.Stdin.{write_stdin}
use libvirt_sandbox.Guest.App.{
  Ready, any, equals, reaped, reap, signalled, tty_read, read_tty, serve_tty, serve_stdin,
  stdout_read, stderr_read, serve_stdout, serve_stderr, chunk,
}
use libvirt_sandbox.Guest.Invariant.{Keeps, Keeps->>=, IsStable}
use libvirt_sandbox.Guest.Safety.Stdin.{read_data_short}
use libvirt_sandbox.Guest.Safety.Packets.{
  send_exit_stable, send_stdout_stable, send_stderr_stable, exit_if_stable,
}

module _ (x : Xdr) (law : IsXdr x) (s : Spawn) (P : Guest → Type 0) (st : IsStable x s P) where
  reaped_stable : (pid status : ℕ) (g : Guest) → P g → Keeps P (reaped x pid status g)
  unfolding reaped
  reaped_stable pid status g v = elim (Bool-cases (equals g.child pid)) [
    | inr other ↦ rw other (st.beside g _ refl v)
    | inl ours ↦ rw ours (elim (Bool-cases (g.app_err_eof && g.app_out_eof)) [
      | inr live ↦ rw live (st.beside g _ refl v)
      | inl eof ↦ rw eof (
          send_exit_stable x law s P st _
            (st.beside g (record g { exit_status = status; app_quit = true }) refl v))
    ])
  ]

  reap_stable : (waits : List (ℕ × ℕ)) (g : Guest) → P g → Keeps P (reap x waits g)
  unfolding reap
  reap_stable [] g v = v
  reap_stable ((pid, status) ∷ more) g v =
      Keeps->>= P P (reaped x pid status g) (reap x more) (reaped_stable pid status g v)
        (reap_stable more)

  pub signalled_stable :
      (r : Ready) (woken : Bool) (waits : List (ℕ × ℕ)) (g : Guest)
      → P g
      → Keeps P (signalled x r woken waits g)
  unfolding signalled
  signalled_stable r woken waits g v = elim (Bool-cases (any r)) [
    | inr quiet ↦ rw quiet v
    | inl hit ↦ rw hit (elim (Bool-cases woken) [
      | inr lost ↦ rw lost tt
      | inl read ↦ rw read (reap_stable waits g v)
    ])
  ]

  tty_read_stable : (a : Answer) (g : Guest) → P g → Keeps P (tty_read x (read_data chunk a) g)
  unfolding tty_read
  tty_read_stable a g v = elim (read_data_short chunk a) [
    | inl e ↦ rw e (exit_if_stable x law s P st g.app_quit _ (st.beside g _ refl v))
    | inr ([], e, le) ↦ rw e (exit_if_stable x law s P st g.app_quit _ (st.beside g _ refl v))
    | inr (b ∷ bytes, e, le) ↦ rw e (send_stdout_stable x law s P st (b ∷ bytes) g le v)
  ]

  stdout_read_stable :
      (a : Answer) (g : Guest) → P g → Keeps P (stdout_read x (read_data chunk a) g)
  unfolding stdout_read
  stdout_read_stable a g v = elim (read_data_short chunk a) [
    | inl e ↦ rw e (exit_if_stable x law s P st _ _ (st.beside g _ refl v))
    | inr ([], e, le) ↦ rw e (exit_if_stable x law s P st _ _ (st.beside g _ refl v))
    | inr (b ∷ bytes, e, le) ↦ rw e (send_stdout_stable x law s P st (b ∷ bytes) g le v)
  ]

  stderr_read_stable :
      (a : Answer) (g : Guest) → P g → Keeps P (stderr_read x (read_data chunk a) g)
  unfolding stderr_read
  stderr_read_stable a g v = elim (read_data_short chunk a) [
    | inl e ↦ rw e (exit_if_stable x law s P st _ _ (st.beside g _ refl v))
    | inr ([], e, le) ↦ rw e (exit_if_stable x law s P st _ _ (st.beside g _ refl v))
    | inr (b ∷ bytes, e, le) ↦ rw e (send_stderr_stable x law s P st (b ∷ bytes) g le v)
  ]

  read_tty_stable : (a : Answer) (g : Guest) → P g → Keeps P (read_tty x a g)
  unfolding read_tty
  read_tty_stable a g v = elim (Option-cases g.tx) [
    | inl e ↦ rw (e, read_tty) (tty_read_stable a g v)
    | inr (p, e) ↦ rw (e, read_tty) v
  ]

  -- An optional call.
  pub when_stable :
      (b : Bool) (r : Result Guest) (g : Guest) → P g → Keeps P r → Keeps P (if b then r else ok g)
  when_stable true r g v w = w
  when_stable false r g v w = v

  pub unless_stable :
      (b : Bool) (r : Result Guest) (g : Guest) → P g → Keeps P r → Keeps P (if b then ok g else r)
  unless_stable true r g v w = v
  unless_stable false r g v w = w

  pub serve_tty_stable :
      (r : Ready) (a : Answer) (t : Taken) (g : Guest) → P g → Keeps P (serve_tty x r a t g)
  unfolding serve_tty
  serve_tty_stable r a t g v =
      Keeps->>= P P (if r.readable then read_tty x a g else ok g) _
        (when_stable r.readable _ g v (read_tty_stable a g v))
        λ g1 v1.
          Keeps->>= P P (if r.writable then write_stdin t g1 else ok g1) _
            (when_stable r.writable _ g1 v1 (st.writes t g1 v1))
            λ g2 v2.
              when_stable (r.hangup && not r.readable && not r.writable) _ g2 v2
                (exit_if_stable x law s P st g2.app_quit _ (st.beside g2 _ refl v2))

  pub serve_stdin_stable : (r : Ready) (t : Taken) (g : Guest) → P g → Keeps P (serve_stdin r t g)
  unfolding serve_stdin
  serve_stdin_stable r t g v = when_stable (any r) _ g v (st.writes t g v)

  pub serve_stdout_stable :
      (r : Ready) (a : Answer) (g : Guest) → P g → Keeps P (serve_stdout x r a g)
  unfolding serve_stdout
  serve_stdout_stable r a g v = when_stable (any r) _ g v (elim (Option-cases g.tx) [
    | inl e ↦ rw (e, serve_stdout) (stdout_read_stable a g v)
    | inr (p, e) ↦ rw (e, serve_stdout) v
  ])

  pub serve_stderr_stable :
      (r : Ready) (a : Answer) (g : Guest) → P g → Keeps P (serve_stderr x r a g)
  unfolding serve_stderr
  serve_stderr_stable r a g v = when_stable (any r) _ g v (elim (Option-cases g.tx) [
    | inl e ↦ rw (e, serve_stderr) (stderr_read_stable a g v)
    | inr (p, e) ↦ rw (e, serve_stderr) v
  ])

-- ===== src/Guest/Safety/Runs.antt =====
-- Any polls, from the start of the loop on.
use libvirt_sandbox.Base.{
  ℕ, refl, subst, sym, Bool-cases, ◌==◌, ◌&&◌, ◌||◌, List, [], ◌∷◌, inl, inr, if◌then◌else◌,
}
use libvirt_sandbox.Protocol.Xdr.{Xdr, IsXdr}
use libvirt_sandbox.Result.{ok}
use libvirt_sandbox.Console.{Watch}
use libvirt_sandbox.Guest.{Guest}
use libvirt_sandbox.Guest.Host.{read_host, write_host}
use libvirt_sandbox.Guest.App.{equals}
use libvirt_sandbox.Guest.Loop.{Setting, Report, serve_host, serve, serve_all, poll_set, eventloop}
use libvirt_sandbox.Guest.Invariant.{Inv, Ok, Keeps, Keeps->>=, IsStable}
use libvirt_sandbox.Guest.Safety.Stdin.{write_stdin-Inv}
use libvirt_sandbox.Guest.Safety.Host.{read_host-Inv, write_host_stable}
use libvirt_sandbox.Guest.Safety.App.{
  when_stable, unless_stable, signalled_stable, serve_tty_stable, serve_stdin_stable,
  serve_stdout_stable, serve_stderr_stable,
}

module _ (x : Xdr) (law : IsXdr x) (s : Setting) (P : Guest → Type 0)
    (st : IsStable x s.spawn P) where
  serve_host_stable : (r : Report) (g : Guest) → P g → Keeps P (serve_host x s r g)
  unfolding serve_host
  serve_host_stable r g v =
      Keeps->>= P P (if r.ready.readable then read_host x s.spawn r.reads g else ok g) _
        (when_stable x law s.spawn P st r.ready.readable _ g v (st.reads r.reads g v))
        λ g1 v1.
          Keeps->>= P P (if r.ready.writable then write_host r.write g1 else ok g1) _
            (when_stable x law s.spawn P st r.ready.writable _ g1 v1
              (write_host_stable x s.spawn P st r.write g1 v1))
            λ g2 v2. elim (Bool-cases (r.ready.hangup || r.ready.broken)) [
              | inl gone ↦ rw gone (st.beside g2 _ refl v2)
              | inr fine ↦ rw fine v2
            ]

  serve_stable : (fd : ℕ) (r : Report) (g : Guest) → P g → Keeps P (serve x s fd r g)
  unfolding serve
  serve_stable fd r g v = elim (Bool-cases (fd == s.sigread)) [
    | inl hit ↦ rw hit (signalled_stable x law s.spawn P st r.ready r.woken r.waits g v)
    | inr n1 ↦ rw n1 (elim (Bool-cases (fd == s.host)) [
      | inl hit ↦ rw hit (serve_host_stable r g v)
      | inr n2 ↦ rw n2 (elim (Bool-cases (equals g.app_in fd && equals g.app_out fd)) [
        | inl hit ↦ rw hit (serve_tty_stable x law s.spawn P st r.ready r.read r.write g v)
        | inr n3 ↦ rw n3 (elim (Bool-cases (equals g.app_in fd)) [
          | inl hit ↦ rw hit (serve_stdin_stable x law s.spawn P st r.ready r.write g v)
          | inr n4 ↦ rw n4 (elim (Bool-cases (equals g.app_out fd)) [
            | inl hit ↦ rw hit (serve_stdout_stable x law s.spawn P st r.ready r.read g v)
            | inr n5 ↦ rw n5 (
                when_stable x law s.spawn P st (equals g.app_err fd) _ g v
                  (serve_stderr_stable x law s.spawn P st r.ready r.read g v))
          ])
        ])
      ])
    ])
  ]

  serve_all_stable :
      (fds : List (ℕ × Watch)) (reports : List Report) (g : Guest)
      → P g
      → Keeps P (serve_all x s fds reports g)
  unfolding serve_all
  serve_all_stable [] reports g v = v
  serve_all_stable (f ∷ fds) [] g v = v
  serve_all_stable ((fd, w) ∷ fds) (r ∷ reports) g v =
      Keeps->>= P P (serve x s fd r g) (serve_all x s fds reports) (serve_stable fd r g v)
        (serve_all_stable fds reports)

  pub eventloop_stable :
      (polls : List (List Report)) (g : Guest) → P g → Keeps P (eventloop x s polls g)
  unfolding eventloop
  eventloop_stable [] g v = v
  eventloop_stable (reports ∷ polls) g v = unless_stable x law s.spawn P st g.quit _ g v (
      Keeps->>= P P (serve_all x s (poll_set s g) reports g) (eventloop x s polls)
        (serve_all_stable (poll_set s g) reports g v) (eventloop_stable polls))

module _ (x : Xdr) (law : IsXdr x) (s : Setting) where
  Inv-IsStable : IsStable x s.spawn Inv
  Inv-IsStable = record {
    beside = λ g g' e v. subst (λ k. Ok k.0 k.1 k.2 k.3 k.4 k.5) (sym e) v;
    valid = λ g v. v.tx_ok;
    sets = λ g t ok_t v. record {
      rx_ok = v.rx_ok;
      tx_ok = ok_t;
      stdin_ok = v.stdin_ok;
      alone = v.alone;
    };
    writes = write_stdin-Inv;
    reads = read_host-Inv x law s.spawn;
  }

  -- The event loop of the guest touches no memory outside a packet's buffer or the bytes kept for
  -- the application, whatever the host sends and poll, read, write and waitpid answer, and it
  -- keeps the invariant unless it ends with a `goto cleanup`.
  pub eventloop-Inv :
      (polls : List (List Report)) (g : Guest) → Inv g → Keeps Inv (eventloop x s polls g)
  eventloop-Inv = eventloop_stable x law s Inv Inv-IsStable

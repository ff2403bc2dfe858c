-- ===== src/Guest/Exit.antt =====
-- Which exit status the guest keeps for the EXIT packet.
use libvirt_sandbox.Base.{ℕ, ◌≡◌, refl, true, Bool-cases, ◌&&◌, List, [], ◌∷◌, ◌++◌, inl, inr}
use libvirt_sandbox.Protocol.Xdr.{Xdr, IsXdr}
use libvirt_sandbox.Guest.{Guest}
use libvirt_sandbox.Guest.Packets.{send_exit}
use libvirt_sandbox.Guest.App.{equals, reaped, reap}
use libvirt_sandbox.Guest.Invariant.{Keeps, Keeps->>=, Keeps-map}
use libvirt_sandbox.Guest.Safety.Packets.{exit_built}

module _ (x : Xdr) (law : IsXdr x) where
  abbrev Status : ℕ → Guest → Type 0
  Status status g = g.exit_status ≡ status

  send_exit-Status : (g : Guest) → Keeps (Status g.exit_status) (send_exit x g)
  unfolding send_exit
  send_exit-Status g =
      let (_, _, f, e, frame) = exit_built x law g.exit_status g.serial in rw e refl

  reaped-Status : (pid status : ℕ) (g : Guest) → Keeps (Status status) (reaped x pid status g)
  unfolding reaped
  reaped-Status pid status g = elim (Bool-cases (equals g.child pid)) [
    | inr other ↦ rw other refl
    | inl ours ↦ rw ours (elim (Bool-cases (g.app_err_eof && g.app_out_eof)) [
      | inr live ↦ rw live refl
      | inl eof ↦ rw eof (send_exit-Status (record g { exit_status = status; app_quit = true }))
    ])
  ]

  reaped_runs : (pid status : ℕ) (g : Guest) → Keeps (λ _. Unit {0}) (reaped x pid status g)
  reaped_runs pid status g =
      Keeps-map (Status status) (λ _. Unit {0}) (reaped x pid status g) (reaped-Status pid status g)
        (λ _ _. tt)

  -- When several processes have exited, the exit status that the guest keeps is the one of the
  -- process that is reaped last, whether or not this process is the command that the guest runs.
  pub reap-last_status :
      (waits : List (ℕ × ℕ)) (pid status : ℕ) (g : Guest)
      → Keeps (λ g'. g'.exit_status ≡ status) (reap x (waits ++ (pid, status) ∷ []) g)
  unfolding reap
  reap-last_status [] pid status g =
      Keeps->>= (Status status) (Status status) (reaped x pid status g) (reap x [])
        (reaped-Status pid status g) (λ g' e. e)
  reap-last_status ((p, st) ∷ waits) pid status g =
      Keeps->>= (λ _. Unit {0}) (Status status) (reaped x p st g)
        (reap x (waits ++ (pid, status) ∷ [])) (reaped_runs p st g)
        (λ g' _. reap-last_status waits pid status g')

-- ===== src/Console/Safety/Runs.antt =====
-- Any events in any order, from the new object on.
use libvirt_sandbox.Base.{ℕ, ◌≤◌, ◌<◌, ◌≡◌, refl, arith, List, [], ◌∷◌, inl, inr}
use libvirt_sandbox.Protocol.Xdr.{Xdr, IsXdr}
use libvirt_sandbox.Result.{ok, Leaves, Leaves-cases}
use libvirt_sandbox.Console.{Console, fresh}
use libvirt_sandbox.Console.Terminal.{Terminal}
use libvirt_sandbox.Console.Step.{
  Event, attached, detached, timer, stream, stdin, stdout, stderr, step, run,
}
use libvirt_sandbox.Console.Invariant.{Inv, queue_max}
use libvirt_sandbox.Console.Safety.Terminal.{attach-Inv, detach-Inv}
use libvirt_sandbox.Console.Safety.Receive.{handshake_wait_tx_queue-Inv}
use libvirt_sandbox.Console.Safety.Io.{stream_readwrite-Inv}
use libvirt_sandbox.Console.Safety.Local.{stdin_read-Inv}
use libvirt_sandbox.Console.Safety.Output.{stdout_write-Inv, stderr_write-Inv}

pub fresh-Inv : (escape : ℕ) → Inv (fresh escape)
fresh-Inv escape = record {
  rx_ok = tt;
  tx_ok = tt;
  stdout_ok = omega arith;
  stderr_ok = omega arith;
  flow_ok = tt;
  stderr_start = refl;
  stderr_silent = refl;
  drained_ok = (refl, refl);
}

module _ (x : Xdr) (law : IsXdr x) where
  -- No callback and no call of the console touches memory outside a packet's buffer or a queue's
  -- memory, whatever its surroundings answer, and each keeps the invariant, also where it fails.
  pub step-Inv : (t : Terminal) (e : Event) (c : Console) → Inv c → Leaves Inv (step x t e c)
  unfolding step
  step-Inv t (attached has_stdin opened) c v = attach-Inv x law t has_stdin opened c v
  step-Inv t detached c v = detach-Inv t c v
  step-Inv t timer c v = handshake_wait_tx_queue-Inv x law c v
  step-Inv t (stream r w arrivals d) c v = stream_readwrite-Inv x law t r w arrivals d c v
  step-Inv t (stdin i) c v = stdin_read-Inv x law t i c v
  step-Inv t (stdout d) c v = stdout_write-Inv x law t d c v
  step-Inv t (stderr d) c v = stderr_write-Inv x law t d c v

  -- One event of a run, on either result.
  pub run-Inv :
      (events : List (Terminal × Event)) (c : Console)
      → Inv c
      → (c' : Console) × (run x events c ≡ ok c') × Inv c'
  unfolding run
  run-Inv [] c v = (c, refl, v)
  run-Inv ((t, e) ∷ events) c v = elim (Leaves-cases (step x t e c) (step-Inv t e c v)) [
    | inl (c', r, v') ↦ rw (r, run) (run-Inv events c' v')
    | inr (_, c', r, v') ↦ rw (r, run) (run-Inv events c' v')
  ]

  -- A console runs on through any events without a fault; each of its queues then holds less than
  -- the limit of 1024 bytes and one payload of 262128 bytes together, with the position inside.
  pub run-queues_bounded :
      (escape : ℕ) (events : List (Terminal × Event))
      → (c : Console) × (run x events (fresh escape) ≡ ok c)
        × (c.to_stdout.size < queue_max)
        × (c.to_stderr.size < queue_max)
        × (c.to_stdout.offset ≤ c.to_stdout.size)
        × (c.to_stderr.offset ≤ c.to_stderr.size)
  run-queues_bounded escape events =
      let (c, r, v) = run-Inv events (fresh escape) (fresh-Inv escape) in
      (c, r, v.stdout_ok.bounded, v.stderr_ok.bounded, v.stdout_ok.offset_le, v.stderr_ok.offset_le)

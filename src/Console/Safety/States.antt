-- ===== src/Console/Safety/States.antt =====
-- The changes of state, and detaching.
use libvirt_sandbox.Base.{◌<◌, ◌≡◌, refl, arith, ◌==◌, none, some, add64, true}
use libvirt_sandbox.Protocol.Xdr.{Xdr, IsXdr}
use libvirt_sandbox.Result.{ok}
use libvirt_sandbox.Packet.{new}
use libvirt_sandbox.Console.{
  Console, State, inactive, waiting, syncing, running, stopping, finished, number,
}
use libvirt_sandbox.Console.Packets.{build_handshake_wait, build_handshake_sync}
use libvirt_sandbox.Console.Events.{set_state, update_events, rx_byte}
use libvirt_sandbox.Console.Invariant.{Inv, quit_built, IsFrame-IsValid}

-- A state is known by its number.
pub of_number : (s s' : State) → (number s == number s') ≡ true → s ≡ s'
of_number s s' e = ground arith

pub update_events-Inv : (c : Console) → Inv c → Inv (update_events c)
unfolding update_events
update_events-Inv c v = record {
  rx_ok = v.rx_ok;
  tx_ok = v.tx_ok;
  stdout_ok = v.stdout_ok;
  stderr_ok = v.stderr_ok;
  flow_ok = v.flow_ok;
  stderr_start = v.stderr_start;
  stderr_silent = v.stderr_silent;
  drained_ok = v.drained_ok;
}

module _ (x : Xdr) (law : IsXdr x) where
  -- Entering FINISHED makes the QUIT packet, which never fails.
  pub finished_entered :
      (c : Console)
      → number c.state < 5
      → c.rx ≡ none
      → c.to_stdout.size ≡ 0
      → c.to_stderr.size ≡ 0
      → Inv c
      → (c' : Console) × (set_state x finished c ≡ ok c')
        × (c'.state ≡ finished)
        × (c'.rx ≡ none)
        × Inv c'
  unfolding set_state
  finished_entered c busy idle out_zero err_zero v =
      let (p, e, frame) = quit_built x law (record c { state = finished }) in
      (
        record c { state = finished; tx = some p; serial = add64 c.serial 1 },
        ground (arith, e),
        refl,
        idle,
        record {
          rx_ok = rw idle tt;
          tx_ok = IsFrame-IsValid x law frame;
          stdout_ok = v.stdout_ok;
          stderr_ok = v.stderr_ok;
          flow_ok = tt;
          stderr_start = v.stderr_start;
          stderr_silent = v.stderr_silent;
          drained_ok = (out_zero, err_zero);
        },
      )

  pub stopping_entered :
      (c : Console)
      → c.state ≡ running
      → c.rx ≡ none
      → Inv c
      → (c' : Console) × (set_state x stopping c ≡ ok c')
        × (c'.state ≡ stopping)
        × (c'.rx ≡ none)
        × Inv c'
  unfolding set_state
  stopping_entered c busy idle v = (
    record c { state = stopping; tx = none },
    ground (arith, busy),
    refl,
    idle,
    record {
      rx_ok = rw idle tt;
      tx_ok = tt;
      stdout_ok = v.stdout_ok;
      stderr_ok = v.stderr_ok;
      flow_ok = tt;
      stderr_start = v.stderr_start;
      stderr_silent = v.stderr_silent;
      drained_ok = tt;
    },
  )

  pub syncing_entered :
      (c : Console)
      → c.state ≡ waiting
      → c.rx ≡ none
      → Inv c
      → (c' : Console) × (set_state x syncing c ≡ ok c') × (c'.state ≡ syncing) × Inv c'
  unfolding set_state build_handshake_sync new
  syncing_entered c busy idle v = (
    record c { state = syncing; tx = some build_handshake_sync },
    ground (arith, busy),
    refl,
    record {
      rx_ok = rw idle tt;
      tx_ok = omega arith;
      stdout_ok = v.stdout_ok;
      stderr_ok = v.stderr_ok;
      flow_ok = tt;
      stderr_start = v.stderr_start;
      stderr_silent = v.stderr_silent;
      drained_ok = rw busy at v.drained_ok;
    },
  )

  pub running_entered :
      (c : Console)
      → c.state ≡ syncing
      → Inv c
      → (c' : Console) × (set_state x running c ≡ ok c') × (c'.state ≡ running) × Inv c'
  unfolding set_state new
  running_entered c busy v =
      let zero_sizes : (c.to_stdout.size ≡ 0) × (c.to_stderr.size ≡ 0) = rw busy at v.drained_ok in
      (
        record c { state = running; rx = some (new true) },
        ground (arith, busy),
        refl,
        record {
          rx_ok = omega arith;
          tx_ok = v.tx_ok;
          stdout_ok = v.stdout_ok;
          stderr_ok = v.stderr_ok;
          flow_ok = omega arith;
          stderr_start = v.stderr_start;
          stderr_silent = v.stderr_silent;
          drained_ok = tt;
        },
      )

  pub waiting_entered :
      (c : Console)
      → c.state ≡ inactive
      → Inv c
      → (c' : Console) × (set_state x waiting c ≡ ok c') × (c'.state ≡ waiting) × Inv c'
  unfolding set_state build_handshake_wait new
  waiting_entered c busy v = (
    record c { state = waiting; tx = some build_handshake_wait; rx = some rx_byte },
    ground (arith, busy),
    refl,
    record {
      rx_ok = omega arith;
      tx_ok = omega arith;
      stdout_ok = v.stdout_ok;
      stderr_ok = v.stderr_ok;
      flow_ok = tt;
      stderr_start = v.stderr_start;
      stderr_silent = v.stderr_silent;
      drained_ok = rw busy at v.drained_ok;
    },
  )

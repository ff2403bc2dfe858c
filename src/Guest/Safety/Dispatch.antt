-- ===== src/Guest/Safety/Dispatch.antt =====
-- The packets of the host, once they are complete.
use libvirt_sandbox.Base.{
  ℕ, ◌≤◌, ◌≡◌, refl, arith, true, Bool-cases, Option-cases, ◌==◌, none, sub64, inl, inr,
}
use libvirt_sandbox.Buffer.{length-read_at}
use libvirt_sandbox.Protocol.{handshake_wait, handshake_sync, proc_stdin, proc_quit}
use libvirt_sandbox.Result.{Result, ok, err, fault}
use libvirt_sandbox.Packet.{Packet, new, inside, capacity}
use libvirt_sandbox.Console.Packets.{build_handshake_sync}
use libvirt_sandbox.Console.Invariant.{TxOk}
use libvirt_sandbox.Guest.{Guest, syncing}
use libvirt_sandbox.Guest.Host.{
  Spawn, fork_child, run_command, process_waiting, start_running, process_syncing, receive_stdin,
  dispatch_host,
}
use libvirt_sandbox.Guest.Invariant.{Inv, StdinOk, Keeps, Alone-none}

-- run_command changes nothing that the invariant is about.
abbrev Spawned : Guest → Guest → Type 0
Spawned g g' =
    (g'.tx ≡ g.tx)
    × (g'.to_stdin ≡ g.to_stdin)
    × (g'.to_stdin_length ≡ g.to_stdin_length)
    × (g'.to_stdin_offset ≡ g.to_stdin_offset)

fork_child-Spawned : (s : Spawn) (i o e : ℕ) (g : Guest) → Keeps (Spawned g) (fork_child s i o e g)
unfolding fork_child
fork_child-Spawned s i o e g = elim (Option-cases s.pid) [
  | inl h ↦ rw (h, fork_child) tt
  | inr (pid, h) ↦ rw (h, fork_child) (refl, refl, refl, refl)
]

run_command-Spawned : (s : Spawn) (g : Guest) → Keeps (Spawned g) (run_command s g)
unfolding run_command
run_command-Spawned s g = elim (Bool-cases s.want_tty) [
  | inl tty ↦ rw tty (elim (Option-cases s.master) [
    | inl h ↦ rw (h, run_command) tt
    | inr (m, h) ↦
        rw (h, run_command)
          (elim (Bool-cases s.owned) [
            | inl mine ↦ rw mine (fork_child-Spawned s m m m g)
            | inr other ↦ rw other tt
          ])
  ])
  | inr plain ↦ rw plain (elim (Option-cases s.pipes) [
    | inl h ↦ rw (h, run_command) tt
    | inr ((i, o, e), h) ↦ rw (h, run_command) (fork_child-Spawned s i o e g)
  ])
]

pub process_waiting-Inv :
    (p : Packet) (g : Guest)
    → StdinOk g.to_stdin g.to_stdin_length g.to_stdin_offset
    → g.to_stdin ≡ none
    → Keeps Inv (process_waiting p g)
unfolding process_waiting build_handshake_sync new
process_waiting-Inv p g v e = elim (Bool-cases (p.buffer 0 == handshake_wait)) [
  | inr bad ↦ rw bad tt
  | inl hit ↦
      rw hit (record { rx_ok = omega arith; tx_ok = omega arith; stdin_ok = v; alone = rw e tt })
]

start_running-Inv :
    (p : Packet) (r : Result Guest) (g : Guest)
    → TxOk g.tx
    → StdinOk g.to_stdin g.to_stdin_length g.to_stdin_offset
    → g.to_stdin ≡ none
    → Keeps (Spawned g) r
    → Keeps Inv (start_running p r)
unfolding start_running
start_running-Inv p (ok g') g t v e (a, b, c, d) = record {
  rx_ok = omega arith;
  tx_ok = rw a t;
  stdin_ok = rw (b, c, d) v;
  alone = rw (b, e) tt;
}
start_running-Inv p (err _ g') g t v e s = tt
start_running-Inv p fault g t v e s = s

pub process_syncing-Inv :
    (s : Spawn) (p : Packet) (g : Guest)
    → g.state ≡ syncing
    → TxOk g.tx
    → StdinOk g.to_stdin g.to_stdin_length g.to_stdin_offset
    → g.to_stdin ≡ none
    → Keeps Inv (process_syncing s p g)
unfolding process_syncing
process_syncing-Inv s p g st t v e = elim (Bool-cases (p.buffer 0 == handshake_sync)) [
  | inl hit ↦ rw hit (start_running-Inv p _ g t v e (run_command-Spawned s g))
  | inr miss ↦ rw miss (elim (Bool-cases (p.buffer 0 == handshake_wait)) [
    | inr bad ↦ rw bad tt
    | inl again ↦
        rw again (record { rx_ok = rw st (omega arith); tx_ok = t; stdin_ok = v; alone = rw e tt })
  ])
]

receive_stdin-Inv :
    (p : Packet) (g : Guest)
    → p.buffer_offset ≡ 20
    → 20 ≤ p.buffer_length
    → p.buffer_length ≤ capacity
    → TxOk g.tx
    → StdinOk g.to_stdin g.to_stdin_length g.to_stdin_offset
    → Keeps Inv (receive_stdin p g)
unfolding receive_stdin
receive_stdin-Inv p g at lo hi t v =
    let n = sub64 p.buffer_length p.buffer_offset in
    let fits : inside p.buffer_offset n ≡ true = ground arith in
    elim (Bool-cases (n == 0)) [
      | inl eof ↦
          rw eof (record { rx_ok = tt; tx_ok = t; stdin_ok = v; alone = Alone-none g.to_stdin })
      | inr some_bytes ↦
          rw (some_bytes, fits)
            (record {
              rx_ok = tt;
              tx_ok = t;
              stdin_ok = (
                length-read_at p.buffer p.buffer_offset n,
                ground (arith, some_bytes),
                omega arith,
              );
              alone = tt;
            })
    ]

pub dispatch_host-Inv :
    (p : Packet) (g : Guest)
    → p.buffer_offset ≡ 20
    → 20 ≤ p.buffer_length
    → p.buffer_length ≤ capacity
    → TxOk g.tx
    → StdinOk g.to_stdin g.to_stdin_length g.to_stdin_offset
    → Keeps Inv (dispatch_host p g)
unfolding dispatch_host
dispatch_host-Inv p g at lo hi t v = elim (Bool-cases (p.header.proc == proc_stdin)) [
  | inl hit ↦ rw hit (receive_stdin-Inv p g at lo hi t v)
  | inr miss ↦ rw miss (elim (Bool-cases (p.header.proc == proc_quit)) [
    | inr bad ↦ rw bad tt
    | inl quits ↦
        rw quits (record { rx_ok = tt; tx_ok = t; stdin_ok = v; alone = Alone-none g.to_stdin })
  ])
]

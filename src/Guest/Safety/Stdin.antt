-- ===== src/Guest/Safety/Stdin.antt =====
-- Writing to the application's stdin, and what the system calls hand over.
use Prim.Native.Nat.{min}
use libvirt_sandbox.Base.{
  ℕ, ◌+◌, ◌-◌, ◌≤◌, ◌≡◌, refl, arith, true, Bool-cases, Option-cases, ◌==◌, leb, none, some, [],
  Bytes, length, take, length-take, add64, sub64, ◌⊎◌, inl, inr,
}
use libvirt_sandbox.Packet.{new}
use libvirt_sandbox.Guest.{Guest, ConsoleState, waiting, syncing, running}
use libvirt_sandbox.Guest.Calls.{
  Answer, Taken, got, would_block, interrupted, wrote, read_data, write_data,
}
use libvirt_sandbox.Guest.Stdin.{stdin_wrote, write_stdin}
use libvirt_sandbox.Guest.Invariant.{Inv, Ok, RxOk, StdinOk, Keeps, Alone-empty}

-- A read hands over no more than it is asked for, and a write takes no more.
pub read_data_short :
    (len : ℕ) (a : Answer)
    → (read_data len a ≡ none) ⊎ ((bs : Bytes) × (read_data len a ≡ some bs) × (length bs ≤ len))
unfolding read_data
read_data_short len (got bytes) = inr (take len bytes, refl, omega (arith, length-take len bytes))
read_data_short len would_block = inr ([], refl, omega arith)
read_data_short len Answer.failed = inl refl
read_data_short len (interrupted a) = read_data_short len a

pub write_data_short :
    (len : ℕ) (t : Taken)
    → (write_data len t ≡ none) ⊎ ((n : ℕ) × (write_data len t ≡ some n) × (n ≤ len))
unfolding write_data
write_data_short len (wrote n) = inr (min n len, refl, omega arith)
write_data_short len Taken.would_block = inr (0, refl, omega arith)
write_data_short len Taken.failed = inl refl
write_data_short len (Taken.interrupted t) = write_data_short len t

running_rx : (s : ConsoleState) → RxOk s (some (new true))
unfolding new
running_rx waiting = omega arith
running_rx syncing = omega arith
running_rx running = omega arith

stdin_wrote-Inv :
    (n : ℕ) (bytes : Bytes) (g : Guest)
    → g.to_stdin ≡ some bytes
    → Inv g
    → n ≤ g.to_stdin_length - g.to_stdin_offset
    → Inv (stdin_wrote n bytes g)
unfolding stdin_wrote
stdin_wrote-Inv n bytes g e v le =
    let s : StdinOk (some bytes) g.to_stdin_length g.to_stdin_offset = rw e at v.stdin_ok in
    let at = add64 g.to_stdin_offset n in
    let next : Ok g.state (some (new true)) g.tx none 0 0 = record {
      rx_ok = running_rx g.state;
      tx_ok = v.tx_ok;
      stdin_ok = (refl, refl);
      alone = tt;
    } in
    let rest : Ok g.state g.rx g.tx (some bytes) g.to_stdin_length at
        → Inv (record g { to_stdin_offset = at }) =
      λ o. rw e o in
    elim (Bool-cases (at == g.to_stdin_length)) [
      | inl full ↦ rw full next
      | inr part ↦ rw part (
          rest (record {
            rx_ok = v.rx_ok;
            tx_ok = v.tx_ok;
            stdin_ok = (s.0, ground (arith, s, part), s.2);
            alone = rw e at v.alone;
          }))
    ]

pub write_stdin-Inv : (t : Taken) (g : Guest) → Inv g → Keeps Inv (write_stdin t g)
unfolding write_stdin
write_stdin-Inv t g v = elim (Option-cases g.to_stdin) [
  | inl e ↦ rw (e, write_stdin) v
  | inr (bytes, e) ↦
      let s : StdinOk (some bytes) g.to_stdin_length g.to_stdin_offset = rw e at v.stdin_ok in
      let left = sub64 g.to_stdin_length g.to_stdin_offset in
      let fits : leb (g.to_stdin_offset + left) (length bytes) ≡ true = ground (arith, s) in
      let dropped : Ok g.state g.rx g.tx none 0 0 = record {
        rx_ok = v.rx_ok;
        tx_ok = v.tx_ok;
        stdin_ok = (refl, refl);
        alone = Alone-empty g.rx;
      } in
      elim (write_data_short left t) [
        | inl none_left ↦ rw (e, write_stdin, fits, none_left) dropped
        | inr (n, w, le) ↦
            rw (e, write_stdin, fits, w) (stdin_wrote-Inv n bytes g e v (omega (arith, s, le)))
      ]
]

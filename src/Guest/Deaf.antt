-- ===== src/Guest/Deaf.antt =====
-- A guest that has no packet to receive into and no bytes for the application. Only a write to the
-- application's stdin makes a new `rx`.
use libvirt_sandbox.Base.{ℕ, ◌≡◌, refl, sym, subst, false, Option, none, List, Bytes}
use libvirt_sandbox.Protocol.Xdr.{Xdr, IsXdr}
use libvirt_sandbox.Packet.{Packet}
use libvirt_sandbox.Guest.{Guest, ConsoleState, running}
use libvirt_sandbox.Guest.Calls.{Answer, Taken}
use libvirt_sandbox.Guest.Stdin.{write_stdin}
use libvirt_sandbox.Guest.Host.{Spawn, read_host}
use libvirt_sandbox.Guest.Loop.{Setting, Report, eventloop, host_watch, want_stdin}
use libvirt_sandbox.Guest.Invariant.{Ok, IsStable, Keeps, Keeps-map}
use libvirt_sandbox.Guest.Safety.Runs.{eventloop_stable}

pub record Silent (s : ConsoleState) (rx tx : Option Packet) (bytes : Option Bytes) (n at : ℕ)
    : Type 0 where
  pub inv : Ok s rx tx bytes n at
  pub runs : s ≡ running
  pub no_rx : rx ≡ none
  pub no_bytes : bytes ≡ none

abbrev pub Deaf : Guest → Type 0
Deaf g = Silent g.state g.rx g.tx g.to_stdin g.to_stdin_length g.to_stdin_offset

write_stdin-none :
    (t : Taken) (g : Guest) → g.to_stdin ≡ none → Deaf g → Keeps Deaf (write_stdin t g)
unfolding write_stdin
write_stdin-none t g e d = rw (e, write_stdin) d

read_host-none :
    (x : Xdr) (s : Spawn) (answers : List Answer) (g : Guest)
    → g.rx ≡ none
    → Deaf g
    → Keeps Deaf (read_host x s answers g)
unfolding read_host
read_host-none x s answers g e d = rw (e, read_host) d

Deaf-IsStable : (x : Xdr) (s : Spawn) → IsStable x s Deaf
Deaf-IsStable x s = record {
  beside = λ g g' e d. subst (λ k. Silent k.0 k.1 k.2 k.3 k.4 k.5) (sym e) d;
  valid = λ g d. d.inv.tx_ok;
  sets = λ g t ok_t d. record {
    inv = record {
      rx_ok = d.inv.rx_ok;
      tx_ok = ok_t;
      stdin_ok = d.inv.stdin_ok;
      alone = d.inv.alone;
    };
    runs = d.runs;
    no_rx = d.no_rx;
    no_bytes = d.no_bytes;
  };
  writes = λ t g d. write_stdin-none t g d.no_bytes d;
  reads = λ answers g d. read_host-none x s answers g d.no_rx d;
}

-- The poll set does not ask whether the host's channel is readable.
pub Deaf-host_watch : (g : Guest) → Deaf g → (host_watch g.state g).readable ≡ false
unfolding host_watch want_stdin
Deaf-host_watch g d = rw (d.runs, d.no_rx, d.no_bytes) refl

-- A guest that runs with no packet to receive into and no bytes for the application stays so as
-- long as its loop goes on, and does not poll the host's channel for reading.
pub eventloop-Deaf :
    (x : Xdr) (law : IsXdr x) (s : Setting) (polls : List (List Report)) (g : Guest)
    → Deaf g
    → Keeps (λ g'. Deaf g' × ((host_watch g'.state g').readable ≡ false)) (eventloop x s polls g)
eventloop-Deaf x law s polls g d =
    Keeps-map Deaf _ (eventloop x s polls g)
      (eventloop_stable x law s Deaf (Deaf-IsStable x s.spawn) polls g d)
      (λ g' d'. (d', Deaf-host_watch g' d'))

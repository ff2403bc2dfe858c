-- ===== src/Console/Step.antt =====
-- The console under its main loop: one callback or call after the other.
use libvirt_sandbox.Base.{Bool, List, [], ◌∷◌}
use libvirt_sandbox.Protocol.Xdr.{Xdr}
use libvirt_sandbox.Result.{Result, ok, err, fault}
use libvirt_sandbox.Console.{Console}
use libvirt_sandbox.Console.Terminal.{Terminal, attach, detach}
use libvirt_sandbox.Console.Receive.{handshake_wait_tx_queue}
use libvirt_sandbox.Console.Io.{Arrival, Departure, stream_readwrite}
use libvirt_sandbox.Console.Local.{Input, stdin_read, stdout_write, stderr_write}

-- What happens to the console, with what its surroundings answer.
pub data Event : Type 0 where
  attached : Bool → Bool → Event
  detached : Event
  timer : Event
  stream : Bool → Bool → List Arrival → Departure → Event
  stdin : Input → Event
  stdout stderr : Departure → Event

unfoldable pub step : Xdr → Terminal → Event → Console → Result Console
step x t (attached has_stdin opened) c = attach x t has_stdin opened c
step x t detached c = detach t c
step x t timer c = ok (handshake_wait_tx_queue c)
step x t (stream r w arrivals d) c = stream_readwrite t x r w arrivals d c
step x t (stdin i) c = stdin_read t x i c
step x t (stdout d) c = stdout_write t x d c
step x t (stderr d) c = stderr_write t x d c

-- A run ends at a fault; an error that a call returns leaves the console for the next event.
unfoldable pub run : Xdr → List (Terminal × Event) → Console → Result Console
run x [] c = ok c
run x ((t, e) ∷ events) c = elim (step x t e c) [
  | ok c' ↦ run x events c'
  | err _ c' ↦ run x events c'
  | fault ↦ fault
]

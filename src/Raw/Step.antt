-- ===== src/Raw/Step.antt =====
-- The raw console under its main loop.
use libvirt_sandbox.Base.{Bool, List, [], ◌∷◌}
use libvirt_sandbox.Result.{Result, ok, err, fault}
use libvirt_sandbox.Console.Terminal.{Terminal}
use libvirt_sandbox.Console.Io.{Arrival, Departure}
use libvirt_sandbox.Console.Local.{Input}
use libvirt_sandbox.Raw.{Raw}
use libvirt_sandbox.Raw.Terminal.{attach, detach}
use libvirt_sandbox.Raw.Io.{stream_readwrite, local_read, local_write, console_read, console_write}

-- What happens to the console, with what its surroundings answer.
pub data RawEvent : Type 0 where
  attached : Bool → Bool → Bool → Bool → RawEvent
  detached : RawEvent
  streamed : Bool → Bool → Arrival → Departure → RawEvent
  local_in console_in : Input → RawEvent
  local_out console_out : Departure → RawEvent

unfoldable pub raw_step : Terminal → RawEvent → Raw → Result Raw
raw_step t (attached has_stdin has_stdout direct opened) r =
    attach t has_stdin has_stdout direct opened r
raw_step t detached r = detach t r
raw_step t (streamed readable writable a d) r = stream_readwrite t readable writable a d r
raw_step t (local_in i) r = local_read t i r
raw_step t (console_in i) r = console_read t i r
raw_step t (local_out d) r = local_write t d r
raw_step t (console_out d) r = console_write t d r

-- A run ends at a fault; an error that a call returns leaves the console for the next event.
unfoldable pub raw_run : List (Terminal × RawEvent) → Raw → Result Raw
raw_run [] r = ok r
raw_run ((t, e) ∷ events) r = elim (raw_step t e r) [
  | ok r' ↦ raw_run events r'
  | err _ r' ↦ raw_run events r'
  | fault ↦ fault
]

-- ===== src/Raw/Examples.antt =====
-- The theorems about the raw console at concrete inputs.
use libvirt_sandbox.Base.{◌≡◌, ◌⊎◌, arith, true, false, [], ◌∷◌, ◌++◌, List, Bytes, map}
use libvirt_sandbox.Result.{ok}
use libvirt_sandbox.Console.Terminal.{Terminal}
use libvirt_sandbox.Console.Io.{arrived, taken}
use libvirt_sandbox.Console.Local.{got}
use libvirt_sandbox.Raw.{Raw, blank}
use libvirt_sandbox.Raw.Io.{stream_readwrite}
use libvirt_sandbox.Raw.Step.{RawEvent, attached, local_in, streamed, raw_run}
use libvirt_sandbox.Raw.Bounded.{Bounded}
use libvirt_sandbox.Raw.Bounds.{raw_run-Bounded}
use libvirt_sandbox.Raw.Order.{local_total, console_total, stream_readwrite_moves}
use libvirt_sandbox.Raw.Direct.{DirectEvent, local_reads, console_writes, event, stdin_never_sent}

abbrev tty : Terminal
tty = record { is_tty = true; query_succeeds = true; update_succeeds = true }

abbrev events : List (Terminal × RawEvent)
events =
    (tty, attached true true false true)
    ∷ (tty, local_in (got (104 ∷ 105 ∷ [])))
    ∷ (tty, streamed true true (arrived (111 ∷ 107 ∷ [])) (taken 1))
    ∷ []

blank-Bounded : Bounded (blank 29)
blank-Bounded = ((omega arith, omega arith), (omega arith, omega arith))

raw_run-Bounded_example : (r : Raw) × (raw_run events (blank 29) ≡ ok r) × Bounded r
raw_run-Bounded_example = raw_run-Bounded events (blank 29) blank-Bounded

-- Two bytes of stdin are queued, and the console is open in one way or the other.
abbrev typed : Raw
typed = record (blank 29) {
  attached = true;
  stream = true;
  to_local_length = 4096;
  to_console = 104 ∷ 105 ∷ [];
  to_console_length = 4096;
}

typed-Bounded : Bounded typed
typed-Bounded = ((omega arith, omega arith), (omega arith, omega arith))

stream_readwrite_moves_example :
    (r : Raw) × (stream_readwrite tty true true (arrived (111 ∷ 107 ∷ [])) (taken 1) typed ≡ ok r)
    × (local_total r ≡ 111 ∷ 107 ∷ [])
    × (console_total r ≡ 104 ∷ 105 ∷ [])
    × (r.console_written ≡ 104 ∷ [])
stream_readwrite_moves_example =
    stream_readwrite_moves tty (111 ∷ 107 ∷ []) 1 typed typed-Bounded (omega arith) (omega arith)

abbrev over_tty : Raw
over_tty = record typed { stream = false; direct = true }

abbrev typing : List (Terminal × DirectEvent)
typing = (tty, console_writes (taken 10)) ∷ (tty, local_reads (got (33 ∷ []))) ∷ []

stdin_never_sent_example :
    (r : Raw) × (raw_run (map event typing) over_tty ≡ ok r)
    × (((more : Bytes) × (r.to_console ≡ (104 ∷ 105 ∷ []) ++ more)) ⊎ (r.attached ≡ false))
stdin_never_sent_example = stdin_never_sent typing over_tty typed-Bounded

-- ===== src/Raw/Io.antt =====
-- The callbacks of the raw console: do_console_raw_stream_readwrite, local_read, local_write,
-- console_read and console_write.
use Prim.Native.Nat.{min}
use libvirt_sandbox.Base.{
  ℕ, ◌+◌, ◌==◌, leb, if◌then◌else◌, Bool, true, false, [], ◌∷◌, ◌++◌, Bytes, length, take, drop,
  sub64,
}
use libvirt_sandbox.Result.{Result, ok, fault}
use libvirt_sandbox.Console.{no_watch}
use libvirt_sandbox.Console.Terminal.{Terminal}
use libvirt_sandbox.Console.Io.{Arrival, arrived, would_block, Departure, taken}
use libvirt_sandbox.Console.Local.{Input, got, read_failed, control}
use libvirt_sandbox.Raw.{Raw}
use libvirt_sandbox.Raw.Events.{update_events}
use libvirt_sandbox.Raw.Terminal.{close}

-- Where stream_readwrite goes on: to writing, to `done:` or to `cleanup:`.
pub data Next : Type 0 where
  writing done cleanup : Raw → Next
  broken : Next

-- The memory of `size` bytes behind the bytes that are queued, for a read.
abbrev pub behind : {A : Type 0} → Bytes → ℕ → A → (ℕ → A) → A
behind bs size bad go =
    let free = sub64 size (length bs) in if leb (length bs + free) size then go free else bad

unfoldable pub stream_bytes : Terminal → Bytes → Raw → Next
stream_bytes t [] r = done (close t false r)
stream_bytes t bytes r = writing (record r { to_local = r.to_local ++ bytes })

unfoldable pub stream_read : Terminal → Arrival → Raw → Next
unfolding stream_bytes
stream_read t would_block r = done r
stream_read t Arrival.failed r = cleanup (close t true r)
stream_read t (arrived bytes) r =
    behind r.to_local r.to_local_length broken λ free. stream_bytes t (take free bytes) r

unfoldable pub stream_write : Terminal → Departure → Raw → Next
stream_write t Departure.failed r = cleanup (close t true r)
stream_write t (taken n) r =
    let k = min n (length r.to_console) in
    done (record r {
      console_written = r.console_written ++ take k r.to_console;
      to_console = drop k r.to_console;
    })

abbrev pub then_write : Terminal → Bool → Departure → Next → Next
then_write t writable d (writing r) = if writable then stream_write t d r else done r
then_write t writable d next = next

abbrev pub finish : Next → Result Raw
finish (writing r) = ok (update_events (record r { console_watch = no_watch }))
finish (done r) = ok (update_events (record r { console_watch = no_watch }))
finish (cleanup r) = ok r
finish broken = fault

unfoldable pub stream_readwrite : Terminal → Bool → Bool → Arrival → Departure → Raw → Result Raw
unfolding stream_read stream_write
stream_readwrite t readable writable a d r =
    finish (then_write t writable d (if readable then stream_read t a r else writing r))

-- The first of the bytes that were read is the escape character.
abbrev pub starts_escape : ℕ → Bytes → Bool
starts_escape e [] = false
starts_escape e (b ∷ bytes) = b == control e

abbrev pub ends : Bytes → Bool → Bool
ends [] b = true
ends (x ∷ xs) b = b

unfoldable pub local_read : Terminal → Input → Raw → Result Raw
local_read t read_failed r = ok (close t true r)
local_read t (got bytes) r = behind r.to_console r.to_console_length fault λ free.
    let new = take free bytes in
    if starts_escape r.escape new
    then ok (close t false r)
    else ok (
        update_events (record r {
          local_eof = ends new r.local_eof;
          to_console = r.to_console ++ new;
          stdin_source = false;
        }))

unfoldable pub local_write : Terminal → Departure → Raw → Result Raw
local_write t Departure.failed r = ok (close t true r)
local_write t (taken n) r =
    let k = min n (length r.to_local) in
    ok (
      update_events (record r {
        local_written = r.local_written ++ take k r.to_local;
        to_local = drop k r.to_local;
        stdout_source = false;
      }))

unfoldable pub console_read : Terminal → Input → Raw → Result Raw
console_read t read_failed r = ok (close t true r)
console_read t (got bytes) r = behind r.to_local r.to_local_length fault λ free.
    let new = take free bytes in
    if ends new false
    then ok (close t false r)
    else if starts_escape r.escape new
    then ok (close t false r)
    else ok (update_events (record r { to_local = r.to_local ++ new; input_source = false }))

-- The call writes from `consoleToLocal`.
unfoldable pub console_write : Terminal → Departure → Raw → Result Raw
console_write t Departure.failed r = ok (close t true r)
console_write t (taken n) r =
    let k = min n (length r.to_local) in
    ok (
      update_events (record r {
        console_written = r.console_written ++ take k r.to_local;
        to_local = drop k r.to_local;
        output_source = false;
      }))

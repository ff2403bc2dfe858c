-- ===== src/Raw/Bounds.antt =====
-- The bounds of the raw console's queues over its callbacks and over a run.
use libvirt_sandbox.Base.{
  ℕ, ◌+◌, ◌≡◌, refl, arith, true, false, Bool, List, [], ◌∷◌, ◌++◌, Bytes, length, take, drop,
  length-take, length-drop, length-append, leb, sub64, inl, inr,
}
use libvirt_sandbox.Result.{ok, Leaves, Leaves-cases}
use libvirt_sandbox.Console.Terminal.{Terminal}
use libvirt_sandbox.Console.Io.{Arrival, arrived, would_block, Departure, taken}
use libvirt_sandbox.Console.Local.{Input, got, read_failed}
use libvirt_sandbox.Raw.{Raw}
use libvirt_sandbox.Raw.Terminal.{close}
use libvirt_sandbox.Raw.Io.{
  Next, writing, done, cleanup, broken, stream_bytes, stream_read, stream_write, stream_readwrite,
  local_read, local_write, console_read, console_write, starts_escape, ends, then_write, finish,
}
use libvirt_sandbox.Raw.Step.{
  RawEvent, attached, detached, streamed, local_in, local_out, console_in, console_out, raw_step,
  raw_run,
}
use libvirt_sandbox.Raw.Bounded.{
  Fits, Bounded, update_events-Bounded, if-Bounded, close-Bounded, detach-Bounded, attach-Bounded,
}

abbrev NextBounded : Next → Type 0
NextBounded (writing r) = Bounded r
NextBounded (done r) = Bounded r
NextBounded (cleanup r) = Bounded r
NextBounded broken = ⊥

pub room_behind :
    (bs : Bytes) (size : ℕ) → Fits bs size → leb (length bs + sub64 size (length bs)) size ≡ true
room_behind bs size v = ground (arith, v)

append-Fits :
    (bs new : Bytes) (size : ℕ) → Fits bs size → Fits (bs ++ take (sub64 size (length bs)) new) size
append-Fits bs new size v =
    let n = length-append bs (take (sub64 size (length bs)) new) in
    let m = length-take (sub64 size (length bs)) new in (omega (arith, n, m, v), v.1)

drop-Fits : (k : ℕ) (bs : Bytes) (size : ℕ) → Fits bs size → Fits (drop k bs) size
drop-Fits k bs size v = (omega (arith, length-drop k bs, v), v.1)

stream_bytes-Bounded :
    (t : Terminal) (bytes : Bytes) (r : Raw)
    → Bounded r
    → Fits (r.to_local ++ bytes) r.to_local_length
    → NextBounded (stream_bytes t bytes r)
unfolding stream_bytes
stream_bytes-Bounded t [] r v f = close-Bounded t false r v
stream_bytes-Bounded t (b ∷ bytes) r v f = (f, v.1)

stream_read-Bounded :
    (t : Terminal) (a : Arrival) (r : Raw) → Bounded r → NextBounded (stream_read t a r)
unfolding stream_read
stream_read-Bounded t would_block r v = v
stream_read-Bounded t Arrival.failed r v = close-Bounded t true r v
stream_read-Bounded t (arrived bytes) r v =
    rw (room_behind r.to_local r.to_local_length v.0)
      (stream_bytes-Bounded t _ r v (append-Fits r.to_local bytes r.to_local_length v.0))

stream_write-Bounded :
    (t : Terminal) (d : Departure) (r : Raw) → Bounded r → NextBounded (stream_write t d r)
unfolding stream_write
stream_write-Bounded t Departure.failed r v = close-Bounded t true r v
stream_write-Bounded t (taken n) r v = (v.0, drop-Fits _ r.to_console r.to_console_length v.1)

then_write-Bounded :
    (t : Terminal) (w : Bool) (d : Departure) (n : Next)
    → NextBounded n
    → NextBounded (then_write t w d n)
then_write-Bounded t true d (writing r) v = stream_write-Bounded t d r v
then_write-Bounded t false d (writing r) v = v
then_write-Bounded t w d (done r) v = v
then_write-Bounded t w d (cleanup r) v = v
then_write-Bounded t w d broken v = v

finish-Bounded : (n : Next) → NextBounded n → Leaves Bounded (finish n)
finish-Bounded (writing r) v = update_events-Bounded _ v
finish-Bounded (done r) v = update_events-Bounded _ v
finish-Bounded (cleanup r) v = v
finish-Bounded broken v = v

stream_readwrite-Bounded :
    (t : Terminal) (i w : Bool) (a : Arrival) (d : Departure) (r : Raw)
    → Bounded r
    → Leaves Bounded (stream_readwrite t i w a d r)
unfolding stream_readwrite
stream_readwrite-Bounded t true w a d r v =
    finish-Bounded _ (then_write-Bounded t w d _ (stream_read-Bounded t a r v))
stream_readwrite-Bounded t false w a d r v =
    finish-Bounded _ (then_write-Bounded t w d (writing r) v)

local_read-Bounded :
    (t : Terminal) (i : Input) (r : Raw) → Bounded r → Leaves Bounded (local_read t i r)
unfolding local_read
local_read-Bounded t read_failed r v = close-Bounded t true r v
local_read-Bounded t (got bytes) r v =
    let new = take (sub64 r.to_console_length (length r.to_console)) bytes in
    rw (room_behind r.to_console r.to_console_length v.1) (
      if-Bounded (starts_escape r.escape new) (ok (close t false r)) _ (close-Bounded t false r v)
        (update_events-Bounded _ (v.0, append-Fits r.to_console bytes r.to_console_length v.1)))

local_write-Bounded :
    (t : Terminal) (d : Departure) (r : Raw) → Bounded r → Leaves Bounded (local_write t d r)
unfolding local_write
local_write-Bounded t Departure.failed r v = close-Bounded t true r v
local_write-Bounded t (taken n) r v =
    update_events-Bounded _ (drop-Fits _ r.to_local r.to_local_length v.0, v.1)

console_read-Bounded :
    (t : Terminal) (i : Input) (r : Raw) → Bounded r → Leaves Bounded (console_read t i r)
unfolding console_read
console_read-Bounded t read_failed r v = close-Bounded t true r v
console_read-Bounded t (got bytes) r v =
    let new = take (sub64 r.to_local_length (length r.to_local)) bytes in
    let closed = close-Bounded t false r v in
    rw (room_behind r.to_local r.to_local_length v.0) (
      if-Bounded (ends new false) (ok (close t false r)) _ closed (
        if-Bounded (starts_escape r.escape new) (ok (close t false r)) _ closed
          (update_events-Bounded _ (append-Fits r.to_local bytes r.to_local_length v.0, v.1))))

console_write-Bounded :
    (t : Terminal) (d : Departure) (r : Raw) → Bounded r → Leaves Bounded (console_write t d r)
unfolding console_write
console_write-Bounded t Departure.failed r v = close-Bounded t true r v
console_write-Bounded t (taken n) r v =
    update_events-Bounded _ (drop-Fits _ r.to_local r.to_local_length v.0, v.1)

pub raw_step-Bounded :
    (t : Terminal) (e : RawEvent) (r : Raw) → Bounded r → Leaves Bounded (raw_step t e r)
unfolding raw_step
raw_step-Bounded t (attached i o d opened) r v = attach-Bounded t i o d opened r v
raw_step-Bounded t detached r v = detach-Bounded t r v
raw_step-Bounded t (streamed i w a d) r v = stream_readwrite-Bounded t i w a d r v
raw_step-Bounded t (local_in i) r v = local_read-Bounded t i r v
raw_step-Bounded t (console_in i) r v = console_read-Bounded t i r v
raw_step-Bounded t (local_out d) r v = local_write-Bounded t d r v
raw_step-Bounded t (console_out d) r v = console_write-Bounded t d r v

-- From a bounded state on, a run of the raw console over any events never reaches outside the memory
-- of its two queues, each of which has 4096 bytes at most.
pub raw_run-Bounded :
    (events : List (Terminal × RawEvent)) (r : Raw)
    → Bounded r
    → (r' : Raw) × (raw_run events r ≡ ok r') × Bounded r'
unfolding raw_run
raw_run-Bounded [] r v = (r, refl, v)
raw_run-Bounded ((t, e) ∷ events) r v =
    elim (Leaves-cases (raw_step t e r) (raw_step-Bounded t e r v)) [
      | inl (r', s, v') ↦ rw (s, raw_run) (raw_run-Bounded events r' v')
      | inr (_, r', s, v') ↦ rw (s, raw_run) (raw_run-Bounded events r' v')
    ]

-- ===== src/Raw/Order.antt =====
-- The bytes that go through do_console_raw_stream_readwrite.
use Prim.Native.Nat.{min}
use mathlib.Core.List.{append_assoc}
use libvirt_sandbox.Base.{
  ℕ, ◌+◌, ◌≤◌, ◌<◌, ◌≡◌, refl, sym, ap, ◌∙◌, arith, true, [], ◌∷◌, ◌++◌, Bytes, length, take, drop,
  take_all, take-append-drop, sub64,
}
use libvirt_sandbox.Result.{ok}
use libvirt_sandbox.Console.{no_watch}
use libvirt_sandbox.Console.Terminal.{Terminal}
use libvirt_sandbox.Console.Io.{arrived, taken}
use libvirt_sandbox.Raw.{Raw}
use libvirt_sandbox.Raw.Events.{update_events}
use libvirt_sandbox.Raw.Io.{stream_read, stream_bytes, stream_write, stream_readwrite, writing}
use libvirt_sandbox.Raw.Bounded.{Bounded, update_events-queues}
use libvirt_sandbox.Raw.Bounds.{room_behind}

-- What has been handed over in a direction and what is to be, as one sequence.
abbrev pub local_total : Raw → Bytes
local_total r = r.local_written ++ r.to_local

abbrev pub console_total : Raw → Bytes
console_total r = r.console_written ++ r.to_console

split : (w q : Bytes) (k : ℕ) → (w ++ take k q) ++ drop k q ≡ w ++ q
split w q k = append_assoc w (take k q) (drop k q) ∙ ap (◌++◌ w) (take-append-drop k q)

local_total_same : (r : Raw) → local_total (update_events r) ≡ local_total r
local_total_same r = ap (λ k. k.4 ++ k.0) (update_events-queues r)

console_total_same : (r : Raw) → console_total (update_events r) ≡ console_total r
console_total_same r = ap (λ k. k.5 ++ k.2) (update_events-queues r)

stream_read-arrived :
    (t : Terminal) (bytes : Bytes) (r : Raw)
    → Bounded r
    → 0 < length bytes
    → length r.to_local + length bytes ≤ r.to_local_length
    → stream_read t (arrived bytes) r ≡ writing (record r { to_local = r.to_local ++ bytes })
unfolding stream_read stream_bytes
stream_read-arrived t [] r v some_in fits = absurd (omega arith)
stream_read-arrived t (b ∷ bytes) r v some_in fits =
    let free = sub64 r.to_local_length (length r.to_local) in
    let all : take free (b ∷ bytes) ≡ b ∷ bytes = take_all free (b ∷ bytes) (omega (arith, v)) in
    rw (room_behind r.to_local r.to_local_length v.0, all) refl

-- When the stream is readable with bytes that fit the queue, and writable, the bytes go behind what
-- the local output is to be given, and what goes to the stream, of the local stdin, is taken from the
-- front of its queue: both sequences are otherwise unchanged.
pub stream_readwrite_moves :
    (t : Terminal) (bytes : Bytes) (n : ℕ) (r : Raw)
    → Bounded r
    → 0 < length bytes
    → length r.to_local + length bytes ≤ r.to_local_length
    → (r' : Raw) × (stream_readwrite t true true (arrived bytes) (taken n) r ≡ ok r')
      × (local_total r' ≡ local_total r ++ bytes)
      × (console_total r' ≡ console_total r)
      × (r'.console_written ≡ r.console_written ++ take (min n (length r.to_console)) r.to_console)
unfolding stream_readwrite stream_write
stream_readwrite_moves t bytes n r v some_in fits =
    let k = min n (length r.to_console) in
    let r1 = record r {
      to_local = r.to_local ++ bytes;
      console_written = r.console_written ++ take k r.to_console;
      to_console = drop k r.to_console;
      console_watch = no_watch;
    } in
    (
      update_events r1,
      rw (stream_read-arrived t bytes r v some_in fits) refl,
      local_total_same r1 ∙ sym (append_assoc r.local_written r.to_local bytes),
      console_total_same r1 ∙ split r.console_written r.to_console k,
      ap (λ q. q.5) (update_events-queues r1),
    )

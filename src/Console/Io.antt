-- ===== src/Console/Io.antt =====
-- The callbacks of the event sources: the stream of the domain and the three local files.
-- What a read or a write of them returns is an argument; a read hands over no more than it is asked
-- for, and a write takes no more than it is given.
use Prim.Native.Nat.{min}
use libvirt_sandbox.Base.{
  ℕ, ◌==◌, if◌then◌else◌, Bool, true, false, none, some, List, [], ◌∷◌, ◌++◌, Bytes, length, take,
  sub64, add64,
}
use libvirt_sandbox.Buffer.{store, read_at}
use libvirt_sandbox.Protocol.Xdr.{Xdr}
use libvirt_sandbox.Result.{Result, ok, err, fault}
use libvirt_sandbox.Packet.{Packet, inside}
use libvirt_sandbox.Console.{Console, no_watch}
use libvirt_sandbox.Console.Events.{update_events}
use libvirt_sandbox.Console.Terminal.{Terminal, close}
use libvirt_sandbox.Console.Receive.{process_packet_rx, process_packet_tx}

-- What gvir_stream_receive finds: bytes (none at the end of the stream), nothing yet, or an error.
pub data Arrival : Type 0 where
  arrived : Bytes → Arrival
  would_block failed : Arrival

-- How many bytes a write takes at most, or that it fails.
pub data Departure : Type 0 where
  taken : ℕ → Departure
  failed : Departure

-- Where a callback goes on: to the next statement, to `done:` or to `cleanup:`.
pub data Flow : Type 0 where
  next done cleanup : Console → Flow
  broken : Flow

-- A packet has been received or sent in full and `r` is what processing it returned.
abbrev pub processed : Terminal → Result Console → (Console → Flow) → Flow
processed t (ok c) go = go c
processed t (err e c) go = cleanup (close t true c)
processed t fault go = broken

-- The bytes that gvir_stream_receive writes to the packet that is being received.
unfoldable pub receive_bytes : Terminal → Xdr → Bytes → Packet → Console → (Console → Flow) → Flow
receive_bytes t x [] p c go = done c
receive_bytes t x bytes p c go =
    let p' = record p {
      buffer = store p.buffer p.buffer_offset bytes;
      buffer_offset = add64 p.buffer_offset (length bytes);
    } in
    if p'.buffer_offset == p'.buffer_length
    then processed t (process_packet_rx x p' (record c { rx = none })) go
    else go (record c { rx = some p' })

unfoldable pub received : Terminal → Xdr → Arrival → Packet → Console → (Console → Flow) → Flow
unfolding receive_bytes
received t x would_block p c go = next c
received t x failed p c go = cleanup (close t true c)
received t x (arrived bytes) p c go =
    let free = sub64 p.buffer_length p.buffer_offset in
    if inside p.buffer_offset free then receive_bytes t x (take free bytes) p c go else broken

-- `while (priv->rx)`; behind the arrivals that are listed the stream would block.
unfoldable pub receive_loop : Terminal → Xdr → List Arrival → Console → Flow
receive_loop t x [] c = next c
receive_loop t x (a ∷ arrivals) c = elim c.rx [
  | none ↦ next c
  | some p ↦ received t x a p c (receive_loop t x arrivals)
]

unfoldable pub sent : Terminal → Xdr → Departure → Packet → Console → Flow
sent t x failed p c = cleanup (close t true c)
sent t x (taken n) p c =
    let left = sub64 p.buffer_length p.buffer_offset in
    let count = min n left in
    let p' = record p { buffer_offset = add64 p.buffer_offset count } in
    let c' = record c { stream_sent = c.stream_sent ++ read_at p.buffer p.buffer_offset count } in
    if inside p.buffer_offset left
    then if p'.buffer_offset == p'.buffer_length
      then processed t (process_packet_tx t x p' (record c' { tx = none })) done
      else done (record c' { tx = some p' })
    else broken

unfoldable pub send_packet : Terminal → Xdr → Bool → Departure → Console → Flow
unfolding sent
send_packet t x false d c = done c
send_packet t x true d c = elim c.tx [ none ↦ done c | some p ↦ sent t x d p c ]

-- The two labels at the end of do_console_rpc_stream_readwrite.
unfoldable pub finish_stream : Flow → Result Console
finish_stream (next c) = ok (update_events (record c { console_watch = no_watch }))
finish_stream (done c) = ok (update_events (record c { console_watch = no_watch }))
finish_stream (cleanup c) = ok c
finish_stream broken = fault

unfoldable pub then_send : Terminal → Xdr → Bool → Departure → Flow → Flow
then_send t x writable d (next c) = send_packet t x writable d c
then_send t x writable d flow = flow

unfoldable pub stream_readwrite :
    Terminal → Xdr → Bool → Bool → List Arrival → Departure → Console → Result Console
unfolding finish_stream then_send send_packet
stream_readwrite t x readable writable arrivals d c =
    finish_stream
      (then_send t x writable d (if readable then receive_loop t x arrivals c else next c))

-- ===== src/Packet.antt =====
-- libvirt-sandbox/libvirt-sandbox-rpcpacket.c and .h: a packet is a buffer of fixed size with the
-- part of it in use and the position reached, and the header as a struct.
-- The functions take the XDR routines, which are not source of the repository, as `x`.
pub mod Safety
pub mod Encode
pub mod RoundTrip
mod Examples
use libvirt_sandbox.Base.{
  ℕ, ◌+◌, ◌-◌, ◌%◌, Bool, none, some, Bytes, length, ltb, leb, if◌then◌else◌, u32_mod, sub64, add64,
}
use libvirt_sandbox.Buffer.{Buffer, store, read_at}
use libvirt_sandbox.Protocol.{packet_max, len_max, Header}
use libvirt_sandbox.Protocol.Xdr.{Filter, Xdr}
use libvirt_sandbox.Result.{
  Result, ok, err, fault, decode_length_failed, decode_header_failed, decode_payload_failed,
  encode_length_failed, encode_header_failed, reencode_length_failed, encode_payload_failed,
  too_small, too_large, raw_too_long,
}

-- sizeof(msg->buffer)
abbrev pub capacity : ℕ
capacity = packet_max + len_max

pub record Packet : Type 0 where
  pub buffer : Buffer
  pub buffer_length : ℕ
  pub buffer_offset : ℕ
  pub header : Header

abbrev pub no_header : Header
no_header = record { proc = 0; kind = 0; status = 0; serial = 0 }

-- `g_new0` clears the memory.
unfoldable pub new : Bool → Packet
new rxready = record {
  buffer = λ _. 0;
  buffer_length = if rxready then len_max else 0;
  buffer_offset = 0;
  header = no_header;
}

-- Whether `n` bytes from `at` on lie inside the buffer.
abbrev pub inside : ℕ → ℕ → Bool
inside at n = leb (at + n) capacity

-- The size that `xdrmem_create` takes is an unsigned int.
abbrev pub room : Packet → ℕ
room msg = sub64 msg.buffer_length msg.buffer_offset % u32_mod

-- Writing bytes at a position of the buffer.
abbrev put : ℕ → Bytes → Packet → Packet
put at bs msg = record msg { buffer = store msg.buffer at bs }

check_length : Packet → ℕ → Result Packet
check_length msg len =
    if ltb len len_max
    then err (too_small len) msg
    else if ltb packet_max (len - len_max)
    then err (too_large (len - len_max)) msg
    else ok (record msg { buffer_length = add64 msg.buffer_length (len - len_max) })

unfoldable pub decode_length : Xdr → Packet → Result Packet
unfolding check_length
decode_length x msg =
    let size = msg.buffer_length % u32_mod in
    if inside 0 size
    then elim (x.u_int.decode (read_at msg.buffer 0 size)) [
      | none ↦ err decode_length_failed msg
      | some (len, pos) ↦ check_length (record msg { buffer_offset = pos }) len
    ]
    else fault

-- Decoding a filter from the position reached; what it yields goes to `found`.
decode_here {ℓ} :
    {A : Type 0} {B : Type ℓ} → Filter A → Packet → Result B → (A → Packet → Result B) → Result B
decode_here f msg failed found =
    if inside msg.buffer_offset (room msg)
    then elim (f.decode (read_at msg.buffer msg.buffer_offset (room msg))) [
      | none ↦ failed
      | some (a, pos) ↦ found a (record msg { buffer_offset = add64 msg.buffer_offset pos })
    ]
    else fault

unfoldable pub decode_header : Xdr → Packet → Result Packet
unfolding decode_here
decode_header x msg =
    let msg' = record msg { buffer_offset = len_max } in
    decode_here x.header msg' (err decode_header_failed msg') (λ h m. ok (record m { header = h }))

-- Encoding a filter at a position, with `space` bytes of the stream left; the count of the bytes
-- written goes to `written`.
encode_at :
    {A : Type 0}
    → Filter A
    → ℕ
    → ℕ
    → A
    → Packet
    → Result Packet
    → (ℕ → Packet → Result Packet)
    → Result Packet
encode_at f at space a msg failed written =
    if inside at space
    then elim (f.encode space a) [ none ↦ failed | some bs ↦ written (length bs) (put at bs msg) ]
    else fault

-- The stream over the whole buffer, its position set back to 0.
reencode_length : Xdr → ℕ → Packet → Result Packet
unfolding encode_at
reencode_length x len msg =
    encode_at x.u_int 0 capacity len msg (err reencode_length_failed msg)
      λ _ m. ok (record m { buffer_offset = add64 m.buffer_offset len })

unfoldable pub encode_header : Xdr → Packet → Result Packet
unfolding encode_at reencode_length
encode_header x msg =
    let msg' = record msg { buffer_length = capacity; buffer_offset = 0 } in
    encode_at x.u_int 0 capacity 0 msg' (err encode_length_failed msg') λ p m.
      encode_at x.header p (capacity - p) m.header m (err encode_header_failed m)
        λ n m'. reencode_length x ((p + n) % u32_mod) m'

-- "Re-encode the length word", and make the packet ready to be sent.
finish_length : Xdr → Packet → Result Packet
unfolding encode_at
finish_length x msg =
    encode_at x.u_int 0 len_max (msg.buffer_offset % u32_mod) msg (err encode_length_failed msg)
      λ _ m. ok (record m { buffer_length = m.buffer_offset; buffer_offset = 0 })

unfoldable pub encode_payload_msg : Xdr → {A : Type 0} → Filter A → A → Packet → Result Packet
unfolding finish_length
encode_payload_msg x f a msg =
    encode_at f msg.buffer_offset (room msg) a msg (err encode_payload_failed msg)
      λ n m. finish_length x (record m { buffer_offset = add64 m.buffer_offset n })

unfoldable pub decode_payload_msg : {A : Type 0} → Filter A → A → Packet → Result (Packet × A)
unfolding decode_here
decode_payload_msg f a msg =
    decode_here f msg (err decode_payload_failed (msg, a)) (λ b m. ok (m, b))

unfoldable pub encode_payload_raw : Xdr → Bytes → Packet → Result Packet
unfolding finish_length
encode_payload_raw x bytes msg =
    let available = sub64 msg.buffer_length msg.buffer_offset in
    if ltb available (length bytes)
    then err (raw_too_long (length bytes) available) msg
    else if inside msg.buffer_offset (length bytes)
    then finish_length x (record (put msg.buffer_offset bytes msg) {
      buffer_offset = add64 msg.buffer_offset (length bytes);
    })
    else fault

unfoldable pub encode_payload_empty : Xdr → Packet → Result Packet
unfolding finish_length
encode_payload_empty x msg = finish_length x msg

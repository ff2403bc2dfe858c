-- ===== src/Packet/Encode.antt =====
-- What the encoding functions leave in the buffer: a length word, a header and a payload.
use libvirt_sandbox.Base.{
  ℕ, ◌+◌, ◌-◌, ◌≤◌, ◌<◌, ◌≡◌, refl, ◌∙◌, subst, sym, ap, arith, some, Bytes, length, [],
}
use libvirt_sandbox.Buffer.{
  Buffer, store, read_at, read_at-store_self, read_at-store_before, read_at-store_after,
}
use libvirt_sandbox.Protocol.{payload_max, Header}
use libvirt_sandbox.Protocol.Xdr.{Xdr, IsXdr, Filter, IsFixedSize}
use libvirt_sandbox.Result.{ok, err, raw_too_long}
use libvirt_sandbox.Packet.{
  Packet, capacity, encode_header, finish_length, encode_payload_raw, encode_payload_msg,
  encode_payload_empty,
}

module _ (x : Xdr) (law : IsXdr x) where
  -- The packet after `encode_header`: ready for a payload behind the 20 bytes of word and header.
  pub record IsHeaded (h : Header) (msg : Packet) : Type 0 where
    pub length_eq : msg.buffer_length ≡ capacity
    pub offset_eq : msg.buffer_offset ≡ 20
    pub header_eq : msg.header ≡ h
    pub header_bytes : Bytes
    pub header_encoded : x.header.encode (capacity - 4) h ≡ some header_bytes
    pub header_there : read_at msg.buffer 4 16 ≡ header_bytes

  pub encode_header-IsHeaded :
      (msg : Packet) → (m : Packet) × (encode_header x msg ≡ ok m) × IsHeaded msg.header m
  unfolding encode_header
  encode_header-IsHeaded msg =
      let (b1, e1, n1) = law.u_int_size.encodes capacity 0 (omega arith) in
      let (b2, e2, n2) = law.header_size.encodes (capacity - 4) msg.header (omega arith) in
      let (b3, e3, n3) = law.u_int_size.encodes capacity 20 (omega arith) in
      let s1 = store msg.buffer 0 b1 in
      let s2 = store s1 4 b2 in
      let s3 = store s2 0 b3 in
      let behind : length b3 ≤ 4 = omega (arith, n3) in
      let kept : read_at s3 4 16 ≡ read_at s2 4 16 =
        read_at-store_after s2 0 b3 4 16 (omega arith) in
      let there : read_at s2 4 16 ≡ b2 =
        subst (λ n. read_at s2 4 n ≡ b2) n2 (read_at-store_self s1 4 b2) in
      (
        record msg { buffer = s3; buffer_length = capacity; buffer_offset = 20 },
        ground (arith, e1, n1, e2, n2, e3, n3),
        record {
          length_eq = refl;
          offset_eq = refl;
          header_eq = refl;
          header_bytes = b2;
          header_encoded = e2;
          header_there = kept ∙ there;
        },
      )

  -- A packet that is ready to be sent: it holds its own length, the header and the payload.
  pub record IsFrame (h : Header) (payload : Bytes) (msg : Packet) : Type 0 where
    pub length_eq : msg.buffer_length ≡ 20 + length payload
    pub length_le : msg.buffer_length ≤ capacity
    pub offset_eq : msg.buffer_offset ≡ 0
    pub header_eq : msg.header ≡ h
    pub length_encoded : x.u_int.encode 4 msg.buffer_length ≡ some (read_at msg.buffer 0 4)
    pub header_bytes : Bytes
    pub header_encoded : x.header.encode (capacity - 4) h ≡ some header_bytes
    pub header_there : read_at msg.buffer 4 16 ≡ header_bytes
    pub payload_there : read_at msg.buffer 20 (length payload) ≡ payload

  -- A packet with the payload in place, whose length word is not yet right.
  finish_length-IsFrame :
      {h : Header} {m : Packet} (headed : IsHeaded h m) (payload : Bytes) (b : Buffer)
      → 20 + length payload ≤ capacity
      → read_at b 4 16 ≡ read_at m.buffer 4 16
      → read_at b 20 (length payload) ≡ payload
      → let full = record m { buffer = b; buffer_offset = 20 + length payload } in
        (f : Packet) × (finish_length x full ≡ ok f) × IsFrame h payload f
  unfolding finish_length
  finish_length-IsFrame {m} headed payload b fits same there =
      let size = 20 + length payload in
      let (w, e, n) = law.u_int_size.encodes 4 size (omega arith) in
      let s = store b 0 w in
      (
        record m { buffer = s; buffer_length = size; buffer_offset = 0 },
        ground (arith, e, n),
        record {
          length_eq = refl;
          length_le = fits;
          offset_eq = refl;
          header_eq = headed.header_eq;
          length_encoded =
              e ∙ ap some (sym (subst (λ k. read_at s 0 k ≡ w) n (read_at-store_self b 0 w)));
          header_bytes = headed.header_bytes;
          header_encoded = headed.header_encoded;
          header_there =
              read_at-store_after b 0 w 4 16 (omega (arith, n)) ∙ same ∙ headed.header_there;
          payload_there = read_at-store_after b 0 w 20 (length payload) (omega (arith, n)) ∙ there;
        },
      )

  -- Data that fits behind the header is framed.
  pub encode_payload_raw-IsFrame :
      {h : Header} {m : Packet} (bytes : Bytes)
      → IsHeaded h m
      → length bytes ≤ payload_max
      → (f : Packet) × (encode_payload_raw x bytes m ≡ ok f) × IsFrame h bytes f
  unfolding encode_payload_raw
  encode_payload_raw-IsFrame {m} bytes headed fits =
      let (f, e, frame) =
        finish_length-IsFrame headed bytes (store m.buffer 20 bytes) (omega arith)
          (read_at-store_before m.buffer 20 bytes 4 16 (omega arith))
          (read_at-store_self m.buffer 20 bytes) in
      (f, ground (arith, e, headed.length_eq, headed.offset_eq), frame)

  -- Longer data is refused, and the message names its length and the 262128 bytes that fit.
  pub encode_payload_raw_too_long :
      {h : Header} {m : Packet} (bytes : Bytes)
      → IsHeaded h m
      → payload_max < length bytes
      → encode_payload_raw x bytes m ≡ err (raw_too_long (length bytes) payload_max) m
  unfolding encode_payload_raw
  encode_payload_raw_too_long bytes headed long = ground (arith, headed.length_eq, headed.offset_eq)

  pub encode_payload_empty-IsFrame :
      {h : Header} {m : Packet}
      → IsHeaded h m
      → (f : Packet) × (encode_payload_empty x m ≡ ok f) × IsFrame h [] f
  unfolding encode_payload_empty read_at
  encode_payload_empty-IsFrame {m} headed =
      let (f, e, frame) = finish_length-IsFrame headed [] m.buffer (omega arith) refl refl in
      (f, ground (arith, e, headed.offset_eq), frame)

  -- A payload that goes through a filter of fixed size.
  pub encode_payload_msg-IsFrame :
      {h : Header} {m : Packet} {A : Type 0} {g : Filter A} {size : ℕ} {Fits : A → Type 0} (a : A)
      → IsFixedSize g size Fits
      → size ≤ payload_max
      → IsHeaded h m
      → (bs : Bytes) × (g.encode payload_max a ≡ some bs)
        × (f : Packet) × (encode_payload_msg x g a m ≡ ok f)
        × IsFrame h bs f
  unfolding encode_payload_msg
  encode_payload_msg-IsFrame {m} {size} a fixed fits headed =
      let (bs, g, n) = fixed.encodes payload_max a fits in
      let (f, e, frame) =
        finish_length-IsFrame headed bs (store m.buffer 20 bs) (omega (arith, n))
          (read_at-store_before m.buffer 20 bs 4 16 (omega arith))
          (read_at-store_self m.buffer 20 bs) in
      (bs, g, f, ground (arith, g, e, n, headed.length_eq, headed.offset_eq), frame)

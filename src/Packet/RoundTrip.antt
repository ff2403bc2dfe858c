-- ===== src/Packet/RoundTrip.antt =====
-- The functions of libvirt-sandbox-rpcpacket.c as sender and receiver of one packet.
use libvirt_sandbox.Base.{
  ℕ, ◌+◌, ◌-◌, ◌≤◌, ◌<◌, ◌≡◌, refl, ◌∙◌, sym, ap, subst, arith, inl, inr, true, Bytes, ◌++◌, [],
  length, take, drop, take-append_length, drop-append_length, u32_mod,
}
use mathlib.Core.List.{append-nil, append_assoc}
use libvirt_sandbox.Buffer.{
  Buffer, store, read_at, length-read_at, read_at_split, read_at-store_self,
}
use libvirt_sandbox.Protocol.{len_max, payload_max, Header, HeaderFits}
use libvirt_sandbox.Protocol.Xdr.{Xdr, IsXdr}
use libvirt_sandbox.Result.{Result, ok, ◌>>=◌}
use libvirt_sandbox.Packet.{
  Packet, capacity, new, decode_length, decode_header, encode_header, encode_payload_raw,
}
use libvirt_sandbox.Packet.Safety.{decode_length_parts, decode_header_cases}
use libvirt_sandbox.Packet.Encode.{IsFrame, encode_header-IsHeaded, encode_payload_raw-IsFrame}

-- The bytes that are sent.
abbrev pub wire : Packet → Bytes
wire msg = read_at msg.buffer 0 msg.buffer_length

-- The bytes behind the position reached.
abbrev pub payload : Packet → Bytes
payload msg = read_at msg.buffer msg.buffer_offset (msg.buffer_length - msg.buffer_offset)

-- The receiver: the length word arrives, then as many bytes as it announces.
unfoldable pub receive : Xdr → Buffer → Bytes → Result Packet
receive x b bytes = do
  msg ← decode_length x (record (new true) { buffer = store b 0 (take len_max bytes) })
  decode_header x (record msg {
    buffer = store msg.buffer len_max (take (msg.buffer_length - len_max) (drop len_max bytes));
  })

take-read_at :
    (b : Buffer) (at n : ℕ) (rest : Bytes) → take n (read_at b at n ++ rest) ≡ read_at b at n
take-read_at b at n rest =
    subst (λ k. take k (read_at b at n ++ rest) ≡ read_at b at n) (length-read_at b at n)
      (take-append_length (read_at b at n) rest)

drop-read_at : (b : Buffer) (at n : ℕ) (rest : Bytes) → drop n (read_at b at n ++ rest) ≡ rest
drop-read_at b at n rest =
    subst (λ k. drop k (read_at b at n ++ rest) ≡ rest) (length-read_at b at n)
      (drop-append_length (read_at b at n) rest)

read_at-store :
    (b c : Buffer) (at from n : ℕ) → read_at (store b at (read_at c from n)) at n ≡ read_at c from n
read_at-store b c at from n =
    subst (λ k. read_at (store b at (read_at c from n)) at k ≡ read_at c from n)
      (length-read_at c from n) (read_at-store_self b at (read_at c from n))

module _ (x : Xdr) (law : IsXdr x) where
  module _ {h : Header} {data' : Bytes} {f : Packet} (frame : IsFrame x law h data' f)
      (fits : HeaderFits h) where
    tail_bytes : read_at f.buffer 4 (f.buffer_length - 4) ≡ frame.header_bytes ++ data'
    tail_bytes =
        let e : f.buffer_length - 4 ≡ 16 + length data' = omega (arith, frame.length_eq) in
        rw (e, read_at_split f.buffer 4 16 (length data'), frame.header_there, frame.payload_there)

    -- The receiver's packet once the length word has arrived.
    abbrev pub word_read : Buffer → ℕ → Packet
    word_read b at = record (new true) {
      buffer = store b 0 (read_at f.buffer 0 4);
      buffer_offset = at;
    }

    pub word_decoded :
        (b : Buffer) (at : ℕ)
        → decode_length x (word_read b at)
          ≡ ok (record (word_read b at) { buffer_length = f.buffer_length; buffer_offset = 4 })
    unfolding new
    word_decoded b at =
        let (len, e, _, _, good) = decode_length_parts x law (word_read b at) refl in
        let bound : f.buffer_length < u32_mod = omega (arith, frame.length_le) in
        let back =
          law.u_int_size.reads_back 4 f.buffer_length (read_at f.buffer 0 4) [] bound
            frame.length_encoded in
        let same : len ≡ f.buffer_length =
          cc (e, back, append-nil (read_at f.buffer 0 4), read_at-store b f.buffer 0 0 4) in
        let r =
          good (omega (arith, same, frame.length_eq)) (omega (arith, same, frame.length_le)) in
        cc (r, same)

    -- The receiver's packet once the rest has arrived.
    abbrev pub all_read : Buffer → ℕ → Packet
    all_read b at = record (word_read b at) {
      buffer =
          store (store b 0 (read_at f.buffer 0 4)) 4 (read_at f.buffer 4 (f.buffer_length - 4));
      buffer_length = f.buffer_length;
    }

    tail_received :
        (b : Buffer)
        → read_at (all_read b 4).buffer 4 (f.buffer_length - 4) ≡ frame.header_bytes ++ data'
    tail_received b = read_at-store _ f.buffer 4 4 (f.buffer_length - 4) ∙ tail_bytes

    pub header_decoded :
        (b : Buffer) (at : ℕ)
        → decode_header x (all_read b at)
          ≡ ok (record (all_read b at) { buffer_offset = 20; header = h })
    header_decoded b at =
        let back =
          law.header_size.reads_back (capacity - 4) h frame.header_bytes data' fits
            frame.header_encoded in
        elim (decode_header_cases x law (all_read b at) (omega (arith, frame.length_eq))
          frame.length_le) [
            | inl (short, _) ↦ absurd (omega (arith, short, frame.length_eq))
            | inr (h', e, _, _, r) ↦
                let same : h' ≡ h = cc (e, tail_received b, back) in cc (r, same)
          ]

    pub payload_received :
        (b : Buffer) (at : ℕ)
        → payload (record (all_read b at) { buffer_offset = 20; header = h }) ≡ data'
    payload_received b at =
        let c = (all_read b 4).buffer in
        let e : f.buffer_length - 20 ≡ length data' = omega (arith, frame.length_eq) in
        let e' : f.buffer_length - 4 ≡ 16 + length data' = omega (arith, frame.length_eq) in
        let split = read_at_split c 4 16 (length data') in
        let whole : read_at c 4 16 ++ read_at c 20 (length data') ≡ read_at f.buffer 4 16 ++ data' =
          cc (split, e', tail_received b, frame.header_there) in
        rw e (
          sym (drop-read_at c 4 16 (read_at c 20 (length data')))
          ∙ ap (drop 16) whole
          ∙ drop-read_at f.buffer 4 16 data')

    wire_parts :
        (rest : Bytes)
        → wire f ++ rest
          ≡ read_at f.buffer 0 4 ++ (read_at f.buffer 4 (f.buffer_length - 4) ++ rest)
    wire_parts rest =
        let e : f.buffer_length ≡ 4 + (f.buffer_length - 4) = omega (arith, frame.length_eq) in
        let split = read_at_split f.buffer 0 4 (f.buffer_length - 4) in
        ap (λ n. read_at f.buffer 0 n ++ rest) e
        ∙ ap (λ bs. bs ++ rest) split
        ∙ append_assoc (read_at f.buffer 0 4) _ rest

    -- Whatever follows it, a framed packet is received with its header and its payload.
    pub receive-IsFrame :
        (b : Buffer) (rest : Bytes)
        → (m : Packet) × (receive x b (wire f ++ rest) ≡ ok m)
          × (m.header ≡ h)
          × (payload m ≡ data')
    unfolding receive
    receive-IsFrame b rest =
        let tail = read_at f.buffer 4 (f.buffer_length - 4) in
        let e1 = take-read_at f.buffer 0 4 (tail ++ rest) in
        let e2 = drop-read_at f.buffer 0 4 (tail ++ rest) in
        let e3 = take-read_at f.buffer 4 (f.buffer_length - 4) rest in
        (
          record (all_read b 4) { buffer_offset = 20; header = h },
          rw (wire_parts rest, e1, e2, word_decoded b (new true).buffer_offset, e3)
              (header_decoded b 4),
          refl,
          payload_received b 4,
        )

  -- Raw data of at most 262128 bytes, framed by `encode_header` and `encode_payload_raw` and sent
  -- with anything behind it, is received with the header and the data that were framed.
  pub receive-encode_payload_raw :
      (msg : Packet) (bytes : Bytes) (b : Buffer) (rest : Bytes)
      → HeaderFits msg.header
      → length bytes ≤ payload_max
      → (f : Packet) × ((encode_header x msg >>= encode_payload_raw x bytes) ≡ ok f)
        × (m : Packet) × (receive x b (wire f ++ rest) ≡ ok m)
        × (m.header ≡ msg.header)
        × (payload m ≡ bytes)
  receive-encode_payload_raw msg bytes b rest fits short =
      let (m, e, headed) = encode_header-IsHeaded x law msg in
      let (f, e', frame) = encode_payload_raw-IsFrame x law bytes headed short in
      let (r, received, same, data_same) = receive-IsFrame frame fits b rest in
      (f, rw e e', r, received, same, data_same)

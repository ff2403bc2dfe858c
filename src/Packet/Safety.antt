-- ===== src/Packet/Safety.antt =====
-- What the decoding functions of libvirt-sandbox-rpcpacket.c leave behind on any input.
use libvirt_sandbox.Base.{ℕ, ◌-◌, ◌≤◌, ◌<◌, ◌≡◌, arith, inl, inr, some, u32_mod, ◌⊎◌}
use libvirt_sandbox.Buffer.{read_at, length-read_at}
use libvirt_sandbox.Protocol.{len_max, Header, HeaderFits}
use libvirt_sandbox.Protocol.Xdr.{Xdr, IsXdr, decode_cases}
use native.Mathlib.Decide.{dec_lt}
use libvirt_sandbox.Result.{ok, err, too_small, too_large, decode_header_failed}
use libvirt_sandbox.Packet.{Packet, capacity, decode_length, decode_header, check_length, room}

pub record IsValid (msg : Packet) : Type 0 where
  pub offset_le : msg.buffer_offset ≤ msg.buffer_length
  pub length_le : msg.buffer_length ≤ capacity

module _ (x : Xdr) (law : IsXdr x) where
  decode_length_reads :
      (msg : Packet)
      → msg.buffer_length ≡ len_max
      → (len : ℕ) × (x.u_int.decode (read_at msg.buffer 0 4) ≡ some (len, 4))
        × (len < u32_mod)
        × (decode_length x msg ≡ check_length (record msg { buffer_offset = 4 }) len)
  unfolding decode_length
  decode_length_reads msg h =
      let (len, e, fits) =
        law.u_int_size.reads (read_at msg.buffer 0 4)
          (omega (arith, length-read_at msg.buffer 0 4)) in
      (len, e, fits, ground (arith, e))

  pub decode_length_parts :
      (msg : Packet)
      → msg.buffer_length ≡ len_max
      → (len : ℕ) × (x.u_int.decode (read_at msg.buffer 0 4) ≡ some (len, 4))
        × (len < len_max
            → decode_length x msg ≡ err (too_small len) (record msg { buffer_offset = 4 }))
        × (capacity < len
            → decode_length x msg ≡ err (too_large (len - 4)) (record msg { buffer_offset = 4 }))
        × (len_max ≤ len
            → len ≤ capacity
            → decode_length x msg ≡ ok (record msg { buffer_length = len; buffer_offset = 4 }))
  unfolding check_length
  decode_length_parts msg h =
      let (len, e, fits, r) = decode_length_reads msg h in
      (
        len,
        e,
        (λ small. ground (arith, r)),
        (λ big. ground (arith, r)),
        (λ lo hi. ground (arith, r)),
      )

  -- A length word that does not count itself is refused, and one of a packet that does not fit the
  -- buffer; any other is accepted as the length of the packet, with the position behind the word.
  pub decode_length_total :
      (msg : Packet)
      → msg.buffer_length ≡ len_max
      → (len : ℕ) × (x.u_int.decode (read_at msg.buffer 0 4) ≡ some (len, 4))
        × (((len < len_max)
              × (decode_length x msg ≡ err (too_small len) (record msg { buffer_offset = 4 })))
            ⊎ ((capacity < len)
                × (decode_length x msg
                    ≡ err (too_large (len - 4)) (record msg { buffer_offset = 4 })))
            ⊎ ((len_max ≤ len)
                × (len ≤ capacity)
                × (decode_length x msg
                    ≡ ok (record msg { buffer_length = len; buffer_offset = 4 }))))
  decode_length_total msg h =
      let (len, e, small, big, good) = decode_length_parts msg h in
      (
        len,
        e,
        elim (dec_lt len len_max) [
          | yes lo ↦ inl (lo, small lo)
          | no lo ↦ elim (dec_lt capacity len) [
            | yes hi ↦ inr (inl (hi, big hi))
            | no hi ↦ inr (inr (omega arith, omega arith, good (omega arith) (omega arith)))
          ]
        ],
      )

  -- A header is decoded exactly from packets of 20 bytes or more.
  pub decode_header_cases :
      (msg : Packet)
      → len_max ≤ msg.buffer_length
      → msg.buffer_length ≤ capacity
      → ((msg.buffer_length < 20)
          × (decode_header x msg ≡ err decode_header_failed (record msg { buffer_offset = 4 })))
        ⊎ ((h : Header) × (x.header.decode (read_at msg.buffer 4 (msg.buffer_length - 4))
              ≡ some (h, 16))
            × HeaderFits h
            × (20 ≤ msg.buffer_length)
            × (decode_header x msg ≡ ok (record msg { buffer_offset = 20; header = h })))
  unfolding decode_header
  decode_header_cases msg lo hi =
      let region = read_at msg.buffer 4 (msg.buffer_length - 4) in
      let size : room (record msg { buffer_offset = 4 }) ≡ msg.buffer_length - 4 = omega arith in
      elim (decode_cases law.header_size region) [
        | inl (short, e) ↦ inl (
          omega (arith, short, length-read_at msg.buffer 4 (msg.buffer_length - 4)),
          rw size (ground (arith, e)),
        )
        | inr (h, e, fits, long) ↦ inr (
          h,
          e,
          fits,
          omega (arith, long, length-read_at msg.buffer 4 (msg.buffer_length - 4)),
          rw size (ground (arith, e)),
        )
      ]

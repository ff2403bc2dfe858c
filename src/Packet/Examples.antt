-- ===== src/Packet/Examples.antt =====
-- The theorems about packets at concrete inputs, with the XDR routines of Protocol/BigEndian.antt,
-- and runs of the functions.
use libvirt_sandbox.Base.{ℕ, ◌-◌, ◌≤◌, ◌<◌, ◌≡◌, ◌⊎◌, refl, arith, [], ◌∷◌, ◌++◌, true, false, some}
use libvirt_sandbox.Buffer.{read_at, store}
use libvirt_sandbox.Protocol.{Header, proc_stdout, type_data, len_max}
use libvirt_sandbox.Protocol.BigEndian.{big_endian, big_endian-IsXdr}
use libvirt_sandbox.Result.{ok, err, ◌>>=◌, too_small, too_large}
use libvirt_sandbox.Packet.{Packet, new, capacity, decode_length, encode_header, encode_payload_raw}
use libvirt_sandbox.Packet.Safety.{decode_length_total}
use libvirt_sandbox.Packet.RoundTrip.{wire, receive, payload, receive-encode_payload_raw}

abbrev header : Header
header = record { proc = proc_stdout; kind = type_data; status = 0; serial = 7 }

abbrev outgoing : Packet
outgoing = record (new false) { header = header }

receive-encode_payload_raw_example :
    (f : Packet) × ((encode_header big_endian outgoing
        >>= encode_payload_raw big_endian (1 ∷ 2 ∷ []))
      ≡ ok f)
    × (m : Packet) × (receive big_endian (λ _. 0) (wire f ++ 9 ∷ []) ≡ ok m)
    × (m.header ≡ header)
    × (payload m ≡ 1 ∷ 2 ∷ [])
receive-encode_payload_raw_example =
    receive-encode_payload_raw big_endian big_endian-IsXdr outgoing (1 ∷ 2 ∷ []) (λ _. 0) (9 ∷ [])
      (omega arith) (omega arith)

-- A length word of 22.
abbrev incoming : Packet
incoming = record (new true) { buffer = store (λ _. 0) 3 (22 ∷ []) }

decode_length_total_example :
    (len : ℕ) × (big_endian.u_int.decode (read_at incoming.buffer 0 4) ≡ some (len, 4))
    × (((len < len_max)
          × (decode_length big_endian incoming
              ≡ err (too_small len) (record incoming { buffer_offset = 4 })))
        ⊎ ((capacity < len)
            × (decode_length big_endian incoming
                ≡ err (too_large (len - 4)) (record incoming { buffer_offset = 4 })))
        ⊎ ((len_max ≤ len)
            × (len ≤ capacity)
            × (decode_length big_endian incoming
                ≡ ok (record incoming { buffer_length = len; buffer_offset = 4 }))))
unfolding new
decode_length_total_example = decode_length_total big_endian big_endian-IsXdr incoming refl

decode_length_accepts :
    decode_length big_endian incoming
    ≡ ok (record incoming { buffer_length = 22; buffer_offset = 4 })
unfolding decode_length new read_at store
decode_length_accepts = refl

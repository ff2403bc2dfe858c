-- ===== src/Protocol/BigEndian.antt =====
-- A concrete `Xdr`, with words of four bytes, highest first: the laws of `IsXdr` can be met.
use libvirt_sandbox.Base.{
  ℕ, ◌+◌, ◌*◌, ◌/◌, ◌%◌, ◌≤◌, ◌<◌, ◌≡◌, refl, arith, Option, none, some, [], ◌∷◌, ◌++◌, Bytes,
  length, u32_mod, leb, if◌then◌else◌, drop, length-drop,
}
use libvirt_sandbox.Protocol.{Header, HeaderFits}
use libvirt_sandbox.Protocol.Xdr.{Filter, IsFixedSize, Xdr, IsXdr}

abbrev pub word : ℕ → Bytes
word n = (n / 16777216 % 256) ∷ (n / 65536 % 256) ∷ (n / 256 % 256) ∷ (n % 256) ∷ []

abbrev pub number : ℕ → ℕ → ℕ → ℕ → ℕ
number a b c d = a % 256 * 16777216 + b % 256 * 65536 + c % 256 * 256 + d % 256

abbrev decode_word : Bytes → Option (ℕ × ℕ)
decode_word (a ∷ b ∷ c ∷ d ∷ rest) = some (number a b c d, 4)
decode_word _ = none

abbrev word_filter : Filter ℕ
word_filter = record {
  encode = λ room n. if leb 4 room then some (word n) else none;
  decode = decode_word;
}

word-number :
    (n : ℕ)
    → n < u32_mod
    → number (n / 16777216 % 256) (n / 65536 % 256) (n / 256 % 256) (n % 256) ≡ n
word-number n h = omega arith

number-lt : (a b c d : ℕ) → number a b c d < u32_mod
number-lt a b c d = omega arith

decode_word_reads :
    (bs : Bytes) → 4 ≤ length bs → (n : ℕ) × (decode_word bs ≡ some (n, 4)) × (n < u32_mod)
decode_word_reads (a ∷ b ∷ c ∷ d ∷ rest) h = (number a b c d, refl, number-lt a b c d)
decode_word_reads (a ∷ b ∷ c ∷ []) h = absurd (omega arith)
decode_word_reads (a ∷ b ∷ []) h = absurd (omega arith)
decode_word_reads (a ∷ []) h = absurd (omega arith)
decode_word_reads [] h = absurd (omega arith)

decode_word_short : (bs : Bytes) → length bs < 4 → decode_word bs ≡ none
decode_word_short (a ∷ b ∷ c ∷ d ∷ rest) h = absurd (omega arith)
decode_word_short (a ∷ b ∷ c ∷ []) h = refl
decode_word_short (a ∷ b ∷ []) h = refl
decode_word_short (a ∷ []) h = refl
decode_word_short [] h = refl

word_filter-IsFixedSize : IsFixedSize word_filter 4 (λ n. n < u32_mod)
word_filter-IsFixedSize = record {
  encodes = λ room n h. (word n, ground arith, refl);
  reads_back = λ room n bs rest h e. ground (arith, word-number n h);
  reads = decode_word_reads;
  too_short = decode_word_short;
}

abbrev decode_fields : Bytes → Option (Header × ℕ)
decode_fields bs = elim (decode_word bs) [
  | none ↦ none
  | some (p, _) ↦ elim (decode_word (drop 4 bs)) [
    | none ↦ none
    | some (k, _) ↦ elim (decode_word (drop 8 bs)) [
      | none ↦ none
      | some (s, _) ↦ elim (decode_word (drop 12 bs)) [
        | none ↦ none
        | some (n, _) ↦ some (record { proc = p; kind = k; status = s; serial = n }, 16)
      ]
    ]
  ]
]

abbrev fields : Header → Bytes
fields h = word h.proc ++ word h.kind ++ word h.status ++ word h.serial

abbrev header_filter : Filter Header
header_filter = record {
  encode = λ room h. if leb 16 room then some (fields h) else none;
  decode = decode_fields;
}

decode_fields_reads :
    (bs : Bytes) → 16 ≤ length bs → (h : Header) × (decode_fields bs ≡ some (h, 16)) × HeaderFits h
decode_fields_reads bs h =
    let long =
      λ (n : ℕ) (e : n ≤ 12). decode_word_reads (drop n bs) (omega (arith, length-drop n bs)) in
    let (p, ep, fp) = decode_word_reads bs (omega arith) in
    let (k, ek, fk) = long 4 (omega arith) in
    let (s, es, fs) = long 8 (omega arith) in
    let (n, en, fn) = long 12 (omega arith) in
    (
      record { proc = p; kind = k; status = s; serial = n },
      ground (arith, ep, ek, es, en),
      record { proc_fits = fp; kind_fits = fk; status_fits = fs; serial_fits = fn },
    )

decode_fields_short : (bs : Bytes) → length bs < 16 → decode_fields bs ≡ none
decode_fields_short bs h =
    ground (arith, decode_word_short (drop 12 bs) (omega (arith, length-drop 12 bs)))

decode-fields :
    (h : Header) (rest : Bytes) → HeaderFits h → decode_fields (fields h ++ rest) ≡ some (h, 16)
decode-fields h rest f = ground (
  arith,
  word-number h.proc f.proc_fits,
  word-number h.kind f.kind_fits,
  word-number h.status f.status_fits,
  word-number h.serial f.serial_fits,
)

header_filter-IsFixedSize : IsFixedSize header_filter 16 HeaderFits
header_filter-IsFixedSize = record {
  encodes = λ room h e. (fields h, ground arith, refl);
  reads_back = λ room h bs rest f e. ground (arith, decode-fields h rest f);
  reads = decode_fields_reads;
  too_short = decode_fields_short;
}

abbrev pub big_endian : Xdr
big_endian = record { u_int = word_filter; header = header_filter; message_exit = word_filter }

pub big_endian-IsXdr : IsXdr big_endian
big_endian-IsXdr = record {
  u_int_size = word_filter-IsFixedSize;
  header_size = header_filter-IsFixedSize;
  message_exit_size = word_filter-IsFixedSize;
}

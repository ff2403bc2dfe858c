-- ===== src/Protocol/Xdr.antt =====
-- The XDR routines that the packets go through: `xdr_u_int` of the C library, and the filters that
-- rpcgen makes from libvirt-sandbox-protocol.x. Neither is source of the repository, so they are
-- parameters, with what RFC 4506 and the xdrmem streams promise as named laws.
use libvirt_sandbox.Base.{
  ℕ, ◌≤◌, ◌<◌, ◌≡◌, Option, none, some, Bytes, ◌++◌, length, u32_mod, ◌⊎◌, inl, inr, leb,
  Bool-cases, arith,
}
use libvirt_sandbox.Protocol.{Header, HeaderFits}

-- An `xdrproc_t` over a memory stream. `encode` is given the room that is left in the stream, and
-- `decode` the bytes that are left: it returns the value and the count of bytes it took.
pub record Filter (A : Type 0) : Type 0 where
  pub encode : ℕ → A → Option Bytes
  pub decode : Bytes → Option (A × ℕ)

-- A filter whose values all take `size` bytes.
pub record IsFixedSize {A : Type 0} (f : Filter A) (size : ℕ) (Fits : A → Type 0) : Type 0 where
  pub encodes :
      (room : ℕ) (a : A)
      → size ≤ room
      → (bs : Bytes) × (f.encode room a ≡ some bs) × (length bs ≡ size)
  pub reads_back :
      (room : ℕ) (a : A) (bs rest : Bytes)
      → Fits a
      → f.encode room a ≡ some bs
      → f.decode (bs ++ rest) ≡ some (a, size)
  pub reads : (bs : Bytes) → size ≤ length bs → (a : A) × (f.decode bs ≡ some (a, size)) × Fits a
  pub too_short : (bs : Bytes) → length bs < size → f.decode bs ≡ none

-- `xdr_u_int`, `xdr_GVirSandboxProtocolHeader` and `xdr_GVirSandboxProtocolMessageExit`.
pub record Xdr : Type 0 where
  pub u_int : Filter ℕ
  pub header : Filter Header
  pub message_exit : Filter ℕ

pub record IsXdr (x : Xdr) : Type 0 where
  pub u_int_size : IsFixedSize x.u_int 4 (λ n. n < u32_mod)
  pub header_size : IsFixedSize x.header 16 HeaderFits
  pub message_exit_size : IsFixedSize x.message_exit 4 (λ n. n < u32_mod)

-- A fixed-size filter decodes exactly the regions that are long enough.
pub decode_cases :
    {A : Type 0} {f : Filter A} {size : ℕ} {Fits : A → Type 0}
    → IsFixedSize f size Fits
    → (bs : Bytes)
    → ((length bs < size) × (f.decode bs ≡ none))
      ⊎ ((a : A) × (f.decode bs ≡ some (a, size)) × Fits a × (size ≤ length bs))
decode_cases {f} {size} law bs = elim (Bool-cases (leb size (length bs))) [
  | inl long ↦
      let h : size ≤ length bs = ground arith in
      let (a, e, fits) = law.reads bs h in inr (a, e, fits, h)
  | inr short ↦ let h : length bs < size = ground arith in inl (h, law.too_short bs h)
]

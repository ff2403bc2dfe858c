-- ===== src/Config/Text/Decimals.antt =====
-- Lemmas on decimals: what is printed is scanned again.
use Prim.Native.Nat.{min}
use libvirt_sandbox.Base.{
  ℕ, zero, suc, ◌+◌, ◌/◌, ◌%◌, ◌≤◌, ◌<◌, ◌≡◌, refl, ap, sym, Bool, true, false, ◌&&◌, [], ◌∷◌,
  Bytes, arith, Bool-cases, ◌∙◌, inl, inr, ltb, leb,
}
use libvirt_sandbox.Config.External.{IsAscii}
use libvirt_sandbox.Config.Text.{scan, digits, print, strtol, long_max}

abbrev pub is_digit : ℕ → Bool
is_digit c = leb b'0' c && leb c b'9'

-- A text that does not go on with a digit.
abbrev pub StartsNoDigit : Bytes → Type 0
StartsNoDigit [] = Unit
StartsNoDigit (c ∷ s) = is_digit c ≡ false

scan_end : (s : Bytes) (n : ℕ) → StartsNoDigit s → scan s n ≡ (n, s)
unfolding scan
scan_end [] n h = refl
scan_end (c ∷ s) n h = ground arith

scan_last : (n : ℕ) (out : Bytes) → scan ((b'0' + n % 10) ∷ out) (n / 10) ≡ scan out n
unfolding scan
scan_last n out = ground arith

scan-digits : (fuel n : ℕ) (out : Bytes) → n < fuel → scan (digits fuel n out) 0 ≡ scan out n
unfolding digits
scan-digits zero n out h = absurd (omega arith)
scan-digits (suc fuel) n out h =
    ground (arith, scan_last n out, scan-digits fuel (n / 10) ((b'0' + n % 10) ∷ out))

pub scan-print : (n : ℕ) (rest : Bytes) → StartsNoDigit rest → scan (print n rest) 0 ≡ (n, rest)
unfolding print
scan-print n rest h = scan-digits (suc n) n rest (omega arith) ∙ scan_end rest n h

digits-IsAscii : (fuel n : ℕ) (out : Bytes) → IsAscii out → IsAscii (digits fuel n out)
unfolding digits
digits-IsAscii zero n out h = h
digits-IsAscii (suc fuel) n out h = elim (Bool-cases (ltb n 10)) [
  | inl small ↦ rw small (omega arith, omega arith, h)
  | inr large ↦
      rw large (digits-IsAscii fuel (n / 10) ((b'0' + n % 10) ∷ out) (omega arith, omega arith, h))
]

pub print-IsAscii : (n : ℕ) (out : Bytes) → IsAscii out → IsAscii (print n out)
unfolding print
print-IsAscii n out h = digits-IsAscii (suc n) n out h

-- A print starts with a digit.
digits_head :
    (fuel n : ℕ) (out : Bytes)
    → (c : ℕ) × (s : Bytes) × (digits (suc fuel) n out ≡ c ∷ s) × (is_digit c ≡ true)
unfolding digits
digits_head zero n out = (b'0' + n % 10, out, ground arith, ground arith)
digits_head (suc fuel) n out = elim (Bool-cases (ltb n 10)) [
  | inl small ↦ (b'0' + n % 10, out, rw small refl, ground arith)
  | inr large ↦
      let (c, s, e, d) = digits_head fuel (n / 10) ((b'0' + n % 10) ∷ out) in (c, s, rw large e, d)
]

pub print_head :
    (n : ℕ) (out : Bytes) → (c : ℕ) × (s : Bytes) × (print n out ≡ c ∷ s) × (is_digit c ≡ true)
unfolding print
print_head n out = digits_head n n out

strtol_digit :
    (c : ℕ) (s : Bytes)
    → is_digit c ≡ true
    → strtol (c ∷ s) ≡ (min (scan (c ∷ s) 0).0 long_max, (scan (c ∷ s) 0).1)
unfolding strtol
strtol_digit c s h = ground arith

pub strtol-print :
    (n : ℕ) (rest : Bytes) → StartsNoDigit rest → n ≤ long_max → strtol (print n rest) ≡ (n, rest)
strtol-print n rest h fits =
    let (c, s, e, d) = print_head n rest in
    let scanned : scan (c ∷ s) 0 ≡ (n, rest) = ap (λ l. scan l 0) (sym e) ∙ scan-print n rest h in
    let small : min n long_max ≡ n = omega arith in
    ap strtol e
    ∙ strtol_digit c s d
    ∙ ap (λ (p : ℕ × Bytes). (min p.0 long_max, p.1)) scanned
    ∙ ap (λ k. (k, rest)) small

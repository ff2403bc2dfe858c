-- ===== src/Config/Text.antt =====
-- The C string routines that libvirt-sandbox-config.c calls: comparisons, searches, decimals. A
-- string is the list of its bytes ahead of the NUL.
pub mod Laws
pub mod Decimals
use Prim.Native.Char.{code}
use Prim.Native.Nat.{min}
use Prim.Native.String.{String}
use libvirt_sandbox.Base.{
  ℕ, zero, suc, ◌+◌, ◌-◌, ◌*◌, ◌/◌, ◌%◌, ◌^◌, Bool, true, false, ◌&&◌, ◌||◌, Option, none, some,
  List, [], ◌∷◌, ◌++◌, map, Bytes, ltb, leb, ◌==◌, if◌then◌else◌, u32_mod, u64_mod,
}

-- A literal of the source, which is ASCII.
abbrev pub codes : String → Bytes
codes String.[] = []
codes (String.◌∷◌ c s) = code c ∷ codes s

-- g_str_equal
unfoldable pub equal : Bytes → Bytes → Bool
equal [] [] = true
equal [] (y ∷ b) = false
equal (x ∷ a) [] = false
equal (x ∷ a) (y ∷ b) = x == y && equal a b

-- g_str_has_prefix, the prefix first; with the prefix it yields what is behind it.
unfoldable pub strip_prefix : Bytes → Bytes → Option Bytes
strip_prefix [] s = some s
strip_prefix (x ∷ p) [] = none
strip_prefix (x ∷ p) (y ∷ s) = if x == y then strip_prefix p s else none

-- `strncmp(a, b, n) == 0`
unfoldable pub same_start : ℕ → Bytes → Bytes → Bool
same_start zero a b = true
same_start (suc n) [] [] = true
same_start (suc n) [] (y ∷ b) = false
same_start (suc n) (x ∷ a) [] = false
same_start (suc n) (x ∷ a) (y ∷ b) = x == y && same_start n a b

abbrev before : ℕ → Option (Bytes × Bytes) → Option (Bytes × Bytes)
before x none = none
before x (some (a, b)) = some (x ∷ a, b)

-- strchr, with a NUL written over the byte found: what is ahead of it and what is behind it.
unfoldable pub cut : ℕ → Bytes → Option (Bytes × Bytes)
cut c [] = none
cut c (x ∷ s) = let rest = before x (cut c s) in if x == c then some ([], s) else rest

-- g_strrstr with a text of one byte, in the same way.
unfoldable pub cut_last : ℕ → Bytes → Option (Bytes × Bytes)
cut_last c [] = none
cut_last c (x ∷ s) = elim (cut_last c s) [
  | some (a, b) ↦ some (x ∷ a, b)
  | none ↦ if x == c then some ([], s) else none
]

-- g_ascii_strup
abbrev pub upcase : Bytes → Bytes
upcase s = map (λ c. if leb b'a' c && leb c b'z' then c - 32 else c) s

abbrev is_digit : ℕ → Bool
is_digit c = leb b'0' c && leb c b'9'

abbrev is_space : ℕ → Bool
is_space c = c == 32 || (leb 9 c && leb c 13)

-- The digits at the front added behind `n`, and what follows them.
unfoldable pub scan : Bytes → ℕ → ℕ × Bytes
scan [] n = (n, [])
scan (c ∷ s) n = let rest = scan s (n * 10 + (c - b'0')) in if is_digit c then rest else (n, c ∷ s)

unfoldable pub skip_spaces : Bytes → Bytes
skip_spaces [] = []
skip_spaces (c ∷ s) = let rest = skip_spaces s in if is_space c then rest else c ∷ s

abbrev starts_digit : Bytes → Bool
starts_digit [] = false
starts_digit (c ∷ s) = is_digit c

abbrev pub long_max : ℕ
long_max = 2 ^ 63 - 1

-- A `long` in two's complement: the value saturates at LONG_MAX and LONG_MIN.
abbrev positive : ℕ × Bytes → ℕ × Bytes
positive (n, rest) = (min n long_max, rest)

abbrev negative : ℕ × Bytes → ℕ × Bytes
negative (n, rest) = ((u64_mod - min n (long_max + 1)) % u64_mod, rest)

unfoldable signed_number : Bytes → Bytes → ℕ × Bytes
unfolding scan
signed_number whole [] = (0, whole)
signed_number whole (c ∷ s) =
    if c == b'-'
    then if starts_digit s then negative (scan s 0) else (0, whole)
    else if c == b'+'
    then if starts_digit s then positive (scan s 0) else (0, whole)
    else if is_digit c
    then positive (scan (c ∷ s) 0)
    else (0, whole)

-- `strtol(s, &end, 10)` and `g_ascii_strtoll(s, NULL, 10)`: the number and `end`.
unfoldable pub strtol : Bytes → ℕ × Bytes
unfolding signed_number skip_spaces
strtol s = signed_number s (skip_spaces s)

-- A `long` assigned to a `gint` or a `guint`.
abbrev pub to_int : ℕ → ℕ
to_int n = n % u32_mod

-- A `gint` assigned to a `guint64`: the sign is extended.
abbrev pub extend : ℕ → ℕ
extend n = if ltb n (2 ^ 31) then n else n + (u64_mod - u32_mod)

abbrev digit : ℕ → ℕ
digit n = b'0' + n % 10

unfoldable pub digits : ℕ → ℕ → Bytes → Bytes
digits zero n out = out
digits (suc fuel) n out =
    let rest = digits fuel (n / 10) (digit n ∷ out) in if ltb n 10 then digit n ∷ out else rest

-- `%u` of printf, and G_GUINT64_FORMAT, with what the format has behind it.
unfoldable pub print : ℕ → Bytes → Bytes
unfolding digits
print n rest = digits (suc n) n rest

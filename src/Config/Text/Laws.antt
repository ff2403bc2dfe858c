-- ===== src/Config/Text/Laws.antt =====
-- Lemmas on the comparisons and searches of strings.
use libvirt_sandbox.Base.{
  ℕ, ◌≡◌, ◌≢◌, inl, inr, refl, true, ◌==◌, none, some, [], ◌∷◌, ◌++◌, Bytes, length, arith,
  Bool-cases,
}
use libvirt_sandbox.Config.Text.{equal, strip_prefix, same_start, cut}

abbrev pub Lacks : ℕ → Bytes → Type 0
Lacks b [] = Unit
Lacks b (c ∷ s) = (c ≢ b) × Lacks b s

pub cut-append : (b : ℕ) (s t : Bytes) → Lacks b s → cut b (s ++ (b ∷ t)) ≡ some (s, t)
unfolding cut
cut-append b [] t h = ground arith
cut-append b (c ∷ s) t h = ground (arith, cut-append b s t h.1)

pub cut_lacking : (b : ℕ) (s : Bytes) → Lacks b s → cut b s ≡ none
unfolding cut
cut_lacking b [] h = refl
cut_lacking b (c ∷ s) h = ground (arith, cut_lacking b s h.1)

pub strip_prefix-append : (p s : Bytes) → strip_prefix p (p ++ s) ≡ some s
unfolding strip_prefix
strip_prefix-append [] s = refl
strip_prefix-append (c ∷ p) s = ground (arith, strip_prefix-append p s)

pub strip_prefix-some : (p s : Bytes) {t : Bytes} → strip_prefix p s ≡ some t → s ≡ p ++ t
unfolding strip_prefix
strip_prefix-some [] s e = ground arith
strip_prefix-some (c ∷ p) [] e = ground arith
strip_prefix-some (c ∷ p) (d ∷ s) {t} e = elim (Bool-cases (c == d)) [
  | inl same ↦
      let e' : strip_prefix p s ≡ some t = ground arith in ground (arith, strip_prefix-some p s e')
  | inr other ↦ ground arith
]

-- What ends before the limit is compared in full, so that only a prefix passes.
pub same_start_prefix :
    (pre rest more : Bytes) → same_start (length pre) (pre ++ rest) (pre ++ more) ≡ true
unfolding same_start
same_start_prefix [] rest more = refl
same_start_prefix (c ∷ pre) rest more = ground (arith, same_start_prefix pre rest more)

pub equal_refl : (s : Bytes) → equal s s ≡ true
unfolding equal
equal_refl [] = refl
equal_refl (c ∷ s) = ground (arith, equal_refl s)

pub equal→eq : (s t : Bytes) → equal s t ≡ true → s ≡ t
unfolding equal
equal→eq [] [] e = refl
equal→eq [] (d ∷ t) e = ground arith
equal→eq (c ∷ s) [] e = ground arith
equal→eq (c ∷ s) (d ∷ t) e = elim (Bool-cases (equal s t)) [
  | inl same ↦ ground (arith, equal→eq s t same)
  | inr other ↦ ground arith
]

-- ===== src/Boot/Lines.antt =====
-- Lines of a file, as fgets reads them.
use libvirt_sandbox.Base.{
  ℕ, ◌-◌, ◌<◌, ◌≡◌, refl, ap, sym, ◌∙◌, List, [], ◌∷◌, ◌++◌, Bytes, length, arith,
}
use libvirt_sandbox.Boot.{fgets, lines}
use libvirt_sandbox.Machine.{file_of}
use libvirt_sandbox.Config.Text.Laws.{Lacks}
use mathlib.Core.List.{append_assoc}

-- A line that fits the buffer.
pub record IsLine (l : Bytes) : Type 0 where
  pub body : Bytes
  pub ended : l ≡ body ++ (b'\n' ∷ [])
  pub no_newline : Lacks b'\n' body
  pub fits : length body < 1023

fgets-body :
    (room left : ℕ) (done body s : Bytes)
    → Lacks b'\n' body
    → length body < left
    → fgets room left done (body ++ (b'\n' ∷ s))
      ≡ (done ++ (body ++ (b'\n' ∷ []))) ∷ fgets room room [] s
unfolding fgets
fgets-body room left done [] s h few = ground arith
fgets-body room left done (c ∷ body) s h few = ground (
  arith,
  fgets-body room (left - 1) (done ++ (c ∷ [])) body s h.1,
  append_assoc done (c ∷ []) (body ++ (b'\n' ∷ [])),
)

abbrev pub AreLines : List Bytes → Type 0
AreLines [] = Unit
AreLines (l ∷ ls) = IsLine l × AreLines ls

-- The lines that are written are the lines that fgets hands out.
pub lines-file_of : (ls : List Bytes) → AreLines ls → lines (file_of ls) ≡ ls
unfolding fgets file_of
lines-file_of [] h = refl
lines-file_of (l ∷ ls) (h, hs) =
    ap (λ x. lines (x ++ file_of ls)) h.ended
    ∙ ap lines (append_assoc h.body (b'\n' ∷ []) (file_of ls))
    ∙ fgets-body 1023 1023 [] h.body (file_of ls) h.no_newline h.fits
    ∙ ap (λ x. x ∷ lines (file_of ls)) (sym h.ended)
    ∙ ap (λ x. l ∷ x) (lines-file_of ls hs)

pub append-Lacks : (b : ℕ) (s t : Bytes) → Lacks b s → Lacks b t → Lacks b (s ++ t)
append-Lacks b [] t h h' = h'
append-Lacks b (c ∷ s) t h h' = (h.0, append-Lacks b s t h.1 h')

-- ===== src/Config/RoundTrip.antt =====
-- Loops over the objects of a configuration, saved and loaded again.
pub mod Frames
pub mod Envs
pub mod Disks
pub mod Tables
pub mod Mounts
pub mod Networks
pub mod Settings
pub mod Whole
pub mod Order
use libvirt_sandbox.Base.{
  ℕ, zero, suc, ◌+◌, ◌≤◌, ◌≡◌, ◌≢◌, refl, ap, ap₂, sym, ◌∙◌, List, [], ◌∷◌, ◌++◌, map, length,
  arith,
}
use libvirt_sandbox.Config.Load.{Loaded, found, absent, load_while, load_each}
use libvirt_sandbox.Config.Save.{save_each}
use libvirt_sandbox.Result.{Result, ok, ◌>>=◌}
use mathlib.Core.List.{append_assoc, append-nil}

abbrev pub All {ℓ} : {A : Type ℓ} → (A → Type 0) → List A → Type 0
All P [] = Unit
All P (a ∷ l) = P a × All P l

-- Two lists of one length, related position by position.
pub data Pairwise {ℓ κ} {A : Type ℓ} {B : Type κ} (R : A → B → Type 0)
    : List A → List B → Type (ℓ ⊔ κ) where
  nil : Pairwise R [] []
  cons :
      {a : A} {b : B} {l : List A} {m : List B}
      → R a b
      → Pairwise R l m
      → Pairwise R (a ∷ l) (b ∷ m)

pub Pairwise-eq : {A : Type 0} {l m : List A} → Pairwise {A = A} ◌≡◌ l m → l ≡ m
Pairwise-eq nil = refl
Pairwise-eq (cons e r) = ap₂ ◌∷◌ e (Pairwise-eq r)

pub Pairwise-map :
    {A B : Type 0} (h : A → B) {l : List A} {m : List B}
    → Pairwise {A = A} {B = B} (λ a b. b ≡ h a) l m
    → m ≡ map h l
Pairwise-map h nil = refl
Pairwise-map h (cons e r) = ap₂ ◌∷◌ e (Pairwise-map h r)

abbrev pub add_all {ℓ κ} : {B : Type ℓ} {C : Type κ} → (B → C → C) → List B → C → C
add_all add [] c = c
add_all add (b ∷ bs) c = add_all add bs (add b c)

-- What no round of a loop changes.
pub save_each_keeps {ℓ κ} :
    {A : Type ℓ} {F : Type 0} {X : Type κ} (save : ℕ → A → F → F) (x : F → X)
    → ((i : ℕ) (a : A) (f : F) → x (save i a f) ≡ x f)
    → (i : ℕ) (l : List A) (f : F) → x (save_each save i l f) ≡ x f
unfolding save_each
save_each_keeps save x keep i [] f = refl
save_each_keeps save x keep i (a ∷ l) f =
    save_each_keeps save x keep (suc i) l (save i a f) ∙ keep i a f

-- `view` is what the loading of the object `i` reads of a file, `void` where there is nothing.
module _ {ℓ κ μ} {A : Type ℓ} {B : Type κ} {V : Type μ} {F : Type 0} (save : ℕ → A → F → F)
    (view : F → ℕ → V) (void : V) (from : V → Loaded B) (Fits : A → Type 0) (R : A → B → Type 0)
    (other : (i j : ℕ) (a : A) (f : F) → i ≢ j → view (save i a f) j ≡ view f j)
    (empty : from void ≡ absent)
    (reads : (i : ℕ) (a : A) (f : F)
      → Fits a
      → view f i ≡ void
      → (b : B) × (from (view (save i a f) i) ≡ found b) × R a b) where
  save_each_before :
      (i j : ℕ) (l : List A) (f : F) → suc j ≤ i → view (save_each save i l f) j ≡ view f j
  unfolding save_each
  save_each_before i j [] f h = refl
  save_each_before i j (a ∷ l) f h =
      save_each_before (suc i) j l (save i a f) (omega arith) ∙ other i j a f (ground arith)

  -- From the index `i` on, `file` shows what the loop has saved, and nothing was there before.
  pub record IsSaved (file : F) (i : ℕ) (l : List A) (f : F) : Type (ℓ ⊔ μ) where
    pub shows : (k : ℕ) → i ≤ k → view file k ≡ view (save_each save i l f) k
    pub unused : (k : ℕ) → i ≤ k → view f k ≡ void

  further :
      {file : F} {i : ℕ} {a : A} {l : List A} {f : F}
      → IsSaved file i (a ∷ l) f
      → IsSaved file (suc i) l (save i a f)
  unfolding save_each
  further {i} {a} {f} s = record {
    shows = λ k h. s.shows k (omega arith);
    unused = λ k h. other i k a f (ground arith) ∙ s.unused k (omega arith);
  }

  first :
      {file : F} {i : ℕ} {a : A} {l : List A} {f : F}
      → IsSaved file i (a ∷ l) f
      → Fits a
      → (b : B) × (from (view file i) ≡ found b) × R a b
  unfolding save_each
  first {i} {a} {l} {f} s fits =
      let (b, e, r) = reads i a f fits (s.unused i (omega arith)) in
      (
        b,
        ap from (s.shows i (omega arith) ∙ save_each_before (suc i) i l (save i a f) (omega arith))
            ∙ e,
        r,
      )

  none_left :
      {file : F} {i : ℕ} {f : F}
      → IsSaved file i [] f
      → (k : ℕ) → i ≤ k
      → from (view file k) ≡ absent
  unfolding save_each
  none_left s k h = ap from (s.shows k h ∙ s.unused k h) ∙ empty

  nothing_added :
      {C : Type 0} (add : B → C → C) (n : ℕ) {file : F} {i : ℕ} {f : F}
      → IsSaved file i [] f
      → (k : ℕ) → i ≤ k
      → (c : C) → load_each (λ j. from (view file j)) add n k c ≡ ok c
  unfolding load_each
  nothing_added add zero s k h c = refl
  nothing_added add (suc n) s k h c =
      rw (none_left s k h) (nothing_added add n s (suc k) (omega arith) c)

  -- The loop over all indices adds what corresponds to the saved objects, in their order.
  pub load_each-save_each :
      {C : Type 0} (add : B → C → C) (n : ℕ) {file : F} {i : ℕ} (l : List A) {f : F}
      → IsSaved file i l f
      → All Fits l
      → length l ≤ n
      → (m : List B) × Pairwise R l m
        × ((c : C) → load_each (λ j. from (view file j)) add n i c ≡ ok (add_all add m c))
  unfolding load_each
  load_each-save_each add n {i} [] s fits h = ([], nil, nothing_added add n s i (omega arith))
  load_each-save_each add zero (a ∷ l) s fits h = absurd (omega arith)
  load_each-save_each add (suc n) (a ∷ l) s fits h =
      let (b, e, r) = first s fits.0 in
      let (m, rs, later) = load_each-save_each add n l (further s) fits.1 (omega arith) in
      (b ∷ m, cons r rs, λ c. rw e (later (add b c)))

  -- The loop that ends at the first gap collects them.
  pub load_while-save_each :
      (n : ℕ) {file : F} {i : ℕ} (l : List A) {f : F}
      → IsSaved file i l f
      → All Fits l
      → length l ≤ n
      → (m : List B) × Pairwise R l m
        × ((done : List B) → load_while (λ j. from (view file j)) n i done ≡ found (done ++ m))
  unfolding load_while
  load_while-save_each zero [] s fits h = ([], nil, λ done. ap found (sym (append-nil done)))
  load_while-save_each (suc n) {i} [] s fits h =
      ([], nil, λ done. rw (none_left s i (omega arith), append-nil) refl)
  load_while-save_each zero (a ∷ l) s fits h = absurd (omega arith)
  load_while-save_each (suc n) (a ∷ l) s fits h =
      let (b, e, r) = first s fits.0 in
      let (m, rs, later) = load_while-save_each n l (further s) fits.1 (omega arith) in
      (
        b ∷ m,
        cons r rs,
        λ done. rw e (later (done ++ (b ∷ [])) ∙ ap found (append_assoc done (b ∷ []) m)),
      )

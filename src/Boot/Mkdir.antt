-- ===== src/Boot/Mkdir.antt =====
-- The recursion between mount_mkdir and mount_mkparent, as calls in their order.
use libvirt_sandbox.Base.{
  ℕ, zero, suc, ◌<◌, ◌≡◌, refl, Bool, true, false, Option, some, none, List, [], ◌∷◌, ◌++◌, Bytes,
  length, arith, Bool-cases, inl, inr, if◌then◌else◌, Option-cases, ◌||◌,
}
use libvirt_sandbox.Config.Text.{equal}
use libvirt_sandbox.Config.Text.Laws.{equal_refl}
use libvirt_sandbox.Boot.{Call, mkdir, parent, mkdirs, mount_mkdir}

parent_shorter : (s p : Bytes) → parent s ≡ some p → length p < length s
unfolding parent
parent_shorter [] p e = ground arith
parent_shorter (c ∷ s) p e = elim (Option-cases (parent s)) [
  | inl n ↦ ground (arith, n)
  | inr (q, k) ↦ ground (arith, k, parent_shorter s q k)
]

has : List Bytes → Bytes → Bool
unfolding equal
has [] dir = false
has (d ∷ made) dir = equal d dir || has made dir

made_first : (dir : Bytes) (made : List Bytes) → has (dir ∷ made) dir ≡ true
unfolding has
made_first dir made = rw (equal_refl dir) refl

-- A directory is there, or is `/` or the working directory.
abbrev there : List Bytes → Option Bytes → Bool
there made none = true
there made (some []) = true
there made (some (c ∷ p)) = has made (c ∷ p)

-- The directories after the calls of mkdir, the last one first, where a mkdir without its parent
-- fails.
pub make_all : List Bytes → List Call → Option (List Bytes)
unfolding parent
make_all made [] = some made
make_all made (mkdir dir mode ∷ calls) =
    let rest = make_all (dir ∷ made) calls in if there made (parent dir) then rest else none
make_all made (_ ∷ calls) = make_all made calls

make_all-parent :
    (dir : Bytes) (made : List Bytes) (calls : List Call) (mode : ℕ) (all : List Bytes)
    → there all (parent dir) ≡ true
    → make_all made calls ≡ some all
    → make_all made (calls ++ (mkdir dir mode ∷ [])) ≡ some (dir ∷ all)
unfolding make_all
make_all-parent dir made [] mode all h e = ground arith
make_all-parent dir made (mkdir d m ∷ calls) mode all h e =
    elim (Bool-cases (there made (parent d))) [
      | inl ready ↦
          let e' : make_all (d ∷ made) calls ≡ some all = ground (arith, ready, e) in
          ground (arith, ready, make_all-parent dir (d ∷ made) calls mode all h e')
      | inr early ↦ ground (arith, early, e)
    ]
make_all-parent dir made (_ ∷ calls) mode all h e = make_all-parent dir made calls mode all h e

make_all-mkdirs :
    (fuel : ℕ) (dir : Bytes) (mode : ℕ) (made : List Bytes)
    → length dir < fuel
    → (all : List Bytes) × (make_all made (mkdirs fuel dir mode) ≡ some (dir ∷ all))
unfolding mkdirs make_all
make_all-mkdirs zero dir mode made h = absurd (omega arith)
make_all-mkdirs (suc fuel) dir mode made h = elim (Option-cases (parent dir)) [
  | inl n ↦ (made, rw (n, mkdirs) (ground (arith, n)))
  | inr ([], k) ↦ (made, rw (k, mkdirs) (ground (arith, k)))
  | inr (c ∷ p, k) ↦
      let few = parent_shorter dir (c ∷ p) k in
      let (all, e) = make_all-mkdirs fuel (c ∷ p) 493 made (omega arith) in
      let is_there : there ((c ∷ p) ∷ all) (parent dir) ≡ true = rw k (made_first (c ∷ p) all) in
      (
        (c ∷ p) ∷ all,
        rw (k, mkdirs)
            (make_all-parent dir made (mkdirs fuel (c ∷ p) 493) mode ((c ∷ p) ∷ all) is_there e),
      )
]

-- mount_mkdir makes each directory behind its parent: with a mkdir that fails where the parent is
-- not there, all its calls of mkdir succeed, whatever directories there are, and the last one
-- makes the path itself.
pub make_all-mount_mkdir :
    (dir : Bytes) (mode : ℕ) (made : List Bytes)
    → (all : List Bytes) × (make_all made (mount_mkdir dir mode) ≡ some (dir ∷ all))
unfolding mount_mkdir
make_all-mount_mkdir dir mode made = make_all-mkdirs (suc (length dir)) dir mode made (omega arith)

-- ===== src/Config/MountOptions/Ram.antt =====
-- The size of a RAM mount: decimals with a unit, computed in a `gint`.
use libvirt_sandbox.Base.{
  ℕ, ◌-◌, ◌*◌, ◌%◌, ◌^◌, ◌<◌, ◌≤◌, ◌≡◌, refl, ap, ◌∙◌, ◌≢◌, ◌⊎◌, inl, inr, [], ◌∷◌, ◌++◌, Bytes,
  arith, ltb, Bool-cases, u32_mod, u64_mod,
}
use libvirt_sandbox.Result.{ok}
use libvirt_sandbox.Config.{Config, ram}
use libvirt_sandbox.Config.External.{Glib}
use libvirt_sandbox.Config.MountOptions.{
  ram_type, add_typed, add_mount_opts, add_mount, mount_new, scaled,
}
use libvirt_sandbox.Config.MountOptions.Abbreviated.{
  mount_text, ram_named, add_mount_opts-add_typed,
}
use libvirt_sandbox.Config.Text.{codes, equal, print, extend}
use libvirt_sandbox.Config.Text.Decimals.{StartsNoDigit, strtol-print}
use libvirt_sandbox.Config.Text.Laws.{Lacks}

-- The documented units.
pub data Suffix : Type 0 where
  bytes kib mib gib : Suffix

abbrev pub suffix : Suffix → Bytes
suffix bytes = []
suffix kib = codes "K"
suffix mib = codes "M"
suffix gib = codes "G"

abbrev pub factor : Suffix → ℕ
factor bytes = 1
factor kib = 1024
factor mib = 1024 * 1024
factor gib = 1024 * 1024 * 1024

scaled-suffix : (n : ℕ) (u : Suffix) → n < 2 ^ 31 → scaled (n, suffix u) ≡ (n * factor u) % u32_mod
unfolding scaled equal
scaled-suffix n bytes h = omega arith
scaled-suffix n kib h = omega arith
scaled-suffix n mib h = omega arith
scaled-suffix n gib h = omega arith

suffix_no_digit : (u : Suffix) → StartsNoDigit (suffix u)
suffix_no_digit bytes = tt
suffix_no_digit kib = refl
suffix_no_digit mib = refl
suffix_no_digit gib = refl

-- A size is kept exactly when it fits a `gint`.
extend_cases :
    (x : ℕ)
    → x < u64_mod - u32_mod
    → ((x < 2 ^ 31) × (extend (x % u32_mod) ≡ x)) ⊎ ((2 ^ 31 ≤ x) × (extend (x % u32_mod) ≢ x))
extend_cases x h = elim (Bool-cases (ltb x (2 ^ 31))) [
  | inl small ↦ inl (ground arith, ground arith)
  | inr large ↦ inr (ground arith, ground arith)
]

product_fits : (n : ℕ) (u : Suffix) → n < 2 ^ 31 → n * factor u < u64_mod - u32_mod
product_fits n bytes h = omega arith
product_fits n kib h = omega arith
product_fits n mib h = omega arith
product_fits n gib h = omega arith

abbrev pub size_of : ℕ → Suffix → ℕ
size_of n u = extend ((n * factor u) % u32_mod)

module _ (g : Glib) where
  add_ram :
      (target : Bytes) (n : ℕ) (u : Suffix) (c : Config g)
      → n < 2 ^ 31
      → add_typed g ram_type target (print n (suffix u)) c
        ≡ ok (add_mount g (mount_new g (ram (size_of n u)) target) c)
  unfolding add_typed
  add_ram target n u c h =
      let read = strtol-print n (suffix u) (suffix_no_digit u) (omega arith) in
      let size = ap scaled read ∙ scaled-suffix n u h in
      ap (λ k. ok (add_mount g (mount_new g (ram (extend k)) target) c)) size

  -- `ram:TARGET=SIZE`, where the target has no `=` and the size is a decimal below 2^31 with no unit
  -- or one of K, M and G, adds a RAM mount with the target, and with a usage that is the size in
  -- bytes if this one is below 2^31, and is not if it is 2^31 or more.
  pub add_mount_opts_ram :
      (target : Bytes) (n : ℕ) (u : Suffix) (c : Config g)
      → Lacks b'=' target
      → n < 2 ^ 31
      → (size : ℕ) × (add_mount_opts g (mount_text (codes "ram") target (print n (suffix u))) c
          ≡ ok (record c { mounts = c.mounts ++ (mount_new g (ram size) target ∷ []) }))
        × (((n * factor u < 2 ^ 31) × (size ≡ n * factor u))
            ⊎ ((2 ^ 31 ≤ n * factor u) × (size ≢ n * factor u)))
  add_mount_opts_ram target n u c ht h = (
    size_of n u,
    add_mount_opts-add_typed g (codes "ram") target (print n (suffix u)) ram_type c (omega arith) ht
          ram_named
        ∙ add_ram target n u c h,
    extend_cases (n * factor u) (product_fits n u h),
  )

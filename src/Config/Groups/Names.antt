-- ===== src/Config/Groups/Names.antt =====
-- The names of groups, read back.
use libvirt_sandbox.Base.{
  ℕ, ◌≡◌, ◌≢◌, refl, ap, sym, ◌∙◌, false, Option, none, some, [], ◌∷◌, ◌++◌, Bytes, Bool-cases, inl,
  inr,
}
use libvirt_sandbox.Config.Groups.{
  Group, api, core, identity, security, mount, env, disk, network, mount_include, network_address,
  network_route, group_name,
}
use libvirt_sandbox.Config.Text.{codes, equal, strip_prefix, scan, print}
use libvirt_sandbox.Config.Text.Decimals.{scan-print}
use libvirt_sandbox.Config.Text.Laws.{equal→eq}

-- A decimal that ends the text, with what the text is ahead of it.
abbrev indexed : (ℕ → Group) → ℕ × Bytes → Group
indexed f (n, _) = f n

nested : (ℕ → Group) → (ℕ → Group) → Option Bytes → Group
unfolding scan
nested f h none = f 0
nested f h (some s) = indexed h (scan s 0)

under_mount : ℕ × Bytes → Group
unfolding nested strip_prefix
under_mount (i, []) = mount i
under_mount (i, c ∷ s) = nested mount (mount_include i) (strip_prefix (codes ".include.") (c ∷ s))

under_network : ℕ × Bytes → Group
unfolding nested strip_prefix
under_network (i, []) = network i
under_network (i, c ∷ s) = elim (strip_prefix (codes ".address.") (c ∷ s)) [
  | some t ↦ nested network (network_address i) (some t)
  | none ↦ nested network (network_route i) (strip_prefix (codes ".route.") (c ∷ s))
]

abbrev first_of : (Bytes → Group) → Option Bytes → Group → Group
first_of f (some s) d = f s
first_of f none d = d

read_name : Bytes → Group
unfolding strip_prefix scan under_mount under_network
read_name s =
    first_of (λ t. under_mount (scan t 0)) (strip_prefix (codes "mount.") s)
      (first_of (λ t. under_network (scan t 0)) (strip_prefix (codes "network.") s)
        (first_of (λ t. indexed env (scan t 0)) (strip_prefix (codes "env.") s)
          (first_of (λ t. indexed disk (scan t 0)) (strip_prefix (codes "disk.") s)
            (first_of (λ t. identity) (strip_prefix (codes "identity") s)
              (first_of (λ t. core) (strip_prefix (codes "core") s)
                (first_of (λ t. security) (strip_prefix (codes "security") s) api))))))

read_name-group_name : (a : Group) → read_name (group_name a) ≡ a
unfolding read_name group_name strip_prefix under_mount under_network nested
read_name-group_name api = refl
read_name-group_name core = refl
read_name-group_name identity = refl
read_name-group_name security = refl
read_name-group_name (mount i) = rw (scan-print i [] tt) refl
read_name-group_name (env i) = rw (scan-print i [] tt) refl
read_name-group_name (disk i) = rw (scan-print i [] tt) refl
read_name-group_name (network i) = rw (scan-print i [] tt) refl
read_name-group_name (mount_include i j) =
    rw (scan-print i (codes ".include." ++ print j []) refl) (rw (scan-print j [] tt) refl)
read_name-group_name (network_address i j) =
    rw (scan-print i (codes ".address." ++ print j []) refl) (rw (scan-print j [] tt) refl)
read_name-group_name (network_route i j) =
    rw (scan-print i (codes ".route." ++ print j []) refl) (rw (scan-print j [] tt) refl)

-- Two groups of a configuration never have the same name.
pub group_name_inj : (a b : Group) → group_name a ≡ group_name b → a ≡ b
group_name_inj a b e = sym (read_name-group_name a) ∙ ap read_name e ∙ read_name-group_name b

pub equal_other : (a b : Group) → a ≢ b → equal (group_name a) (group_name b) ≡ false
equal_other a b other = elim (Bool-cases (equal (group_name a) (group_name b))) [
  | inl e ↦ absurd (other (group_name_inj a b (equal→eq (group_name a) (group_name b) e)))
  | inr e ↦ e
]

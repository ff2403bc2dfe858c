-- ===== src/Setup/Identity.antt =====
-- What change_user leaves of the process, in either build.
use libvirt_sandbox.Base.{ℕ, ◌≡◌, ◌⊎◌, Bool, true, false, some, [], Bytes, if◌then◌else◌}
use libvirt_sandbox.Config.External.{assoc}
use libvirt_sandbox.Config.Text.{codes}
use libvirt_sandbox.Setup.User.{
  Process, Grants, Build, have_capng, no_capng, change_id, set_variable,
}

-- What capng_change_id, after capng_clear, leaves of the process: the flag for the supplementary groups decides on
-- them, and a failure comes ahead of the change of the user, or after everything has been changed.
-- It sets neither variables nor the directory.
abbrev pub IsIdChanged : ℕ → ℕ → Bool → Process → Process × Bool → Type 0
IsIdChanged uid gid drop_groups p0 (p, done) =
    (p.env ≡ p0.env)
    × ((p.cwd ≡ p0.cwd)
        × (((done ≡ false) × (p.uid ≡ p0.uid))
            ⊎ ((p.uid ≡ uid)
                × ((p.gid ≡ gid) × (p.groups ≡ (if drop_groups then [] else p0.groups))))))

abbrev pub IsBuild : Build → Type 0
IsBuild no_capng = Unit
IsBuild (have_capng k initial) =
    (s : k.State) (uid gid : ℕ) (drop_groups clear_bounding : Bool) (p : Process)
    → IsIdChanged uid gid drop_groups p
        (k.change_id (k.clear s) uid gid drop_groups clear_bounding p)

-- A variable that setenv sets, or that is as before where it fails.
abbrev Variable : Grants → Bytes → Bytes → Process → Process → Type 0
Variable a k v p0 p = assoc k p.env ≡ (if a.setenv k then some v else assoc k p0.env)

-- The process runs as the user alone.
pub record IsUser (uid gid : ℕ) (p : Process) : Type 0 where
  pub no_groups : p.groups ≡ []
  pub has_gid : p.gid ≡ gid
  pub has_uid : p.uid ≡ uid

-- Where the call fails, the user is still the old one, or the identity is changed and something
-- later failed.
abbrev Identity : ℕ → ℕ → Bytes → Process → Process × Bool → Type 0
Identity uid gid home p0 (p, true) = IsUser uid gid p × ((p.cwd ≡ home) ⊎ (p.cwd ≡ codes "/"))
Identity uid gid home p0 (p, false) = (p.cwd ≡ p0.cwd) × ((p.uid ≡ p0.uid) ⊎ IsUser uid gid p)

pub record IsChanged (a : Grants) (user : Bytes) (uid gid : ℕ) (home : Bytes) (p0 : Process)
    (r : Process × Bool) : Type 0 where
  pub identity : Identity uid gid home p0 r
  pub home_set : Variable a (codes "HOME") home p0 r.0
  pub user_set : Variable a (codes "USER") user p0 r.0
  pub username_set : Variable a (codes "USERNAME") user p0 r.0
  pub logname_set : Variable a (codes "LOGNAME") user p0 r.0

-- The four variables that change_user sets.
module _ (a : Grants) (user home : Bytes) (p : Process) where
  abbrev p1 : Process
  p1 = set_variable a (codes "HOME") home p

  abbrev p2 : Process
  p2 = set_variable a (codes "USER") user p1

  abbrev p3 : Process
  p3 = set_variable a (codes "USERNAME") user p2

-- ===== src/Setup/User.antt =====
-- setup_custom_env and change_user of libvirt-sandbox-init-common.c: the environment and the identity
-- of the process.
use libvirt_sandbox.Base.{ℕ, Bool, true, false, not, List, [], ◌∷◌, Bytes, if◌then◌else◌}
use libvirt_sandbox.Config.{Config}
use libvirt_sandbox.Config.External.{Glib}
use libvirt_sandbox.Config.Text.{codes, equal}

-- The environment of the process, the newest entry of a name first.
abbrev pub Environ : Type 0
Environ = List (Bytes × Bytes)

-- `accepts` says which calls of setenv succeed.
unfoldable pub set_all : (Bytes → Bytes → Bool) → List (Bytes × Bytes) → Environ → Environ × Bool
set_all accepts [] env = (env, true)
set_all accepts ((k, v) ∷ es) env =
    let rest = set_all accepts es ((k, v) ∷ env) in if accepts k v then rest else (env, false)

unfoldable pub setup_custom_env :
    (g : Glib) → (Bytes → Bytes → Bool) → Config g → Environ → Environ × Bool
unfolding set_all
setup_custom_env g accepts c env = set_all accepts (g.entries c.envs) env

pub record Process : Type 0 where
  pub groups : List ℕ
  pub gid : ℕ
  pub uid : ℕ
  pub env : Environ
  pub cwd : Bytes

-- libcap-ng: the library keeps capabilities in a state of its own. The flags of `change_id` are
-- CAPNG_DROP_SUPP_GRP and CAPNG_CLEAR_BOUNDING, and its Boolean is whether 0 is returned.
pub record Capng : Type 1 where
  pub State : Type 0
  -- capng_clear(CAPNG_SELECT_BOTH)
  pub clear : State → State
  pub change_id : State → ℕ → ℕ → (drop_groups clear_bounding : Bool) → Process → Process × Bool

-- Whether HAVE_CAPNG is defined.
pub data Build : Type 1 where
  have_capng : (k : Capng) → k.State → Build
  no_capng : Build

-- Which of the calls of change_user succeed; setenv by the name.
pub record Grants : Type 0 where
  pub setenv : Bytes → Bool
  pub setgroups : Bool
  pub setregid : Bool
  pub setreuid : Bool
  pub chdir_home : Bool
  pub chdir_root : Bool

unfoldable pub enter_home : Grants → Bytes → Process → Process × Bool
enter_home a home p =
    if a.chdir_home
    then (record p { cwd = home }, true)
    else if a.chdir_root
    then (record p { cwd = codes "/" }, true)
    else (p, false)

-- The result of setenv is not looked at.
unfoldable pub set_variable : Grants → Bytes → Bytes → Process → Process
set_variable a k v p = if a.setenv k then record p { env = (k, v) ∷ p.env } else p

unfoldable pub with_user : Grants → Bytes → Bytes → Process → Process
unfolding set_variable
with_user a user home p = set_variable a (codes "LOGNAME") user (
    set_variable a (codes "USERNAME") user
      (set_variable a (codes "USER") user (set_variable a (codes "HOME") home p)))

abbrev pub then_home : Grants → Bytes → Process × Bool → Process × Bool
then_home a home (p, true) = enter_home a home p
then_home a home (p, false) = (p, false)

unfoldable pub change_id : Build → Grants → ℕ → ℕ → Process → Process × Bool
change_id (have_capng k s) a uid gid p = k.change_id (k.clear s) uid gid true true p
change_id no_capng a uid gid p =
    if not a.setgroups
    then (p, false)
    else if not a.setregid
    then (record p { groups = [] }, false)
    else if not a.setreuid
    then (record p { groups = []; gid = gid }, false)
    else (record p { groups = []; gid = gid; uid = uid }, true)

-- The Boolean is whether 0 is returned.
unfoldable pub change_user : Build → Grants → Bytes → ℕ → ℕ → Bytes → Process → Process × Bool
unfolding equal with_user change_id enter_home
change_user build a user uid gid home p =
    if equal user (codes "root")
    then (p, true)
    else then_home a home (change_id build a uid gid (with_user a user home p))

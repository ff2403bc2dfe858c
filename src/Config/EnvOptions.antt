-- ===== src/Config/EnvOptions.antt =====
-- The environment variables of libvirt-sandbox-config.c: add_env, add_env_opts, add_env_strv.
pub mod Latest
use libvirt_sandbox.Base.{Option, none, some, List, Bytes}
use libvirt_sandbox.Result.{Result, ok, err, each, wrong_environment_format}
use libvirt_sandbox.Config.{Config}
use libvirt_sandbox.Config.External.{Glib}
use libvirt_sandbox.Config.Text.{cut}

module _ (g : Glib) where
  abbrev pub add_env : Bytes → Bytes → Config g → Config g
  add_env k v c = record c { envs = g.insert k v c.envs }

  unfoldable pub add_env_opts : Bytes → Config g → Result (Config g)
  unfolding cut
  add_env_opts s c = elim (cut b'=' s) [
    | none ↦ err (wrong_environment_format s) c
    | some (k, v) ↦ ok (add_env k v c)
  ]

  unfoldable pub add_env_strv : List Bytes → Config g → Result (Config g)
  unfolding each add_env_opts
  add_env_strv = each add_env_opts

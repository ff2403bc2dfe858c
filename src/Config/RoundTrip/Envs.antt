-- ===== src/Config/RoundTrip/Envs.antt =====
-- Environment variables.
use libvirt_sandbox.Base.{ℕ, ◌≡◌, refl, true, Bytes, arith, if◌then◌else◌}
use libvirt_sandbox.Config.External.{Glib, value, no_group, in_group, IsKeyFile}
use libvirt_sandbox.Config.Groups.{env}
use libvirt_sandbox.Config.KeyFile.{Reader, reader, string_in}
use libvirt_sandbox.Config.KeyFile.Frame.{reader-set_raw, string_own}
use libvirt_sandbox.Config.Load.{found, absent, env_from}
use libvirt_sandbox.Config.Save.{save_config_env}
use libvirt_sandbox.Config.Text.{codes, equal}

abbrev pub nothing : Reader
nothing key = no_group

module _ (g : Glib) where
  abbrev pub IsEnvText : Bytes × Bytes → Type 0
  IsEnvText (k, v) = (g.is_utf8 k ≡ true) × (g.is_utf8 v ≡ true)

  env_from_found :
      (r : Reader) (k v : Bytes)
      → string_in g r (codes "key") ≡ value k
      → string_in g r (codes "value") ≡ value v
      → env_from g r ≡ found (k, v)
  unfolding env_from
  env_from_found r k v e1 e2 = ground (arith, e1, e2)

  pub env_absent : env_from g nothing ≡ absent
  unfolding env_from
  env_absent = refl

  module _ (laws : IsKeyFile g) where
    env_shows :
        (i : ℕ) (k v : Bytes) (f : g.KeyFile) (key : Bytes)
        → reader g (env i) (save_config_env g i (k, v) f) key ≡ (
            if equal (codes "value") key
            then value (g.of_string v)
            else in_group (
                if equal (codes "key") key
                then value (g.of_string k)
                else in_group (reader g (env i) f key)))
    unfolding save_config_env
    env_shows i k v f key = rw (reader-set_raw laws, reader-set_raw laws) refl

    pub env_reads :
        (i : ℕ) (e : Bytes × Bytes) (f : g.KeyFile)
        → IsEnvText e
        → env_from g (reader g (env i) (save_config_env g i e f)) ≡ found e
    unfolding equal
    env_reads i (k, v) f fits =
        let r = reader g (env i) (save_config_env g i (k, v) f) in
        let at = env_shows i k v f in
        env_from_found r k v (string_own laws r (codes "key") k fits.0 (at (codes "key")))
          (string_own laws r (codes "value") v fits.1 (at (codes "value")))

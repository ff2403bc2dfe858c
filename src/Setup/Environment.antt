-- ===== src/Setup/Environment.antt =====
-- The variables of a configuration in the environment of the process.
use libvirt_sandbox.Base.{
  ◌≡◌, ap, ◌∙◌, Option, some, none, true, List, [], ◌∷◌, map, Bytes, arith, Bool,
}
use libvirt_sandbox.Config.{Config}
use libvirt_sandbox.Config.EnvOptions.{add_env_strv}
use libvirt_sandbox.Config.EnvOptions.Latest.{latest, assignment, AreNames, add_env_strv-latest}
use libvirt_sandbox.Config.External.{Glib, IsTable, assoc, once}
use libvirt_sandbox.Config.Text.Laws.{equal→eq}
use libvirt_sandbox.Result.{ok}
use libvirt_sandbox.Setup.User.{Environ, set_all, setup_custom_env}

-- A value, or the one that was there.
abbrev pub or_else : Option Bytes → Option Bytes → Option Bytes
or_else none d = d
or_else (some v) d = some v

set_all-assoc :
    (accepts : Bytes → Bytes → Bool) (es : List (Bytes × Bytes)) (env env' : Environ) (k : Bytes)
    → once es ≡ true
    → set_all accepts es env ≡ (env', true)
    → assoc k env' ≡ or_else (assoc k es) (assoc k env)
unfolding set_all assoc once
set_all-assoc accepts [] env env' k h e = ground (arith, e)
set_all-assoc accepts ((j, v) ∷ es) env env' k h e =
    let e' : set_all accepts es ((j, v) ∷ env) ≡ (env', true) = ground (arith, e) in
    let h' : once es ≡ true = ground (arith, h) in
    ground (arith, h, set_all-assoc accepts es ((j, v) ∷ env) env' k h' e', equal→eq j k)

module _ (g : Glib) where
  -- Where add_env_strv accepts assignments NAME=VALUE, whose names have no `=`, and
  -- setup_custom_env succeeds on the resulting configuration, each variable of the process has the
  -- value of its last assignment, else the one that the configuration had, else the one that the
  -- process had.
  pub setup_custom_env-add_env_strv :
      IsTable g
      → (accepts : Bytes → Bytes → Bool) (es : List (Bytes × Bytes)) (c : Config g)
      → (env env' : Environ) (k : Bytes) → AreNames es
      → (c' : Config g) → add_env_strv g (map assignment es) c ≡ ok c'
      → setup_custom_env g accepts c' env ≡ (env', true)
      → assoc k env' ≡ or_else (latest k es (g.lookup k c.envs)) (assoc k env)
  unfolding setup_custom_env
  setup_custom_env-add_env_strv t accepts es c env env' k names c' e set =
      let (c'', e', same, found) = add_env_strv-latest g t es c names in
      let eq : c' ≡ c'' = ground (arith, e, e') in
      set_all-assoc accepts (g.entries c'.envs) env env' k (t.once-entries c'.envs) set
      ∙ ap (λ x. or_else x (assoc k env))
          (t.assoc-entries k c'.envs ∙ ap (λ x. g.lookup k x.envs) eq ∙ found k)

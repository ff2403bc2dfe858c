-- ===== src/Config/EnvOptions/Latest.antt =====
-- The table of environment variables behind a sequence of options.
use libvirt_sandbox.Base.{
  ◌≡◌, refl, ap, ◌∙◌, Option, some, List, [], ◌∷◌, ◌++◌, map, Bytes, if◌then◌else◌,
}
use libvirt_sandbox.Result.{ok, err, each, each-append, wrong_environment_format}
use libvirt_sandbox.Config.{Config}
use libvirt_sandbox.Config.EnvOptions.{add_env, add_env_opts, add_env_strv}
use libvirt_sandbox.Config.External.{Glib, IsTable}
use libvirt_sandbox.Config.Text.{equal}
use libvirt_sandbox.Config.Text.Laws.{Lacks, cut-append, cut_lacking}

-- The abstract view of an environment: what the last of the assignments to the variable gives it,
-- and what it was before where there is none.
abbrev pub latest : Bytes → List (Bytes × Bytes) → Option Bytes → Option Bytes
latest k [] d = d
latest k ((j, v) ∷ es) d = latest k es (if equal j k then some v else d)

abbrev pub assignment : Bytes × Bytes → Bytes
assignment (k, v) = k ++ (b'=' ∷ v)

abbrev pub AreNames : List (Bytes × Bytes) → Type 0
AreNames [] = Unit
AreNames ((k, v) ∷ es) = Lacks b'=' k × AreNames es

module _ (g : Glib) where
  abbrev pub after : List (Bytes × Bytes) → Config g → Config g
  after [] c = c
  after ((k, v) ∷ es) c = after es (add_env g k v c)

  add_env_opts-assignment :
      (k v : Bytes) (c : Config g)
      → Lacks b'=' k
      → add_env_opts g (assignment (k, v)) c ≡ ok (add_env g k v c)
  unfolding add_env_opts
  add_env_opts-assignment k v c h = rw (cut-append b'=' k v h, add_env_opts) refl

  add_env_opts_lacking :
      (s : Bytes) (c : Config g)
      → Lacks b'=' s
      → add_env_opts g s c ≡ err (wrong_environment_format s) c
  unfolding add_env_opts
  add_env_opts_lacking s c h = rw (cut_lacking b'=' s h, add_env_opts) refl

  add_env_strv-after :
      (es : List (Bytes × Bytes)) (c : Config g)
      → AreNames es
      → each (add_env_opts g) (map assignment es) c ≡ ok (after es c)
  unfolding each
  add_env_strv-after [] c h = refl
  add_env_strv-after ((k, v) ∷ es) c h =
      rw (add_env_opts-assignment k v c h.0) (add_env_strv-after es _ h.1)

  lookup-after :
      IsTable g
      → (es : List (Bytes × Bytes)) (c : Config g) (k : Bytes)
      → g.lookup k (after es c).envs ≡ latest k es (g.lookup k c.envs)
  lookup-after t [] c k = refl
  lookup-after t ((j, v) ∷ es) c k =
      lookup-after t es (add_env g j v c) k ∙ ap (latest k es) (t.lookup-insert j k v c.envs)

  after_same :
      (es : List (Bytes × Bytes)) (c : Config g)
      → after es c ≡ record c { envs = (after es c).envs }
  after_same [] c = refl
  after_same ((j, v) ∷ es) c = after_same es (add_env g j v c)

  -- Options that are assignments NAME=VALUE, whose names have no `=`, are accepted. The
  -- configuration is otherwise unchanged, and each variable has the value of its last assignment,
  -- or the one that it had where no option assigns it.
  pub add_env_strv-latest :
      IsTable g
      → (es : List (Bytes × Bytes)) (c : Config g) → AreNames es
      → (c' : Config g) × (add_env_strv g (map assignment es) c ≡ ok c')
        × (c' ≡ record c { envs = c'.envs })
        × ((k : Bytes) → g.lookup k c'.envs ≡ latest k es (g.lookup k c.envs))
  unfolding add_env_strv
  add_env_strv-latest t es c h =
      (after es c, add_env_strv-after es c h, after_same es c, lookup-after t es c)

  -- An option without `=` fails with its text, whatever follows it, and the assignments ahead of
  -- it have been made.
  pub add_env_strv_stops :
      (es : List (Bytes × Bytes)) (s : Bytes) (more : List Bytes) (c : Config g)
      → AreNames es
      → Lacks b'=' s
      → add_env_strv g (map assignment es ++ (s ∷ more)) c
        ≡ err (wrong_environment_format s) (after es c)
  unfolding add_env_strv each
  add_env_strv_stops es s more c h lacks =
      each-append (add_env_opts g) (map assignment es) (s ∷ more) c
      ∙ rw (add_env_strv-after es c h, add_env_opts_lacking s (after es c) lacks) refl

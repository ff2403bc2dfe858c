-- ===== src/Config/Includes.antt =====
-- The files to be copied into mounts: add_host_include_strv and add_host_include_file of
-- libvirt-sandbox-config.c, and add_include of libvirt-sandbox-config-mount.c.
pub mod First
use libvirt_sandbox.Base.{Bool, Option, none, some, List, [], ◌∷◌, Bytes, if◌then◌else◌}
use libvirt_sandbox.Result.{Result, ok, err, ◌>>=◌, each, no_mount_with_prefix, read_failed}
use libvirt_sandbox.Config.{Config, Mount}
use libvirt_sandbox.Config.External.{Glib}
use libvirt_sandbox.Config.Text.{strip_prefix, cut}

-- GUEST-TARGET and ROOT-PATH of an option; without `=` they are the same.
unfoldable pub include_paths : Bytes → Bytes × Bytes
unfolding cut
include_paths s = elim (cut b'=' s) [ some (guest, host) ↦ (guest, host) | none ↦ (s, s) ]

module _ (g : Glib) where
  abbrev pub add_include : Bytes → Bytes → Mount g → Mount g
  add_include srcpath dstpath m = record m { includes = g.insert dstpath srcpath m.includes }

  abbrev put_first : Mount g → Option (List (Mount g)) → Option (List (Mount g))
  put_first m none = none
  put_first m (some ms) = some (m ∷ ms)

  -- The include goes to the first mount whose target is a prefix of `guest`.
  unfoldable pub include_into : Bytes → Bytes → List (Mount g) → Option (List (Mount g))
  unfolding strip_prefix
  include_into guest host [] = none
  include_into guest host (m ∷ ms) = elim (strip_prefix m.target guest) [
    | some relguest ↦ some (add_include host relguest m ∷ ms)
    | none ↦ put_first m (include_into guest host ms)
  ]

  unfoldable pub include_at : Bytes × Bytes → Config g → Result (Config g)
  unfolding include_into
  include_at (guest, host) c = elim (include_into guest host c.mounts) [
    | none ↦ err (no_mount_with_prefix guest) c
    | some ms ↦ ok (record c { mounts = ms })
  ]

  unfoldable pub add_host_include : Bytes → Config g → Result (Config g)
  unfolding include_paths include_at
  add_host_include s c = include_at (include_paths s) c

  unfoldable pub add_host_include_strv : List Bytes → Config g → Result (Config g)
  unfolding each add_host_include
  add_host_include_strv = each add_host_include

  -- The answers of GIO: the lines that are read, and whether a read fails behind them; `none` where
  -- the file cannot be opened.
  unfoldable pub add_host_include_file : Option (List Bytes × Bool) → Config g → Result (Config g)
  unfolding each add_host_include
  add_host_include_file none c = err read_failed c
  add_host_include_file (some (lines, broken)) c = do
    c' ← each add_host_include lines c
    if broken then err read_failed c' else ok c'

-- ===== src/Config/Security.antt =====
-- gvir_sandbox_config_set_security_opts of libvirt-sandbox-config.c.
pub mod Modes
use libvirt_sandbox.Base.{Bool, true, false, Option, none, some, Bytes, if◌then◌else◌}
use libvirt_sandbox.Result.{Result, ok, err, ◌>>=◌, unknown_security_option, selinux_context_failed}
use libvirt_sandbox.Config.{Config}
use libvirt_sandbox.Config.External.{Glib}
use libvirt_sandbox.Config.Text.{codes, equal, strip_prefix, cut}

module _ {g : Glib} where
  abbrev pub set_security_label : Bytes → Config g → Config g
  set_security_label label c = record c { sec_label = some label }

  abbrev pub set_security_dynamic : Bool → Config g → Config g
  set_security_dynamic b c = record c { sec_dynamic = b }

  -- `getcon` is the answer of libselinux, `none` where it fails.
  unfoldable pub security_mode : Option Bytes → Bytes → Config g → Result (Config g)
  unfolding equal
  security_mode getcon s c =
      if equal s (codes "dynamic")
      then ok (set_security_dynamic true c)
      else if equal s (codes "static")
      then ok (set_security_dynamic false c)
      else if equal s (codes "inherit")
      then elim getcon [
        | none ↦ err selinux_context_failed (set_security_dynamic false c)
        | some scon ↦ ok (set_security_label scon (set_security_dynamic false c))
      ]
      else err (unknown_security_option s) c

  unfoldable pub security_label : Bytes → Config g → Result (Config g)
  unfolding strip_prefix
  security_label s c = elim (strip_prefix (codes "label=") s) [
    | some label ↦ ok (set_security_label label c)
    | none ↦ err (unknown_security_option s) c
  ]

  unfoldable pub set_security_opts : Option Bytes → Bytes → Config g → Result (Config g)
  unfolding cut security_mode security_label
  set_security_opts getcon s c = elim (cut b',' s) [
    | none ↦ security_mode getcon s c
    | some (mode, offset) ↦ security_mode getcon mode c >>= security_label offset
  ]

-- ===== src/Config/Security/Modes.antt =====
-- The security options in their documented forms.
use libvirt_sandbox.Base.{◌≡◌, refl, Bool, true, false, Option, none, some, ◌∷◌, ◌++◌, Bytes}
use libvirt_sandbox.Result.{ok}
use libvirt_sandbox.Config.{Config}
use libvirt_sandbox.Config.External.{Glib}
use libvirt_sandbox.Config.Security.{security_mode, security_label, set_security_opts}
use libvirt_sandbox.Config.Text.{codes, equal, strip_prefix, cut}

pub data Mode : Type 0 where
  dynamic static inherit : Mode

abbrev pub mode_name : Mode → Bytes
mode_name dynamic = codes "dynamic"
mode_name static = codes "static"
mode_name inherit = codes "inherit"

-- MODE or MODE,label=LABEL
abbrev pub security_text : Mode → Option Bytes → Bytes
security_text m none = mode_name m
security_text m (some label) = mode_name m ++ (b',' ∷ (codes "label=" ++ label))

abbrev pub is_dynamic : Mode → Bool
is_dynamic dynamic = true
is_dynamic _ = false

-- The label that is given, or with `inherit` the one of the process, or the one there was.
abbrev pub label_of : Mode → Option Bytes → Bytes → Option Bytes → Option Bytes
label_of m (some label) con old = some label
label_of inherit none con old = some con
label_of _ none con old = old

module _ {g : Glib} where
  -- With a SELinux context at hand each mode is accepted, with or without a label. The mode says
  -- whether the label is dynamic; the label is the one that is given, or else the context's for
  -- `inherit`, or else as before.
  pub set_security_opts_modes :
      (con : Bytes) (m : Mode) (label : Option Bytes) (c : Config g)
      → set_security_opts (some con) (security_text m label) c
        ≡ ok (record c { sec_dynamic = is_dynamic m; sec_label = label_of m label con c.sec_label })
  unfolding set_security_opts cut security_mode equal security_label strip_prefix
  set_security_opts_modes con dynamic none c = refl
  set_security_opts_modes con dynamic (some l) c = refl
  set_security_opts_modes con static none c = refl
  set_security_opts_modes con static (some l) c = refl
  set_security_opts_modes con inherit none c = refl
  set_security_opts_modes con inherit (some l) c = refl

-- ===== src/Config/RoundTrip/Settings.antt =====
-- The settings: the groups `core`, `identity` and `security`.
use libvirt_sandbox.Base.{
  ℕ, ◌<◌, ◌≡◌, refl, ap, ◌∙◌, true, false, Option, none, some, Bytes, arith, if◌then◌else◌, u32_mod,
  u64_mod,
}
use libvirt_sandbox.Config.{Config}
use libvirt_sandbox.Config.External.{Glib, Lookup, value, no_group, no_key, in_group, IsKeyFile}
use libvirt_sandbox.Config.Groups.{core, identity, security}
use libvirt_sandbox.Config.KeyFile.{Reader, reader, string_in, boolean_in, uint64_in, present}
use libvirt_sandbox.Config.KeyFile.Frame.{
  reader-set_raw, string_own, reader-set_optional, shown, boolean_own, uint64_own,
}
use libvirt_sandbox.Config.Load.{kept_optional}
use libvirt_sandbox.Config.RoundTrip.Networks.Keys.{Fresh}
use libvirt_sandbox.Config.RoundTrip.Networks.Own.{IsTextOption}
use libvirt_sandbox.Config.Save.{save_core, save_identity, save_security, save_flags}
use libvirt_sandbox.Config.Text.{codes, equal}

below : {n : ℕ} → n < u32_mod → n < u64_mod
below h = omega arith

module _ (g : Glib) where
  -- The settings are UTF-8, and the ids fit their type.
  pub record IsSettingsText (c : Config g) : Type 0 where
    pub name_utf8 : g.is_utf8 c.name ≡ true
    pub root_utf8 : g.is_utf8 c.root ≡ true
    pub arch_utf8 : g.is_utf8 c.arch ≡ true
    pub username_utf8 : g.is_utf8 c.username ≡ true
    pub homedir_utf8 : g.is_utf8 c.homedir ≡ true
    pub uuid_utf8 : IsTextOption g c.uuid
    pub kernrelease_utf8 : IsTextOption g c.kernrelease
    pub kernpath_utf8 : IsTextOption g c.kernpath
    pub kmodpath_utf8 : IsTextOption g c.kmodpath
    pub label_utf8 : IsTextOption g c.sec_label
    pub uid_fits : c.uid < u32_mod
    pub gid_fits : c.gid < u32_mod

  -- The three groups show the settings.
  pub record IsSettings (r ids sec : Reader) (c : Config g) : Type 0 where
    pub name_key : string_in g r (codes "name") ≡ value c.name
    pub uuid_key : kept_optional (string_in g r (codes "uuid")) none ≡ c.uuid
    pub root_key : string_in g r (codes "root") ≡ value c.root
    pub arch_key : string_in g r (codes "arch") ≡ value c.arch
    pub kernrelease_key : kept_optional (string_in g r (codes "kernrelease")) none ≡ c.kernrelease
    pub kernpath_key : kept_optional (string_in g r (codes "kernpath")) none ≡ c.kernpath
    pub kmodpath_key : kept_optional (string_in g r (codes "kmodpath")) none ≡ c.kmodpath
    pub shell_key : boolean_in g r (codes "shell") ≡ value c.shell
    pub debug_key : boolean_in g r (codes "debug") ≡ value c.debug
    pub verbose_key : boolean_in g r (codes "verbose") ≡ value c.verbose
    pub uid_key : uint64_in g ids (codes "uid") ≡ value c.uid
    pub gid_key : uint64_in g ids (codes "gid") ≡ value c.gid
    pub username_key : string_in g ids (codes "username") ≡ value c.username
    pub homedir_key : string_in g ids (codes "homedir") ≡ value c.homedir
    pub label_key : present (string_in g sec (codes "label")) ≡ c.sec_label
    pub dynamic_key : boolean_in g sec (codes "dynamic") ≡ value c.sec_dynamic

  abbrev stored : Option Bytes → Lookup Bytes
  stored none = no_key
  stored (some s) = value (g.of_string s)

  module _ (laws : IsKeyFile g) where
    core_shows :
        (c : Config g) (f : g.KeyFile)
        → Fresh g core f
        → (key : Bytes)
        → reader g core (save_core g c f) key ≡ (
            if equal (codes "shell") key
            then value (g.of_boolean c.shell)
            else in_group (
                shown g (codes "kmodpath") c.kmodpath key (
                  shown g (codes "kernpath") c.kernpath key (
                    shown g (codes "kernrelease") c.kernrelease key (
                      if equal (codes "arch") key
                      then value (g.of_string c.arch)
                      else in_group (
                          if equal (codes "root") key
                          then value (g.of_string c.root)
                          else in_group (
                              shown g (codes "uuid") c.uuid key (
                                if equal (codes "name") key
                                then value (g.of_string c.name)
                                else no_key))))))))
    unfolding save_core
    core_shows c f v key = simp (reader-set_raw laws, reader-set_optional laws, v)

    identity_shows :
        (c : Config g) (f : g.KeyFile) (key : Bytes)
        → reader g identity (save_identity g c f) key ≡ (
            if equal (codes "homedir") key
            then value (g.of_string c.homedir)
            else in_group (
                if equal (codes "username") key
                then value (g.of_string c.username)
                else in_group (
                    if equal (codes "gid") key
                    then value (g.of_uint64 c.gid)
                    else in_group (
                        if equal (codes "uid") key
                        then value (g.of_uint64 c.uid)
                        else in_group (reader g identity f key)))))
    unfolding save_identity
    identity_shows c f key = simp (reader-set_raw laws)

    security_shows :
        (c : Config g) (f : g.KeyFile)
        → Fresh g security f
        → (key : Bytes)
        → reader g security (save_security g c f) key ≡ (
            if equal (codes "dynamic") key
            then value (g.of_boolean c.sec_dynamic)
            else in_group (shown g (codes "label") c.sec_label key no_group))
    unfolding save_security
    security_shows c f v key = simp (reader-set_raw laws, reader-set_optional laws, v)

    flags_show :
        (c : Config g) (f : g.KeyFile) (key : Bytes)
        → reader g core (save_flags g c f) key ≡ (
            if equal (codes "verbose") key
            then value (g.of_boolean c.verbose)
            else in_group (
                if equal (codes "debug") key
                then value (g.of_boolean c.debug)
                else in_group (reader g core f key)))
    unfolding save_flags
    flags_show c f key = simp (reader-set_raw laws)

    -- `r` is the group `core` behind the flags, `r'` the one that was saved first.
    module _ (c : Config g) (f f' : g.KeyFile) (v : Fresh g core f)
        (same : reader g core f' ≡ reader g core (save_core g c f)) where
      core_key :
          (key : Bytes) (x : Lookup Bytes)
          → equal (codes "verbose") key ≡ false
          → equal (codes "debug") key ≡ false
          → reader g core (save_core g c f) key ≡ x
          → in_group (in_group x) ≡ x
          → reader g core (save_flags g c f') key ≡ x
      core_key key x e1 e2 e3 e4 = flags_show c f' key ∙ rw (e1, e2, ap (λ r. r key) same, e3) e4

      name_stored : reader g core (save_flags g c f') (codes "name") ≡ value (g.of_string c.name)
      unfolding equal
      name_stored =
          let e = core_shows c f v (codes "name") in
          core_key (codes "name") (value (g.of_string c.name)) refl refl (ground (arith, e))
            (ground arith)

      root_stored : reader g core (save_flags g c f') (codes "root") ≡ value (g.of_string c.root)
      unfolding equal
      root_stored =
          let e = core_shows c f v (codes "root") in
          core_key (codes "root") (value (g.of_string c.root)) refl refl (ground (arith, e))
            (ground arith)

      arch_stored : reader g core (save_flags g c f') (codes "arch") ≡ value (g.of_string c.arch)
      unfolding equal
      arch_stored =
          let e = core_shows c f v (codes "arch") in
          core_key (codes "arch") (value (g.of_string c.arch)) refl refl (ground (arith, e))
            (ground arith)

      uuid_stored : reader g core (save_flags g c f') (codes "uuid") ≡ stored c.uuid
      unfolding equal
      uuid_stored =
          let e = core_shows c f v (codes "uuid") in
          core_key (codes "uuid") (stored c.uuid) refl refl (ground (arith, e)) (ground arith)

      kernrelease_stored :
          reader g core (save_flags g c f') (codes "kernrelease") ≡ stored c.kernrelease
      unfolding equal
      kernrelease_stored =
          let e = core_shows c f v (codes "kernrelease") in
          core_key (codes "kernrelease") (stored c.kernrelease) refl refl (ground (arith, e))
            (ground arith)

      kernpath_stored : reader g core (save_flags g c f') (codes "kernpath") ≡ stored c.kernpath
      unfolding equal
      kernpath_stored =
          let e = core_shows c f v (codes "kernpath") in
          core_key (codes "kernpath") (stored c.kernpath) refl refl (ground (arith, e))
            (ground arith)

      kmodpath_stored : reader g core (save_flags g c f') (codes "kmodpath") ≡ stored c.kmodpath
      unfolding equal
      kmodpath_stored =
          let e = core_shows c f v (codes "kmodpath") in
          core_key (codes "kmodpath") (stored c.kmodpath) refl refl (ground (arith, e))
            (ground arith)

      shell_stored :
          reader g core (save_flags g c f') (codes "shell") ≡ value (g.of_boolean c.shell)
      unfolding equal
      shell_stored =
          let e = core_shows c f v (codes "shell") in
          core_key (codes "shell") (value (g.of_boolean c.shell)) refl refl (ground (arith, e))
            (ground arith)

      label_stored :
          (f'' : g.KeyFile)
          → Fresh g security f''
          → reader g security (save_security g c f'') (codes "label") ≡ stored c.sec_label
      unfolding equal
      label_stored f'' w = let e = security_shows c f'' w (codes "label") in ground (arith, e)

      string_option :
          (r : Reader) (key : Bytes) (s : Option Bytes)
          → IsTextOption g s
          → r key ≡ stored s
          → (kept_optional (string_in g r key) none ≡ s) × (present (string_in g r key) ≡ s)
      string_option r key none h e = (ground (arith, e), ground (arith, e))
      string_option r key (some s) h e =
          let e' = string_own laws r key s h e in (ground (arith, e'), ground (arith, e'))

      -- The readers of the three groups as they are when all is saved.
      pub saved-IsSettings :
          (f2 f3 : g.KeyFile)
          → IsSettingsText c
          → Fresh g security f3
          → IsSettings
              (reader g core (save_flags g c f'))
              (reader g identity (save_identity g c f2))
              (reader g security (save_security g c f3))
              c
      unfolding equal
      saved-IsSettings f2 f3 t w =
          let r = reader g core (save_flags g c f') in
          let ids = reader g identity (save_identity g c f2) in
          let sec = reader g security (save_security g c f3) in
          let at = identity_shows c f2 in
          let flag = flags_show c f' in
          record {
            name_key = string_own laws r (codes "name") c.name t.name_utf8 name_stored;
            uuid_key = (string_option r (codes "uuid") c.uuid t.uuid_utf8 uuid_stored).0;
            root_key = string_own laws r (codes "root") c.root t.root_utf8 root_stored;
            arch_key = string_own laws r (codes "arch") c.arch t.arch_utf8 arch_stored;
            kernrelease_key =
                (string_option r (codes "kernrelease") c.kernrelease t.kernrelease_utf8
                  kernrelease_stored).0;
            kernpath_key =
                (string_option r (codes "kernpath") c.kernpath t.kernpath_utf8 kernpath_stored).0;
            kmodpath_key =
                (string_option r (codes "kmodpath") c.kmodpath t.kmodpath_utf8 kmodpath_stored).0;
            shell_key = boolean_own laws r (codes "shell") c.shell shell_stored;
            debug_key = boolean_own laws r (codes "debug") c.debug (flag (codes "debug"));
            verbose_key = boolean_own laws r (codes "verbose") c.verbose (flag (codes "verbose"));
            uid_key = uint64_own laws ids (codes "uid") c.uid (below t.uid_fits) (at (codes "uid"));
            gid_key = uint64_own laws ids (codes "gid") c.gid (below t.gid_fits) (at (codes "gid"));
            username_key =
                string_own laws ids (codes "username") c.username t.username_utf8
                  (at (codes "username"));
            homedir_key =
                string_own laws ids (codes "homedir") c.homedir t.homedir_utf8
                  (at (codes "homedir"));
            label_key =
                (string_option sec (codes "label") c.sec_label t.label_utf8 (label_stored f3 w)).1;
            dynamic_key =
                boolean_own laws sec (codes "dynamic") c.sec_dynamic
                  (security_shows c f3 w (codes "dynamic"));
          }

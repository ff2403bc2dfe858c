-- ===== src/Config/RoundTrip/Mounts/Keys.antt =====
-- The keys of a mount and of an include.
use libvirt_sandbox.Base.{ℕ, ◌^◌, ◌<◌, ◌≡◌, refl, true, some, List, [], Bytes, arith, if◌then◌else◌}
use libvirt_sandbox.Config.{MountKind, host_bind, host_image, guest_bind, ram}
use libvirt_sandbox.Config.External.{Glib, Lookup, value, in_group, IsKeyFile}
use libvirt_sandbox.Config.Groups.{Group, mount_include}
use libvirt_sandbox.Config.KeyFile.{Reader, reader, string_in, set_string}
use libvirt_sandbox.Config.KeyFile.Frame.{reader-set_raw, string_own}
use libvirt_sandbox.Config.Load.{
  found, absent, include_from, mount_class, ram_from, kind_from, mount_from, load_while,
  add_includes,
}
use libvirt_sandbox.Config.MountOptions.{
  MountType, bind_type, image_type, guest_type, ram_type, mount_new,
}
use libvirt_sandbox.Config.RoundTrip.Envs.{IsEnvText, nothing}
use libvirt_sandbox.Config.Save.{kind_name, save_kind, save_include}
use libvirt_sandbox.Config.Text.{codes, equal, print, to_int, extend}
use libvirt_sandbox.Config.Text.Decimals.{strtol-print, print-IsAscii}

abbrev pub type_of : MountKind → MountType
type_of (host_bind s) = bind_type
type_of (host_image s f) = image_type
type_of (guest_bind s) = guest_type
type_of (ram u) = ram_type

mount_class-kind_name : (k : MountKind) → mount_class (kind_name k) ≡ some (type_of k)
unfolding mount_class kind_name equal
mount_class-kind_name (host_bind s) = refl
mount_class-kind_name (host_image s f) = refl
mount_class-kind_name (guest_bind s) = refl
mount_class-kind_name (ram u) = refl

module _ (g : Glib) where
  -- The source is UTF-8, the format is read back from its nick, the usage is below 2^31.
  abbrev pub IsKindText : MountKind → Type 0
  IsKindText (host_bind s) = g.is_utf8 s ≡ true
  IsKindText (host_image s f) =
      (g.is_utf8 s ≡ true)
      × (g.is_utf8 (g.disk_format_nick f) ≡ true)
      × (g.disk_format (g.disk_format_nick f) ≡ some f)
  IsKindText (guest_bind s) = g.is_utf8 s ≡ true
  IsKindText (ram u) = u < 2 ^ 31

  pub record IsMountKeys (r : Reader) (k : MountKind) (target : Bytes) : Type 0 where
    pub target_key : string_in g r (codes "target") ≡ value target
    pub type_key : string_in g r (codes "type") ≡ value (kind_name k)
    pub kind_keys : kind_from g (type_of k) r ≡ found k

  kind_found_source :
      (r : Reader) (s : Bytes)
      → string_in g r (codes "source") ≡ value s
      → (kind_from g bind_type r ≡ found (host_bind s))
        × (kind_from g guest_type r ≡ found (guest_bind s))
  unfolding kind_from
  kind_found_source r s e = (ground (arith, e), ground (arith, e))

  kind_found_image :
      (r : Reader) (s : Bytes) (f : ℕ)
      → string_in g r (codes "source") ≡ value s
      → string_in g r (codes "format") ≡ value (g.disk_format_nick f)
      → g.disk_format (g.disk_format_nick f) ≡ some f
      → kind_from g image_type r ≡ found (host_image s f)
  unfolding kind_from
  kind_found_image r s f e1 e2 e3 = ground (arith, e1, e2, e3)

  kind_found_ram :
      (r : Reader) (u : ℕ)
      → string_in g r (codes "usage") ≡ value (print u [])
      → u < 2 ^ 31
      → kind_from g ram_type r ≡ found (ram u)
  unfolding kind_from ram_from
  kind_found_ram r u e h =
      let read = strtol-print u [] tt (omega arith) in
      let size : extend (to_int u) ≡ u = ground arith in ground (arith, e, read, size)

  pub include_absent : include_from g nothing ≡ absent
  unfolding include_from
  include_absent = refl

  include_from_found :
      (r : Reader) (dst src : Bytes)
      → string_in g r (codes "src") ≡ value src
      → string_in g r (codes "dst") ≡ value dst
      → include_from g r ≡ found (dst, src)
  unfolding include_from
  include_from_found r dst src e1 e2 = ground (arith, e1, e2)

  pub mount_from_found :
      (r : Reader) (is : ℕ → Reader) (k : MountKind) (target : Bytes) (es : List (Bytes × Bytes))
      → IsMountKeys r k target
      → load_while (λ j. include_from g (is j)) 1024 0 [] ≡ found es
      → mount_from g r is ≡ found (add_includes g es (mount_new g k target))
  unfolding mount_from
  mount_from_found r is k target es m e =
      ground (arith, m.target_key, m.type_key, m.kind_keys, mount_class-kind_name k, e)

  abbrev pub keys_saved : Group → MountKind → Bytes → g.KeyFile → g.KeyFile
  keys_saved a k target f =
      save_kind g a k
        (set_string g a (codes "target") target (set_string g a (codes "type") (kind_name k) f))

  module _ (laws : IsKeyFile g) where
    kind_name_utf8 : (k : MountKind) → g.is_utf8 (kind_name k) ≡ true
    unfolding kind_name
    kind_name_utf8 (host_bind s) = laws.is_utf8_ascii _ (omega arith)
    kind_name_utf8 (host_image s f) = laws.is_utf8_ascii _ (omega arith)
    kind_name_utf8 (guest_bind s) = laws.is_utf8_ascii _ (omega arith)
    kind_name_utf8 (ram u) = laws.is_utf8_ascii _ (omega arith)

    include_shows :
        (i j : ℕ) (dst src : Bytes) (f : g.KeyFile) (key : Bytes)
        → reader g (mount_include i j) (save_include g i j (dst, src) f) key ≡ (
            if equal (codes "src") key
            then value (g.of_string src)
            else in_group (
                if equal (codes "dst") key
                then value (g.of_string dst)
                else in_group (reader g (mount_include i j) f key)))
    unfolding save_include
    include_shows i j dst src f key = simp (reader-set_raw laws)

    pub include_reads :
        (i j : ℕ) (e : Bytes × Bytes) (f : g.KeyFile)
        → IsEnvText g e
        → include_from g (reader g (mount_include i j) (save_include g i j e f)) ≡ found e
    unfolding equal
    include_reads i j (dst, src) f fits =
        let r = reader g (mount_include i j) (save_include g i j (dst, src) f) in
        let at = include_shows i j dst src f in
        include_from_found r dst src (string_own laws r (codes "src") src fits.1 (at (codes "src")))
          (string_own laws r (codes "dst") dst fits.0 (at (codes "dst")))

    abbrev common : Bytes → Bytes → Bytes → Lookup Bytes → Lookup Bytes
    common name target key old =
        if equal (codes "target") key
        then value (g.of_string target)
        else in_group (if equal (codes "type") key then value (g.of_string name) else in_group old)

    one_shows :
        (a : Group) (name target key' text : Bytes) (f : g.KeyFile) (key : Bytes)
        → reader g a
            (set_string g a key' text
              (set_string g a (codes "target") target (set_string g a (codes "type") name f)))
            key
          ≡ (if equal key' key
              then value (g.of_string text)
              else in_group (common name target key (reader g a f key)))
    one_shows a name target key' text f key = simp (reader-set_raw laws)

    two_show :
        (a : Group) (name target text text' : Bytes) (f : g.KeyFile) (key : Bytes)
        → reader g a
            (set_string g a (codes "source") text (
              set_string g a
                (codes "format")
                text'
                (set_string g a (codes "target") target (set_string g a (codes "type") name f))))
            key
          ≡ (if equal (codes "source") key
              then value (g.of_string text)
              else in_group (
                  if equal (codes "format") key
                  then value (g.of_string text')
                  else in_group (common name target key (reader g a f key))))
    two_show a name target text text' f key = simp (reader-set_raw laws)

    keys_of :
        (r : Reader) (k : MountKind) (target : Bytes)
        → g.is_utf8 target ≡ true
        → r (codes "target") ≡ value (g.of_string target)
        → r (codes "type") ≡ value (g.of_string (kind_name k))
        → kind_from g (type_of k) r ≡ found k
        → IsMountKeys r k target
    keys_of r k target ht e1 e2 e3 = record {
      target_key = string_own laws r (codes "target") target ht e1;
      type_key = string_own laws r (codes "type") (kind_name k) (kind_name_utf8 k) e2;
      kind_keys = e3;
    }

    pub mount_keys :
        (a : Group) (k : MountKind) (target : Bytes) (f : g.KeyFile)
        → g.is_utf8 target ≡ true
        → IsKindText k
        → IsMountKeys (reader g a (keys_saved a k target f)) k target
    unfolding save_kind equal
    mount_keys a (host_bind s) target f ht h =
        let k = host_bind s in
        let r = reader g a (keys_saved a k target f) in
        let at = one_shows a (kind_name k) target (codes "source") s f in
        keys_of r k target ht (at (codes "target")) (at (codes "type"))
          ((kind_found_source r s (string_own laws r (codes "source") s h (at (codes "source")))).0)
    mount_keys a (guest_bind s) target f ht h =
        let k = guest_bind s in
        let r = reader g a (keys_saved a k target f) in
        let at = one_shows a (kind_name k) target (codes "source") s f in
        keys_of r k target ht (at (codes "target")) (at (codes "type"))
          ((kind_found_source r s (string_own laws r (codes "source") s h (at (codes "source")))).1)
    mount_keys a (host_image s n) target f ht h =
        let k = host_image s n in
        let r = reader g a (keys_saved a k target f) in
        let at = two_show a (kind_name k) target s (g.disk_format_nick n) f in
        keys_of r k target ht (at (codes "target")) (at (codes "type")) (
          kind_found_image r s n (string_own laws r (codes "source") s h.0 (at (codes "source")))
            (string_own laws r (codes "format") (g.disk_format_nick n) h.1 (at (codes "format")))
            h.2)
    mount_keys a (ram u) target f ht h =
        let k = ram u in
        let r = reader g a (keys_saved a k target f) in
        let at = one_shows a (kind_name k) target (codes "usage") (print u []) f in
        keys_of r k target ht (at (codes "target")) (at (codes "type")) (
          kind_found_ram r u
            (string_own laws r (codes "usage") (print u [])
              (laws.is_utf8_ascii (print u []) (print-IsAscii u [] tt)) (at (codes "usage")))
            h)

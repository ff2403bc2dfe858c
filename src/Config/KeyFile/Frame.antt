-- ===== src/Config/KeyFile/Frame.antt =====
-- What a key reads behind a set of the same key, of another key and of another group.
use libvirt_sandbox.Base.{
  arith, ℕ, ◌<◌, u64_mod, ◌≡◌, ◌≢◌, refl, ◌∙◌, Bool, true, false, Option, none, some, Bytes,
  if◌then◌else◌,
}
use libvirt_sandbox.Config.External.{Glib, Lookup, value, in_group, IsKeyFile}
use libvirt_sandbox.Config.Groups.{Group, group_name}
use libvirt_sandbox.Config.Groups.Names.{equal_other}
use libvirt_sandbox.Config.KeyFile.{
  Reader, reader, string_in, boolean_in, uint64_in, set_raw, set_optional,
}
use libvirt_sandbox.Config.Text.{equal}
use libvirt_sandbox.Config.Text.Laws.{equal_refl}
use mathlib.Core.Path.{fun_ext}

module _ (g : Glib) where
  -- What a key reads behind an optional set, `old` what it read ahead of it.
  abbrev pub shown : Bytes → Option Bytes → Bytes → Lookup Bytes → Lookup Bytes
  shown key none k old = old
  shown key (some s) k old = if equal key k then value (g.of_string s) else in_group old

module _ {g : Glib} (laws : IsKeyFile g) where
  -- in the group that was set
  pub reader-set_raw :
      (a : Group) (key raw : Bytes) (file : g.KeyFile) (k : Bytes)
      → reader g a (set_raw g a key raw file) k
        ≡ (if equal key k then value raw else in_group (reader g a file k))
  unfolding set_raw
  reader-set_raw a key raw file k =
      laws.find-put (group_name a) key raw file (group_name a) k
      ∙ rw (equal_refl (group_name a)) refl

  -- in another group
  pub reader-set_raw_other :
      (a b : Group) (key raw : Bytes) (file : g.KeyFile)
      → a ≢ b
      → reader g b (set_raw g a key raw file) ≡ reader g b file
  unfolding set_raw
  reader-set_raw_other a b key raw file other = fun_ext (λ k.
      laws.find-put (group_name a) key raw file (group_name b) k ∙ rw (equal_other a b other) refl)

  pub reader-set_optional_other :
      (a b : Group) (key : Bytes) (s : Option Bytes) (file : g.KeyFile)
      → a ≢ b
      → reader g b (set_optional g a key s file) ≡ reader g b file
  unfolding set_optional
  reader-set_optional_other a b key none file other = refl
  reader-set_optional_other a b key (some s) file other =
      reader-set_raw_other a b key (g.of_string s) file other

  pub reader_own :
      (a : Group) (key raw : Bytes) (file : g.KeyFile)
      → reader g a (set_raw g a key raw file) key ≡ value raw
  reader_own a key raw file = reader-set_raw a key raw file key ∙ rw (equal_refl key) refl

  -- a key that is there stays so under a set of another key
  pub reader_past :
      (a : Group) (key raw : Bytes) (file : g.KeyFile) (k text : Bytes)
      → equal key k ≡ false
      → reader g a file k ≡ value text
      → reader g a (set_raw g a key raw file) k ≡ value text
  reader_past a key raw file k text other e = reader-set_raw a key raw file k ∙ rw (other, e) refl

  pub string_own :
      (r : Reader) (key s : Bytes)
      → g.is_utf8 s ≡ true
      → r key ≡ value (g.of_string s)
      → string_in g r key ≡ value s
  string_own r key s ok e = ground (arith, e, laws.to_string-of_string s ok)

  pub boolean_own :
      (r : Reader) (key : Bytes) (b : Bool)
      → r key ≡ value (g.of_boolean b)
      → boolean_in g r key ≡ value b
  boolean_own r key b e = ground (arith, e, laws.to_boolean-of_boolean b)

  pub uint64_own :
      (r : Reader) (key : Bytes) (n : ℕ)
      → n < u64_mod
      → r key ≡ value (g.of_uint64 n)
      → uint64_in g r key ≡ value n
  uint64_own r key n h e = ground (arith, e, laws.to_uint64-of_uint64 n h)

  pub reader-set_optional :
      (a : Group) (key : Bytes) (s : Option Bytes) (file : g.KeyFile) (k : Bytes)
      → reader g a (set_optional g a key s file) k ≡ shown g key s k (reader g a file k)
  unfolding set_optional
  reader-set_optional a key none file k = refl
  reader-set_optional a key (some s) file k = reader-set_raw a key (g.of_string s) file k

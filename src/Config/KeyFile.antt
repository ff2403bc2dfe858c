-- ===== src/Config/KeyFile.antt =====
-- Strings, booleans and integers in the groups of a key file: the g_key_file_set_* and _get_* calls
-- of libvirt-sandbox-config.c, each of which converts the raw text of a key.
pub mod Frame
use libvirt_sandbox.Base.{ℕ, Bool, Option, none, some, Bytes, if◌then◌else◌}
use libvirt_sandbox.Config.External.{Glib, Lookup, value, no_group, no_key, malformed}
use libvirt_sandbox.Config.Groups.{Group, group_name}

abbrev pub converted : {A B : Type 0} → (A → Option B) → Lookup A → Lookup B
converted f (value a) = elim (f a) [ some b ↦ value b | none ↦ malformed ]
converted f no_group = no_group
converted f no_key = no_key
converted f malformed = malformed

-- `if ((str = g_key_file_get_string(…)) != NULL)`
abbrev pub present : {A : Type 0} → Lookup A → Option A
present (value a) = some a
present _ = none

-- The keys of one group.
abbrev pub Reader : Type 0
Reader = Bytes → Lookup Bytes

module _ (g : Glib) where
  abbrev pub reader : Group → g.KeyFile → Reader
  reader a file key = g.find (group_name a) key file

  abbrev pub string_in : Reader → Bytes → Lookup Bytes
  string_in r key = converted g.to_string (r key)

  abbrev pub boolean_in : Reader → Bytes → Lookup Bool
  boolean_in r key = converted g.to_boolean (r key)

  abbrev pub uint64_in : Reader → Bytes → Lookup ℕ
  uint64_in r key = converted g.to_uint64 (r key)

  unfoldable pub set_raw : Group → Bytes → Bytes → g.KeyFile → g.KeyFile
  set_raw a key raw file = g.put (group_name a) key raw file

  abbrev pub set_string : Group → Bytes → Bytes → g.KeyFile → g.KeyFile
  set_string a key s file = set_raw a key (g.of_string s) file

  abbrev pub set_boolean : Group → Bytes → Bool → g.KeyFile → g.KeyFile
  set_boolean a key b file = set_raw a key (g.of_boolean b) file

  abbrev pub set_uint64 : Group → Bytes → ℕ → g.KeyFile → g.KeyFile
  set_uint64 a key n file = set_raw a key (g.of_uint64 n) file

  -- `if (str) g_key_file_set_string(…)`
  unfoldable pub set_optional : Group → Bytes → Option Bytes → g.KeyFile → g.KeyFile
  set_optional a key none file = file
  set_optional a key (some s) file = set_string a key s file

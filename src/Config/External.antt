-- ===== src/Config/External.antt =====
-- What the configuration uses of GLib and of libvirt-gconfig, none of which is source of the
-- repository: hash tables, key files, addresses, enumerations. The functions are parameters, and
-- what their documentation promises are named laws.
use libvirt_sandbox.Base.{
  ℕ, ◌<◌, u64_mod, ◌≡◌, Bool, true, false, not, ◌&&◌, Option, none, some, List, [], ◌∷◌, Bytes,
  if◌then◌else◌,
}
use libvirt_sandbox.Config.Text.{equal}

-- The answer of g_key_file_get_*: `no_group` and `no_key` are the codes of the GError, `malformed`
-- stands for the others.
pub data Lookup (A : Type 0) : Type 0 where
  value : A → Lookup A
  no_group no_key malformed : Lookup A

pub record Glib : Type 1 where
  -- A GHashTable of strings; `entries` is the order of its iterator.
  pub Table : Type 0
  pub table_new : Table
  pub insert : Bytes → Bytes → Table → Table
  pub lookup : Bytes → Table → Option Bytes
  pub entries : Table → List (Bytes × Bytes)
  -- A GKeyFile as g_key_file_set_value and g_key_file_get_value show it (group, key, raw text), and
  -- the conversions of strings, booleans and integers that the other functions make.
  pub KeyFile : Type 0
  pub file_new : KeyFile
  pub put : Bytes → Bytes → Bytes → KeyFile → KeyFile
  pub find : Bytes → Bytes → KeyFile → Lookup Bytes
  pub is_utf8 : Bytes → Bool
  pub of_string : Bytes → Bytes
  pub to_string : Bytes → Option Bytes
  pub of_boolean : Bool → Bytes
  pub to_boolean : Bytes → Option Bool
  pub of_uint64 : ℕ → Bytes
  pub to_uint64 : Bytes → Option ℕ
  -- A GInetAddress.
  pub Inet : Type 0
  pub inet_parse : Bytes → Option Inet
  pub inet_print : Inet → Bytes
  -- `g_strsplit(s, ",", 50)`
  pub split : Bytes → List Bytes
  -- GVirConfigDomainDiskType and GVirConfigDomainDiskFormat, which have nicks.
  pub disk_type : Bytes → Option ℕ
  pub disk_type_nick : ℕ → Bytes
  pub disk_file : ℕ
  pub disk_format : Bytes → Option ℕ
  pub disk_format_nick : ℕ → Bytes
  pub disk_raw : ℕ

-- The value of the first entry with the key.
unfoldable pub assoc : Bytes → List (Bytes × Bytes) → Option Bytes
assoc k [] = none
assoc k ((j, v) ∷ es) = if equal j k then some v else assoc k es

abbrev has_key : Bytes → List (Bytes × Bytes) → Bool
has_key k es = elim (assoc k es) [ none ↦ false | some v ↦ true ]

unfoldable pub once : List (Bytes × Bytes) → Bool
unfolding assoc
once [] = true
once ((j, v) ∷ es) = not (has_key j es) && once es

-- A key that is missing in a group that is there.
abbrev pub in_group : {A : Type 0} → Lookup A → Lookup A
in_group no_group = no_key
in_group l = l

pub record IsTable (g : Glib) : Type 0 where
  pub lookup-new : (k : Bytes) → g.lookup k g.table_new ≡ none
  pub lookup-insert :
      (k j v : Bytes) (t : g.Table)
      → g.lookup j (g.insert k v t) ≡ (if equal k j then some v else g.lookup j t)
  -- the iterator gives each key once, with its value
  pub assoc-entries : (k : Bytes) (t : g.Table) → assoc k (g.entries t) ≡ g.lookup k t
  pub once-entries : (t : g.Table) → once (g.entries t) ≡ true

abbrev pub IsAscii : Bytes → Type 0
IsAscii [] = Unit
IsAscii (c ∷ s) = (0 < c) × (c < 128) × IsAscii s

pub record IsKeyFile (g : Glib) : Type 0 where
  pub find-new : (group key : Bytes) → g.find group key g.file_new ≡ no_group
  pub find-put :
      (group' key' raw : Bytes) (file : g.KeyFile) (group key : Bytes)
      → g.find group key (g.put group' key' raw file) ≡ (
          if equal group' group
          then if equal key' key then value raw else in_group (g.find group key file)
          else g.find group key file)
  pub is_utf8_ascii : (s : Bytes) → IsAscii s → g.is_utf8 s ≡ true
  -- a string is read back where it is valid UTF-8
  pub to_string-of_string : (s : Bytes) → g.is_utf8 s ≡ true → g.to_string (g.of_string s) ≡ some s
  pub to_boolean-of_boolean : (b : Bool) → g.to_boolean (g.of_boolean b) ≡ some b
  pub to_uint64-of_uint64 : (n : ℕ) → n < u64_mod → g.to_uint64 (g.of_uint64 n) ≡ some n

pub record IsInet (g : Glib) : Type 0 where
  pub inet_parse-inet_print : (a : g.Inet) → g.inet_parse (g.inet_print a) ≡ some a
  pub inet_print_utf8 : (a : g.Inet) → g.is_utf8 (g.inet_print a) ≡ true

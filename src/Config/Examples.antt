-- ===== src/Config/Examples.antt =====
-- A simple GLib for which the laws hold, and the configuration functions run on it.
mod Witnesses
use libvirt_sandbox.Base.{
  ℕ, zero, suc, ◌<◌, u64_mod, ◌≡◌, refl, ap, sym, ◌∙◌, Bool, true, false, not, ◌&&◌, Option, none,
  some, List, [], ◌∷◌, Bytes, ◌==◌, if◌then◌else◌, arith, Bool-cases, inl, inr,
}
use libvirt_sandbox.Config.External.{
  Glib, Lookup, value, no_group, no_key, malformed, in_group, assoc, once, IsTable, IsKeyFile,
  IsInet, IsAscii,
}
use libvirt_sandbox.Config.Text.{codes, equal}
use libvirt_sandbox.Config.Text.Laws.{equal→eq, equal_refl}

abbrev Entries : Type 0
Entries = List (Bytes × Bytes)

unfoldable pub without : Bytes → Entries → Entries
without k [] = []
without k ((j, v) ∷ es) = let rest = without k es in if equal k j then rest else (j, v) ∷ rest

unfoldable pub distinct : Entries → Entries
unfolding without
distinct [] = []
distinct ((j, v) ∷ es) = (j, v) ∷ without j (distinct es)

assoc-without :
    (k j : Bytes) (es : Entries) → assoc k (without j es) ≡ (if equal j k then none else assoc k es)
unfolding assoc without
assoc-without k j [] = ground arith
assoc-without k j ((i, v) ∷ es) =
    ground (arith, assoc-without k j es, equal→eq j i, equal→eq i k, equal→eq j k, equal_refl k)

once-without : (k : Bytes) (es : Entries) → once es ≡ true → once (without k es) ≡ true
unfolding once without
once-without k [] h = refl
once-without k ((j, v) ∷ es) h = ground (arith, once-without k es, assoc-without j k es)

assoc-distinct : (k : Bytes) (es : Entries) → assoc k (distinct es) ≡ assoc k es
unfolding assoc distinct
assoc-distinct k [] = refl
assoc-distinct k ((j, v) ∷ es) =
    ground (arith, assoc-distinct k es, assoc-without k j (distinct es))

once-distinct : (es : Entries) → once (distinct es) ≡ true
unfolding once distinct
once-distinct [] = refl
once-distinct ((j, v) ∷ es) = ground (
  arith,
  once-without j (distinct es),
  once-distinct es,
  assoc-without j j (distinct es),
  equal_refl j,
)

-- Texts between commas.
abbrev add_first : ℕ → List Bytes → List Bytes
add_first c [] = (c ∷ []) ∷ []
add_first c (s ∷ ss) = (c ∷ s) ∷ ss

pub at_commas : Bytes → List Bytes
at_commas [] = [] ∷ []
at_commas (c ∷ s) = let rest = at_commas s in if c == b',' then [] ∷ rest else add_first c rest

abbrev number : Bytes → Option ℕ
number (n ∷ []) = some n
number _ = none

abbrev flag : Bytes → Option Bool
flag (n ∷ []) = some (n == 1)
flag _ = none

-- A table is a list of entries, the newest first, and a file is the function that finds keys.
abbrev pub simple : Glib
simple = record {
  Table = Entries;
  table_new = [];
  insert = λ k v t. (k, v) ∷ t;
  lookup = assoc;
  entries = distinct;
  KeyFile = Bytes → Bytes → Lookup Bytes;
  file_new = λ group key. no_group;
  put = λ group' key' raw file group key.
      if equal group' group
      then if equal key' key then value raw else in_group (file group key)
      else file group key;
  find = λ group key file. file group key;
  is_utf8 = λ s. true;
  of_string = λ s. s;
  to_string = λ s. some s;
  of_boolean = λ b. (if b then 1 else 0) ∷ [];
  to_boolean = flag;
  of_uint64 = λ n. n ∷ [];
  to_uint64 = number;
  Inet = Bytes;
  inet_parse = λ s. some s;
  inet_print = λ a. a;
  split = at_commas;
  disk_type = λ s. if equal s (codes "file") then some 0 else none;
  disk_type_nick = λ n. codes "file";
  disk_file = 0;
  disk_format = λ s.
      if equal s (codes "raw") then some 0 else if equal s (codes "qcow2") then some 1 else none;
  disk_format_nick = λ n. if n == 0 then codes "raw" else codes "qcow2";
  disk_raw = 0;
}

pub simple_table : IsTable simple
unfolding assoc
simple_table = record {
  lookup-new = λ k. refl;
  lookup-insert = λ k j v t. refl;
  assoc-entries = assoc-distinct;
  once-entries = once-distinct;
}

flag_read : (b : Bool) → flag ((if b then 1 else 0) ∷ []) ≡ some b
flag_read true = refl
flag_read false = refl

pub simple_file : IsKeyFile simple
simple_file = record {
  find-new = λ group key. refl;
  find-put = λ group' key' raw file group key. refl;
  is_utf8_ascii = λ s h. refl;
  to_string-of_string = λ s h. refl;
  to_boolean-of_boolean = flag_read;
  to_uint64-of_uint64 = λ n h. refl;
}

pub simple_inet : IsInet simple
simple_inet = record { inet_parse-inet_print = λ a. refl; inet_print_utf8 = λ a. refl }

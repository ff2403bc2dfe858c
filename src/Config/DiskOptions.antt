-- ===== src/Config/DiskOptions.antt =====
-- The disks of libvirt-sandbox-config.c, add_disk_opts and add_disk_strv, and
-- libvirt-sandbox-util.c. Where the format of an image cannot be guessed the call goes on with RAW;
-- the GError that guessing leaves behind is not kept.
pub mod Format
use libvirt_sandbox.Base.{
  ℕ, Option, none, some, List, [], ◌∷◌, ◌++◌, Bytes, length, drop, ltb, ◌==◌, if◌then◌else◌, not,
}
use libvirt_sandbox.Result.{
  Result, ok, err, fault, each, no_disk_type, unknown_disk_type, unimplemented_disk_type,
  missing_disk_source, unknown_image_format,
}
use libvirt_sandbox.Config.{Config, Disk}
use libvirt_sandbox.Config.External.{Glib}
use libvirt_sandbox.Config.Text.{codes, equal, strip_prefix, cut, cut_last}

module _ (g : Glib) where
  -- gvir_sandbox_util_guess_image_format, where a result below 0 is `none`
  unfoldable pub guess_image_format : Bytes → Option ℕ
  unfolding cut_last equal
  guess_image_format path = elim (cut_last b'.' path) [
    | none ↦ none
    | some (_, tail) ↦ if equal tail (codes "img") then some g.disk_raw else g.disk_format tail
  ]

  abbrev pub or_raw : Option ℕ → ℕ
  or_raw none = g.disk_raw
  or_raw (some n) = n

  abbrev pub add_disk : Disk → Config g → Config g
  add_disk d c = record c { disks = c.disks ++ (d ∷ []) }

  -- From `format=FORMAT` on. The message for any other text starts at its seventh byte, also where
  -- it has no seven.
  unfoldable pub disk_with_format : Bytes → Bytes → Bytes → Config g → Result (Config g)
  unfolding strip_prefix
  disk_with_format tag source text c = elim (strip_prefix (codes "format=") text) [
    | none ↦ if ltb (length text) 7 then fault else err (unknown_image_format (drop 7 text)) c
    | some nick ↦ elim (g.disk_format nick) [
      | none ↦ err (unknown_image_format nick) c
      | some n ↦
          ok (add_disk (record { type = g.disk_file; tag = tag; source = source; format = n }) c)
    ]
  ]

  unfoldable pub disk_source : Bytes → Bytes → Config g → Result (Config g)
  unfolding cut disk_with_format guess_image_format
  disk_source tag source c = elim (cut b',' source) [
    | some (path, text) ↦ disk_with_format tag path text c
    | none ↦ ok (
        add_disk
          (record {
            type = g.disk_file;
            tag = tag;
            source = source;
            format = or_raw (guess_image_format source);
          })
          c)
  ]

  unfoldable pub disk_of_type : Bytes → Option ℕ → Bytes → Config g → Result (Config g)
  unfolding cut disk_source
  disk_of_type whole none s c = err (unknown_disk_type whole) c
  disk_of_type whole (some n) s c =
      if not (n == g.disk_file) then err (unimplemented_disk_type whole) c else elim (cut b'=' s) [
        | none ↦ err (missing_disk_source whole) c
        | some (tag, source) ↦ disk_source tag source c
      ]

  unfoldable pub add_disk_opts : Bytes → Config g → Result (Config g)
  unfolding cut disk_of_type
  add_disk_opts s c = elim (cut b':' s) [
    | none ↦ err (no_disk_type s) c
    | some (nick, rest) ↦ disk_of_type s (g.disk_type nick) rest c
  ]

  unfoldable pub add_disk_strv : List Bytes → Config g → Result (Config g)
  unfolding each add_disk_opts
  add_disk_strv = each add_disk_opts

-- ===== src/Config/MountOptions.antt =====
-- The mounts of libvirt-sandbox-config.c: add_mount_opts, add_mount_strv and the searches. As for
-- the disks, the GError that guessing a format leaves behind is not kept.
pub mod Abbreviated
pub mod Ram
use libvirt_sandbox.Base.{
  ℕ, ◌*◌, ◌%◌, Bool, true, false, ◌&&◌, ◌||◌, Option, none, some, List, [], ◌∷◌, ◌++◌, Bytes,
  length, if◌then◌else◌,
}
use libvirt_sandbox.Result.{
  Result, ok, err, each, no_mount_type, unknown_mount_type, missing_mount_source,
  unknown_image_format,
}
use libvirt_sandbox.Config.{Config, Mount, MountKind, host_bind, host_image, guest_bind, ram}
use libvirt_sandbox.Config.DiskOptions.{guess_image_format, or_raw}
use libvirt_sandbox.Config.External.{Glib}
use libvirt_sandbox.Config.Text.{
  codes, equal, strip_prefix, same_start, cut, strtol, to_int, extend,
}

pub data MountType : Type 0 where
  bind_type image_type guest_type ram_type : MountType

-- The chain of strncmp, where `n` is the position of the colon.
unfoldable pub mount_type : ℕ → Bytes → Option MountType
unfolding same_start
mount_type n s =
    if same_start n s (codes "host-bind")
    then some bind_type
    else if same_start n s (codes "host-image")
    then some image_type
    else if same_start n s (codes "guest-bind")
    then some guest_type
    else if same_start n s (codes "ram")
    then some ram_type
    else none

-- A product of `gint`s; the C code leaves an overflow open, and here it wraps around.
abbrev times : ℕ → ℕ → ℕ
times n k = to_int (n * k)

unfoldable pub scaled : ℕ × Bytes → ℕ
unfolding equal
scaled (n, end) =
    let size = to_int n in
    if equal end (codes "KiB") || equal end (codes "K")
    then times size 1024
    else if equal end (codes "MiB") || equal end (codes "M")
    then times size (1024 * 1024)
    else if equal end (codes "GiB") || equal end (codes "G")
    then times size (1024 * 1024 * 1024)
    else size

module _ (g : Glib) where
  abbrev pub mount_new : MountKind → Bytes → Mount g
  mount_new k target = record { kind = k; target = target; includes = g.table_new }

  abbrev pub add_mount : Mount g → Config g → Config g
  add_mount m c = record c { mounts = c.mounts ++ (m ∷ []) }

  unfoldable image_format :
      Bytes → Config g → Result (Config g) → (ℕ → Result (Config g)) → Result (Config g)
  image_format text c plain found = elim (strip_prefix (codes "format=") text) [
    | none ↦ plain
    | some nick ↦ elim (g.disk_format nick) [
      | none ↦ err (unknown_image_format nick) c
      | some n ↦ found n
    ]
  ]

  unfoldable pub add_image : Bytes → Bytes → Config g → Result (Config g)
  unfolding cut strip_prefix guess_image_format image_format
  add_image target source c = elim (cut b',' source) [
    | some (path, text) ↦
        let add = λ (n : ℕ). ok (add_mount (mount_new (host_image path n) target) c) in
        image_format text c (add g.disk_raw) add
    | none ↦
        let format = or_raw g (guess_image_format g source) in
        ok (add_mount (mount_new (host_image source format) target) c)
  ]

  unfoldable pub add_typed : MountType → Bytes → Bytes → Config g → Result (Config g)
  unfolding strtol scaled add_image
  add_typed bind_type target source c = ok (add_mount (mount_new (host_bind source) target) c)
  add_typed image_type target source c = add_image target source c
  add_typed guest_type target source c = ok (add_mount (mount_new (guest_bind source) target) c)
  add_typed ram_type target source c =
      ok (add_mount (mount_new (ram (extend (scaled (strtol source)))) target) c)

  unfoldable mount_of_type : Bytes → Bytes → Option MountType → Config g → Result (Config g)
  mount_of_type whole rest none c = err (unknown_mount_type whole) c
  mount_of_type whole rest (some t) c = elim (cut b'=' rest) [
    | none ↦ err (missing_mount_source whole) c
    | some (target, source) ↦ add_typed t target source c
  ]

  unfoldable pub add_mount_opts : Bytes → Config g → Result (Config g)
  unfolding cut mount_type mount_of_type add_typed
  add_mount_opts s c = elim (cut b':' s) [
    | none ↦ err (no_mount_type s) c
    | some (pre, rest) ↦ mount_of_type s rest (mount_type (length pre) s) c
  ]

  unfoldable pub add_mount_strv : List Bytes → Config g → Result (Config g)
  unfolding each add_mount_opts
  add_mount_strv = each add_mount_opts

  unfoldable pub find_target : Bytes → List (Mount g) → Option (Mount g)
  unfolding equal
  find_target target [] = none
  find_target target (m ∷ ms) = if equal m.target target then some m else find_target target ms

  unfoldable pub find_mount : Bytes → Config g → Option (Mount g)
  unfolding find_target
  find_mount target c = find_target target c.mounts

  unfoldable pub root_among : List (Mount g) → Bool
  root_among [] = false
  root_among (m ∷ ms) = equal m.target (codes "/") || root_among ms

  unfoldable pub has_root_mount : Config g → Bool
  unfolding root_among
  has_root_mount c = root_among c.mounts

-- ===== src/Boot.antt =====
-- libvirt-sandbox-init-qemu.c and setup_disk_tags of libvirt-sandbox-init-common.c: what the guest
-- does with mounts.cfg and disks.cfg. The system calls that it makes are a list, which ends at
-- `exit_poweroff` or at a crash; what they answer beside success is cut off the list by `performed`.
mod Lines
mod Disks
mod Mkdir
mod Entries
mod Mounts
mod Examples
use libvirt_sandbox.Base.{
  ℕ, zero, suc, ◌+◌, ◌-◌, ◌||◌, Bool, true, false, not, Option, none, some, List, [], ◌∷◌, ◌++◌,
  Bytes, length, ◌==◌, if◌then◌else◌,
}
use libvirt_sandbox.Config.Text.{codes, equal, cut, same_start}
use libvirt_sandbox.Machine.{Entry}

-- fgets with a buffer of `suc room` bytes, again and again: `left` is the room that is left behind
-- `done`, the bytes of the line so far.
unfoldable pub fgets : ℕ → ℕ → Bytes → Bytes → List Bytes
fgets room left done [] = if length done == 0 then [] else done ∷ []
fgets room left done (c ∷ s) =
    let line = done ++ (c ∷ []) in
    let ends = c == b'\n' || left == 1 in
    let rest = fgets room (if ends then room else left - 1) (if ends then [] else line) s in
    if ends then line ∷ rest else rest

abbrev pub lines : Bytes → List Bytes
lines s = fgets 1023 1023 [] s

abbrev after_cut : {A : Type 0} → Option (Bytes × Bytes) → (Bytes → Bytes → Option A) → Option A
after_cut none f = none
after_cut (some (a, b)) f = f a b

-- The fields of a line; `none` is a write through the NULL of a strchr that finds nothing.
unfoldable pub parse_entry : Bytes → Option Entry
unfolding cut
parse_entry line = after_cut (cut b'\t' line) (λ source s1. after_cut (cut b'\t' s1) (λ target s2.
    after_cut (cut b'\t' s2) (λ type s3.
      after_cut (cut b'\n' s3) (λ opts rest.
        some (record { source = source; target = target; type = type; opts = opts })))))

-- The flags of mount(2).
pub record Flags : Type 0 where
  pub rdonly : Bool
  pub bind : Bool
  pub nosuid_nodev : Bool

pub data Call : Type 0 where
  mkdir create : Bytes → (mode : ℕ) → Call
  stat : Bytes → Call
  mount_call : (source target : Bytes) → Option Bytes → Flags → (opts : Bytes) → Call
  chmod : Bytes → (mode : ℕ) → Call
  umount : Bytes → Call
  poweroff crash : Call

abbrev no_flags : Flags
no_flags = record { rdonly = false; bind = false; nosuid_nodev = false }

-- strrchr(dir, '/'), with the text ahead of it; the fuel of the recursion is the length of the path.
unfoldable pub parent : Bytes → Option Bytes
parent [] = none
parent (c ∷ s) = elim (parent s) [
  | some p ↦ some (c ∷ p)
  | none ↦ if c == b'/' then some [] else none
]

unfoldable pub mkdirs : ℕ → Bytes → ℕ → List Call
unfolding parent
mkdirs zero dir mode = []
mkdirs (suc fuel) dir mode = elim (parent dir) [
  | none ↦ mkdir dir mode ∷ []
  | some [] ↦ mkdir dir mode ∷ []
  | some (c ∷ p) ↦ mkdirs fuel (c ∷ p) 493 ++ (mkdir dir mode ∷ [])
]

unfoldable pub mount_mkdir : Bytes → ℕ → List Call
unfolding mkdirs
mount_mkdir dir mode = mkdirs (suc (length dir)) dir mode

unfoldable pub mount_mkparent : Bytes → ℕ → List Call
unfolding parent mount_mkdir
mount_mkparent dir mode = elim (parent dir) [
  | none ↦ []
  | some [] ↦ []
  | some (c ∷ p) ↦ mount_mkdir (c ∷ p) mode
]

unfoldable pub mount_mkfile : Bytes → ℕ → List Call
unfolding mount_mkparent
mount_mkfile file mode = mount_mkparent file 493 ++ (create file mode ∷ [])

-- `is_dir` answers stat: `none` where it fails.
unfoldable pub mount_point : Option Bool → Bytes → List Call
unfolding mount_mkdir mount_mkfile
mount_point none target = poweroff ∷ []
mount_point (some true) target = mount_mkdir target 755
mount_point (some false) target = mount_mkfile target 644

unfoldable pub mount_entry : (Bytes → Option Bool) → Entry → List Call
unfolding mount_point mount_mkdir equal
mount_entry is_dir e =
    if equal e.type []
    then stat e.source
      ∷ (mount_point (is_dir e.source) e.target
          ++ (mount_call e.source e.target none (record no_flags { bind = true }) e.opts ∷ []))
    else mount_mkdir e.target 493
      ++ (mount_call e.source e.target (some e.type)
            (record no_flags { nosuid_nodev = equal e.type (codes "tmpfs") }) e.opts
          ∷ [])

unfoldable mount_other_opts : Bytes → Bytes → Bytes → ℕ → List Call
unfolding mount_mkdir
mount_other_opts dst type opts mode =
    mount_mkdir dst mode
    ++ (mount_call (codes "none") dst (some type) no_flags opts ∷ chmod dst mode ∷ [])

unfoldable pub mount_other : Bytes → Bytes → ℕ → List Call
unfolding mount_other_opts
mount_other dst type mode = mount_other_opts dst type [] mode

unfoldable pub mount_9pfs : Bytes → Bytes → ℕ → Bool → List Call
unfolding mount_mkdir
mount_9pfs src dst mode readonly =
    mount_mkdir dst mode
    ++ (mount_call src dst (some (codes "9p")) (record no_flags { rdonly = readonly })
          (codes "trans=virtio,version=9p2000.u")
        ∷ [])

-- The calls up to the first one that fails, or that ends the program.
unfoldable pub performed : (Call → Bool) → List Call → List Call
performed succeeds [] = []
performed succeeds (poweroff ∷ calls) = poweroff ∷ []
performed succeeds (crash ∷ calls) = crash ∷ []
performed succeeds (call ∷ calls) =
    let rest = performed succeeds calls in
    if succeeds call then call ∷ rest else call ∷ poweroff ∷ []

-- The loop of main over mounts.cfg.
abbrev entry_calls : (Bytes → Option Bool) → Option Entry → List Call → List Call
entry_calls is_dir none rest = crash ∷ []
entry_calls is_dir (some e) rest =
    if equal e.target (codes "/") then rest else mount_entry is_dir e ++ rest

unfoldable pub mount_all : (Bytes → Option Bool) → List Bytes → List Call
unfolding parse_entry mount_entry equal
mount_all is_dir [] = []
mount_all is_dir (l ∷ ls) = entry_calls is_dir (parse_entry l) (mount_all is_dir ls)

-- The root from an entry of mounts.cfg, with a temporary /dev for a device.
unfoldable pub mount_root_entry : (Bytes → Option Bool) → Bytes → Entry → List Call
unfolding mount_entry mount_other same_start
mount_root_entry is_dir path e =
    if same_start 5 e.source (codes "/dev/")
    then mount_other (codes "/proc") (codes "proc") 493
      ++ (mount_other (codes "/dev") (codes "devtmpfs") 493
          ++ (mount_entry is_dir (record e { target = path })
              ++ (umount (codes "/dev") ∷ umount (codes "/proc") ∷ [])))
    else mount_entry is_dir (record e { target = path })

-- The search of mount_root: the first entry for `/`, or a line that crashes it.
pub data Root : Type 0 where
  root_entry : Entry → Root
  no_root bad_line : Root

abbrev step_root : Option Entry → Root → Root
step_root none rest = bad_line
step_root (some e) rest = if equal e.target (codes "/") then root_entry e else rest

unfoldable pub find_root : List Bytes → Root
unfolding parse_entry equal
find_root [] = no_root
find_root (l ∷ ls) = step_root (parse_entry l) (find_root ls)

unfoldable pub root_calls : (Bytes → Option Bool) → Bytes → Bytes → Root → List Call
unfolding mount_root_entry mount_9pfs
root_calls is_dir path config_dir (root_entry e) =
    mount_root_entry is_dir path e ++ (umount config_dir ∷ [])
root_calls is_dir path config_dir no_root =
    umount config_dir ∷ mount_9pfs (codes "sandbox:root") path 493 true
root_calls is_dir path config_dir bad_line = crash ∷ []

-- `content` is what is read from mounts.cfg in `config_dir`.
unfoldable pub mount_root : (Bytes → Option Bool) → Bytes → Bytes → Bytes → List Call
unfolding root_calls find_root fgets mount_9pfs mount_mkdir
mount_root is_dir path config_dir content =
    mount_mkdir config_dir 493
    ++ (mount_9pfs (codes "sandbox:config") config_dir 493 true
        ++ root_calls is_dir path config_dir (find_root (lines content)))

-- setup_disk_tags: the links, each with its path, up to a line that crashes the loop.
pub data Links : Type 0 where
  linked : Links
  bad_links : Links
  link : (device path : Bytes) → Links → Links

abbrev tag_link : Option (Bytes × Bytes) → Links → Links
tag_link none rest = bad_links
tag_link (some (tag, s)) rest = elim (cut b'\n' s) [
  | none ↦ bad_links
  | some (device, _) ↦ link device (codes "/dev/disk/by-tag/" ++ tag) rest
]

unfoldable pub setup_disk_tags : List Bytes → Links
unfolding cut
setup_disk_tags [] = linked
setup_disk_tags (l ∷ ls) = tag_link (cut b'\t' l) (setup_disk_tags ls)

-- ===== src/Boot/Disks.antt =====
-- setup_disk_tags on what construct_disk_cfg writes.
use libvirt_sandbox.Base.{◌<◌, List, [], ◌∷◌, ◌++◌, Bytes, length}
use libvirt_sandbox.Boot.{Links, linked, link}
use libvirt_sandbox.Config.{Config, Disk}
use libvirt_sandbox.Config.Text.{codes}
use libvirt_sandbox.Config.Text.Laws.{Lacks}
use libvirt_sandbox.Machine.{Device, disk_device}

-- A tag that neither ends its field nor its line, and that fits the line beside `/dev/vdX`.
pub record IsTag (tag : Bytes) : Type 0 where
  pub no_tab : Lacks b'\t' tag
  pub no_newline : Lacks b'\n' tag
  pub fits : length tag < 1014

abbrev pub AreTags : List Disk → Type 0
AreTags [] = Unit
AreTags (d ∷ ds) = IsTag d.tag × AreTags ds

-- The links that give each disk's tag to its device.
pub links_for : List Disk → List Device → Links
links_for (d ∷ ds) (disk_device type format source dev bus ∷ vs) =
    link (codes "/dev/" ++ dev) (codes "/dev/disk/by-tag/" ++ d.tag) (links_for ds vs)
links_for _ _ = linked

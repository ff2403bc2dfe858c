-- ===== src/Machine.antt =====
-- libvirt-sandbox-builder-machine.c and libvirt-sandbox-builder.c: the devices of the domain, and
-- the files mounts.cfg and disks.cfg that the guest finds beside them. The calls of libvirt-gconfig
-- are recorded as the devices that they make.
pub mod Devices
use libvirt_sandbox.Base.{
  ℕ, suc, ◌+◌, ◌/◌, ◌%◌, Bool, true, false, Option, none, some, List, [], ◌∷◌, ◌++◌, map, Bytes,
  length, if◌then◌else◌,
}
use libvirt_sandbox.Config.{
  Config, Network, Disk, Mount, Filterref, host_bind, host_image, guest_bind, ram,
}
use libvirt_sandbox.Config.External.{Glib}
use libvirt_sandbox.Config.MountOptions.{has_root_mount}
use libvirt_sandbox.Config.Text.{codes, print}

-- A device with the properties that are set; `access` is PASSTHROUGH rather than SQUASH, and `bus`
-- that the bus is set to VIRTIO.
pub data Device : Type 0 where
  filesys : (source target : Bytes) → (access readonly : Bool) → Device
  disk_device : (type format : ℕ) → (source dev : Bytes) → (bus : Bool) → Device
  interface : (source mac : Option Bytes) → Option Filterref → Device
  memballoon console_serial serial console_virtio : Device

-- `"vd%c"` with `(char)('a' + n)`
unfoldable pub virtio_name : ℕ → Bytes
virtio_name n = codes "vd" ++ (((b'a' + n) % 256) ∷ [])

-- `"sandbox:mount%zu"`
unfoldable pub bind_name : ℕ → Bytes
unfolding print
bind_name n = codes "sandbox:mount" ++ print n []

-- The fields of a line of mounts.cfg.
pub record Entry : Type 0 where
  pub source : Bytes
  pub target : Bytes
  pub type : Bytes
  pub opts : Bytes

unfoldable pub entry_line : Entry → Bytes
entry_line e =
    e.source ++ (b'\t' ∷ (e.target ++ (b'\t' ∷ (e.type ++ (b'\t' ∷ (e.opts ++ (b'\n' ∷ [])))))))

-- The content of a file of lines.
unfoldable pub file_of : List Bytes → Bytes
file_of [] = []
file_of (l ∷ ls) = l ++ file_of ls

unfoldable pub disk_lines : ℕ → List Disk → List Bytes
unfolding virtio_name
disk_lines dev [] = []
disk_lines dev (d ∷ ds) =
    (d.tag ++ (b'\t' ∷ (codes "/dev/" ++ (virtio_name dev ++ (b'\n' ∷ [])))))
    ∷ disk_lines (suc dev) ds

unfoldable pub disk_devices : ℕ → List Disk → List Device
unfolding virtio_name
disk_devices dev [] = []
disk_devices dev (d ∷ ds) =
    disk_device d.type d.format d.source (virtio_name dev) true ∷ disk_devices (suc dev) ds

module _ (g : Glib) where
  -- The loop over the mounts, with the counters nHostBind and nVirtioDev.
  unfoldable pub mount_entries : ℕ → ℕ → List (Mount g) → List Entry
  unfolding virtio_name bind_name print
  mount_entries bind dev [] = []
  mount_entries bind dev (m ∷ ms) = elim m.kind [
    | host_bind source ↦
        (record {
          source = bind_name bind;
          target = m.target;
          type = codes "9p";
          opts = codes "trans=virtio,version=9p2000.u";
        })
        ∷ mount_entries (suc bind) dev ms
    | host_image source format ↦
        (record {
          source = codes "/dev/" ++ virtio_name dev;
          target = m.target;
          type = codes "ext4";
          opts = [];
        })
        ∷ mount_entries bind (suc dev) ms
    | guest_bind source ↦
        (record { source = source; target = m.target; type = []; opts = [] })
        ∷ mount_entries bind dev ms
    | ram usage ↦
        (record {
          source = codes "tmpfs";
          target = m.target;
          type = codes "tmpfs";
          opts = codes "size=" ++ print (usage / 1024) (codes "k");
        })
        ∷ mount_entries bind dev ms
  ]

  unfoldable pub write_mount_cfg : Config g → Bytes
  unfolding mount_entries entry_line file_of
  write_mount_cfg c = file_of (map entry_line (mount_entries 0 (length c.disks) c.mounts))

  unfoldable pub construct_disk_cfg : Config g → Bytes
  unfolding disk_lines file_of
  construct_disk_cfg c = file_of (disk_lines 0 c.disks)

  -- `privileged` is `getuid() == 0`.
  unfoldable pub mount_devices : Bool → ℕ → ℕ → List (Mount g) → List Device
  unfolding virtio_name bind_name
  mount_devices privileged bind dev [] = []
  mount_devices privileged bind dev (m ∷ ms) = elim m.kind [
    | host_bind source ↦
        filesys source (bind_name bind) privileged false
        ∷ mount_devices privileged (suc bind) dev ms
    | host_image source format ↦
        disk_device g.disk_file format source (virtio_name dev) false
        ∷ mount_devices privileged bind (suc dev) ms
    | guest_bind source ↦ mount_devices privileged bind dev ms
    | ram usage ↦ mount_devices privileged bind dev ms
  ]

  abbrev network_device : Network g → Device
  network_device n = interface n.source n.mac n.filterref

  unfoldable pub root_device : Config g → List Device
  unfolding has_root_mount
  root_device c =
      if has_root_mount g c then [] else filesys c.root (codes "sandbox:root") false true ∷ []

  -- `interactive` says that the configuration is a GVirSandboxConfigInteractive.
  unfoldable pub console_devices : Bool → Config g → List Device
  console_devices interactive c =
      memballoon
      ∷ console_serial
      ∷ serial
      ∷ ((if c.shell then serial ∷ [] else []) ++ (if interactive then console_virtio ∷ [] else []))

  unfoldable pub construct_devices : Bool → Bool → Bytes → Config g → List Device
  unfolding root_device disk_devices mount_devices console_devices
  construct_devices privileged interactive configdir c =
      root_device c
      ++ (filesys configdir (codes "sandbox:config") false true
          ∷ (disk_devices 0 c.disks
              ++ (mount_devices privileged 0 (length c.disks) c.mounts
                  ++ (map network_device c.networks ++ console_devices interactive c))))

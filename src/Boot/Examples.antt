-- ===== src/Boot/Examples.antt =====
-- The guest's reading of mounts.cfg and disks.cfg at concrete inputs.
use libvirt_sandbox.Base.{◌≡◌, Bool, List, true, Option, some, [], ◌∷◌, Bytes, arith}
use libvirt_sandbox.Boot.{mount_all, mount_mkdir, find_root, lines}
use libvirt_sandbox.Boot.Entries.{AreFields, AreShort}
use libvirt_sandbox.Boot.Mkdir.{make_all, make_all-mount_mkdir}
use libvirt_sandbox.Boot.Mounts.{
  AgreeOnRoot, calls_for, mount_all-write_mount_cfg, find_root-has_root_mount,
}
use libvirt_sandbox.Config.{Config, Mount, MountKind, host_bind, host_image, guest_bind, ram}
use libvirt_sandbox.Config.Examples.{simple}
use libvirt_sandbox.Config.Load.Core.{Surroundings, config_init}
use libvirt_sandbox.Config.MountOptions.{has_root_mount}
use libvirt_sandbox.Config.Text.{codes, print}
use libvirt_sandbox.Machine.{
  entry_line, bind_name, virtio_name, mount_entries, mount_devices, write_mount_cfg,
}
use libvirt_sandbox.Machine.Devices.{host_sources, guest_names, mount_entries-mount_devices}

abbrev surroundings : Surroundings simple
surroundings = record {
  machine = codes "x86_64";
  euid = 1000;
  egid = 1000;
  user_name = codes "fred";
  home_dir = codes "/home/fred";
}

abbrev mount_of : MountKind → Bytes → Mount simple
mount_of kind target = record { kind = kind; target = target; includes = [] }

-- A root image, a directory of the host, a part of it mounted again, and a file system in memory.
abbrev sandbox : Config simple
sandbox = record (config_init simple surroundings) {
  disks = (record { type = 0; tag = codes "data"; source = codes "/img/a"; format = 0 }) ∷ [];
  mounts =
      mount_of (host_image (codes "/img/root") 0) (codes "/")
      ∷ mount_of (host_bind (codes "/home")) (codes "/mnt")
      ∷ mount_of (guest_bind (codes "/mnt/a")) (codes "/srv")
      ∷ mount_of (ram 1048576) (codes "/tmp")
      ∷ [];
}

abbrev any_dir : Bytes → Option Bool
any_dir path = some true

sandbox_fields : AreFields simple sandbox.mounts
sandbox_fields = ground arith

sandbox_short : AreShort (mount_entries simple 0 1 sandbox.mounts)
unfolding mount_entries entry_line bind_name virtio_name print
sandbox_short = (omega arith, (omega arith, (omega arith, (omega arith, tt))))

mount_all-write_mount_cfg_example :
    mount_all any_dir (lines (write_mount_cfg simple sandbox))
    ≡ calls_for any_dir (mount_entries simple 0 1 sandbox.mounts)
mount_all-write_mount_cfg_example =
    mount_all-write_mount_cfg simple any_dir sandbox (omega arith) sandbox_fields sandbox_short

find_root-has_root_mount_example :
    AgreeOnRoot (has_root_mount simple sandbox) (find_root (lines (write_mount_cfg simple sandbox)))
find_root-has_root_mount_example =
    find_root-has_root_mount simple sandbox (omega arith) sandbox_fields sandbox_short

mount_entries-mount_devices_example :
    host_sources (mount_entries simple 0 1 sandbox.mounts)
    ≡ guest_names (mount_devices simple true 0 1 sandbox.mounts)
mount_entries-mount_devices_example = mount_entries-mount_devices simple true 0 1 sandbox.mounts

make_all-mount_mkdir_example :
    (all : List Bytes) × (make_all [] (mount_mkdir (codes "/a/b") 493) ≡ some (codes "/a/b" ∷ all))
make_all-mount_mkdir_example = make_all-mount_mkdir (codes "/a/b") 493 []

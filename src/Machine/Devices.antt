-- ===== src/Machine/Devices.antt =====
-- The devices of the domain against the files that the guest reads.
use libvirt_sandbox.Base.{
  ℕ, suc, ◌≡◌, refl, ap, ◌||◌, if◌then◌else◌, Bool, List, [], ◌∷◌, ◌++◌, Bytes,
}
use libvirt_sandbox.Config.{Mount, host_bind, host_image, guest_bind, ram}
use libvirt_sandbox.Config.External.{Glib}
use libvirt_sandbox.Config.Text.{codes, equal}
use libvirt_sandbox.Machine.{
  Device, filesys, disk_device, Entry, mount_entries, mount_devices, virtio_name, bind_name,
}

-- The sources of the entries that the host provides.
pub host_sources : List Entry → List Bytes
unfolding equal
host_sources [] = []
host_sources (e ∷ es) =
    let rest = host_sources es in
    if equal e.type (codes "9p") || equal e.type (codes "ext4") then e.source ∷ rest else rest

-- The names that the guest has for devices.
pub guest_names : List Device → List Bytes
guest_names [] = []
guest_names (filesys source target access readonly ∷ ds) = target ∷ guest_names ds
guest_names (disk_device type format source dev bus ∷ ds) = (codes "/dev/" ++ dev) ∷ guest_names ds
guest_names (_ ∷ ds) = guest_names ds

module _ (g : Glib) where
  -- The entries of mounts.cfg that the host provides (9p and ext4) name the devices that
  -- construct_devices makes for the mounts, one for one and in their order, whatever the two
  -- counters start from.
  pub mount_entries-mount_devices :
      (privileged : Bool) (bind dev : ℕ) (ms : List (Mount g))
      → host_sources (mount_entries g bind dev ms)
        ≡ guest_names (mount_devices g privileged bind dev ms)
  unfolding host_sources guest_names mount_entries mount_devices equal
  mount_entries-mount_devices privileged bind dev [] = refl
  mount_entries-mount_devices privileged bind dev (m ∷ ms) =
      elim m.kind
        as (λ k.
          host_sources (mount_entries g bind dev (record m { kind = k } ∷ ms))
          ≡ guest_names (mount_devices g privileged bind dev (record m { kind = k } ∷ ms))) [
            | host_bind source ↦
                ap (λ x. bind_name bind ∷ x)
                  (mount_entries-mount_devices privileged (suc bind) dev ms)
            | host_image source format ↦
                ap (λ x. (codes "/dev/" ++ virtio_name dev) ∷ x)
                  (mount_entries-mount_devices privileged bind (suc dev) ms)
            | guest_bind source ↦ mount_entries-mount_devices privileged bind dev ms
            | ram usage ↦ mount_entries-mount_devices privileged bind dev ms
          ]

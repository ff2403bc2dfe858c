-- ===== src/Config/Save.antt =====
-- save_config* and save_to_keyfile of libvirt-sandbox-config.c.
use libvirt_sandbox.Base.{ℕ, suc, Option, none, some, List, [], ◌∷◌, Bytes, length}
use libvirt_sandbox.Config.{
  Config, Network, Address, Route, Disk, Mount, MountKind, host_bind, host_image, guest_bind, ram,
}
use libvirt_sandbox.Config.External.{Glib}
use libvirt_sandbox.Config.Groups.{
  Group, core, identity, security, mount, env, disk, network, mount_include, network_address,
  network_route,
}
use libvirt_sandbox.Config.KeyFile.{set_string, set_boolean, set_uint64, set_optional}
use libvirt_sandbox.Config.Text.{codes, print}

-- `g_type_name` of the class of a mount.
unfoldable pub kind_name : MountKind → Bytes
kind_name (host_bind source) = codes "GVirSandboxConfigMountHostBind"
kind_name (host_image source format) = codes "GVirSandboxConfigMountHostImage"
kind_name (guest_bind source) = codes "GVirSandboxConfigMountGuestBind"
kind_name (ram usage) = codes "GVirSandboxConfigMountRam"

-- A loop over a list, or over the iterator of a table, with its counter.
unfoldable pub save_each {ℓ} : {A : Type ℓ} {F : Type 0} → (ℕ → A → F → F) → ℕ → List A → F → F
save_each save i [] file = file
save_each save i (a ∷ more) file = save_each save (suc i) more (save i a file)

module _ (g : Glib) where
  unfoldable pub save_config_env : ℕ → Bytes × Bytes → g.KeyFile → g.KeyFile
  save_config_env i (k, v) file =
      set_string g (env i) (codes "value") v (set_string g (env i) (codes "key") k file)

  unfoldable pub save_config_disk : ℕ → Disk → g.KeyFile → g.KeyFile
  save_config_disk i d file =
      let f1 = set_string g (disk i) (codes "type") (g.disk_type_nick d.type) file in
      let f2 = set_string g (disk i) (codes "source") d.source f1 in
      let f3 = set_string g (disk i) (codes "tag") d.tag f2 in
      set_string g (disk i) (codes "format") (g.disk_format_nick d.format) f3

  -- The keys that depend on the class of the mount.
  unfoldable pub save_kind : Group → MountKind → g.KeyFile → g.KeyFile
  save_kind a (ram usage) file = set_string g a (codes "usage") (print usage []) file
  save_kind a (host_image source format) file =
      set_string g a (codes "source") source
        (set_string g a (codes "format") (g.disk_format_nick format) file)
  save_kind a (host_bind source) file = set_string g a (codes "source") source file
  save_kind a (guest_bind source) file = set_string g a (codes "source") source file

  unfoldable pub save_include : ℕ → ℕ → Bytes × Bytes → g.KeyFile → g.KeyFile
  save_include i j (dst, src) file =
      set_string g (mount_include i j) (codes "src") src
        (set_string g (mount_include i j) (codes "dst") dst file)

  unfoldable pub save_config_mount : ℕ → Mount g → g.KeyFile → g.KeyFile
  unfolding save_kind save_each save_include kind_name
  save_config_mount i m file =
      let f1 = set_string g (mount i) (codes "type") (kind_name m.kind) file in
      let f2 = set_string g (mount i) (codes "target") m.target f1 in
      let f3 = save_kind (mount i) m.kind f2 in
      save_each (save_include i) 0 (g.entries m.includes) f3

  -- An address that is NULL is refused by the checks of GLib, and sets nothing.
  abbrev pub printed : Option g.Inet → Option Bytes
  printed none = none
  printed (some a) = some (g.inet_print a)

  unfoldable pub save_address : ℕ → ℕ → Address g → g.KeyFile → g.KeyFile
  save_address i j addr file =
      let a = network_address i j in
      let f1 = set_optional g a (codes "primary") (printed addr.primary) file in
      let f2 = set_optional g a (codes "broadcast") (printed addr.broadcast) f1 in
      set_uint64 g a (codes "prefix") addr.prefix f2

  unfoldable pub save_route : ℕ → ℕ → Route g → g.KeyFile → g.KeyFile
  save_route i j route file =
      let a = network_route i j in
      let f1 = set_uint64 g a (codes "prefix") route.prefix file in
      let f2 = set_optional g a (codes "gateway") (printed route.gateway) f1 in
      set_optional g a (codes "target") (printed route.target) f2

  -- The keys of the network itself, behind those of its addresses and routes.
  unfoldable pub save_network_keys : ℕ → Network g → g.KeyFile → g.KeyFile
  save_network_keys i n file =
      let a = network i in
      let f1 = set_boolean g a (codes "dhcp") n.dhcp file in
      let f2 = set_optional g a (codes "source") n.source f1 in
      let f3 = set_optional g a (codes "mac") n.mac f2 in
      let f4 = set_uint64 g a (codes "addresses") (length n.addrs) f3 in
      set_uint64 g a (codes "routes") (length n.routes) f4

  unfoldable pub save_config_network : ℕ → Network g → g.KeyFile → g.KeyFile
  unfolding save_each save_address save_route save_network_keys
  save_config_network i n file =
      let f1 = save_each (save_address i) 0 n.addrs file in
      let f2 = save_each (save_route i) 0 n.routes f1 in save_network_keys i n f2

  unfoldable pub save_core : Config g → g.KeyFile → g.KeyFile
  save_core c file =
      let f1 = set_string g core (codes "name") c.name file in
      let f2 = set_optional g core (codes "uuid") c.uuid f1 in
      let f3 = set_string g core (codes "root") c.root f2 in
      let f4 = set_string g core (codes "arch") c.arch f3 in
      let f5 = set_optional g core (codes "kernrelease") c.kernrelease f4 in
      let f6 = set_optional g core (codes "kernpath") c.kernpath f5 in
      let f7 = set_optional g core (codes "kmodpath") c.kmodpath f6 in
      set_boolean g core (codes "shell") c.shell f7

  unfoldable pub save_identity : Config g → g.KeyFile → g.KeyFile
  save_identity c file =
      let f1 = set_uint64 g identity (codes "uid") c.uid file in
      let f2 = set_uint64 g identity (codes "gid") c.gid f1 in
      let f3 = set_string g identity (codes "username") c.username f2 in
      set_string g identity (codes "homedir") c.homedir f3

  unfoldable pub save_objects : Config g → g.KeyFile → g.KeyFile
  unfolding save_each save_config_env save_config_disk save_config_mount save_config_network
  save_objects c file =
      let f1 = save_each save_config_mount 0 c.mounts file in
      let f2 = save_each save_config_env 0 (g.entries c.envs) f1 in
      let f3 = save_each save_config_disk 0 c.disks f2 in
      save_each save_config_network 0 c.networks f3

  unfoldable pub save_security : Config g → g.KeyFile → g.KeyFile
  save_security c file =
      set_boolean g security (codes "dynamic") c.sec_dynamic
        (set_optional g security (codes "label") c.sec_label file)

  unfoldable pub save_flags : Config g → g.KeyFile → g.KeyFile
  save_flags c file =
      set_boolean g core (codes "verbose") c.verbose
        (set_boolean g core (codes "debug") c.debug file)

  unfoldable pub save_config : Config g → g.KeyFile → g.KeyFile
  unfolding save_core save_identity save_objects save_security save_flags
  save_config c file =
      save_flags c (save_security c (save_objects c (save_identity c (save_core c file))))

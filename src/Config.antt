-- ===== src/Config.antt =====
-- libvirt-sandbox/libvirt-sandbox-config.c and the objects that a configuration holds:
-- libvirt-sandbox-config-disk.c, -mount.c with its kinds, -network.c with its addresses, routes and
-- filters. The objects are records; lists and tables hold their values.
pub mod Text
pub mod External
pub mod NetworkOptions
pub mod EnvOptions
pub mod DiskOptions
pub mod MountOptions
pub mod Includes
pub mod Security
pub mod Groups
pub mod KeyFile
pub mod Save
pub mod Load
pub mod RoundTrip
pub mod Examples
use libvirt_sandbox.Base.{ℕ, Bool, Option, List, ◌∷◌, [], ◌++◌, Bytes}
use libvirt_sandbox.Config.External.{Glib}

-- The primary address is NULL where a configuration file has one that does not parse.
pub record Address (g : Glib) : Type 0 where
  pub primary : Option g.Inet
  pub prefix : ℕ
  pub broadcast : Option g.Inet

pub record Route (g : Glib) : Type 0 where
  pub prefix : ℕ
  pub gateway : Option g.Inet
  pub target : Option g.Inet

pub record Filterref : Type 0 where
  pub filter : Option Bytes
  pub parameters : List (Bytes × Bytes)

pub record Network (g : Glib) : Type 0 where
  pub dhcp : Bool
  pub source : Option Bytes
  pub mac : Option Bytes
  pub routes : List (Route g)
  pub addrs : List (Address g)
  pub filterref : Option Filterref

pub record Disk : Type 0 where
  pub type : ℕ
  pub tag : Bytes
  pub source : Bytes
  pub format : ℕ

-- The class of a mount, with the properties that it adds to those of GVirSandboxConfigMount.
pub data MountKind : Type 0 where
  host_bind : Bytes → MountKind
  host_image : Bytes → ℕ → MountKind
  guest_bind : Bytes → MountKind
  ram : ℕ → MountKind

-- The keys of `includes` are the paths within the mount, the values those on the host.
pub record Mount (g : Glib) : Type 0 where
  pub kind : MountKind
  pub target : Bytes
  pub includes : g.Table

pub record Config (g : Glib) : Type 0 where
  pub name : Bytes
  pub uuid : Option Bytes
  pub root : Bytes
  pub arch : Bytes
  pub kernrelease : Option Bytes
  pub kernpath : Option Bytes
  pub kmodpath : Option Bytes
  pub shell : Bool
  pub uid : ℕ
  pub gid : ℕ
  pub username : Bytes
  pub homedir : Bytes
  pub networks : List (Network g)
  pub mounts : List (Mount g)
  pub disks : List Disk
  pub envs : g.Table
  pub sec_label : Option Bytes
  pub sec_dynamic : Bool
  pub debug : Bool
  pub verbose : Bool

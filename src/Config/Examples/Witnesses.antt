-- ===== src/Config/Examples/Witnesses.antt =====
-- The theorems about the configuration at concrete inputs.
use libvirt_sandbox.Base.{
  ℕ, ◌<◌, ◌≤◌, ◌^◌, ◌*◌, ◌≡◌, ◌≢◌, ◌⊎◌, refl, false, none, some, List, [], ◌∷◌, ◌++◌, map, Bytes,
  arith, length,
}
use libvirt_sandbox.Config.{Config, Network, Mount, host_image, ram, host_bind}
use libvirt_sandbox.Config.DiskOptions.{add_disk_opts}
use libvirt_sandbox.Config.DiskOptions.Format.{disk_text, add_disk_opts_reads_back}
use libvirt_sandbox.Config.EnvOptions.{add_env_strv}
use libvirt_sandbox.Config.EnvOptions.Latest.{
  assignment, latest, after, add_env_strv-latest, add_env_strv_stops,
}
use libvirt_sandbox.Config.Examples.{
  simple, simple_table, simple_file, simple_inet, at_commas, distinct, without,
}
use libvirt_sandbox.Config.Includes.{include_at}
use libvirt_sandbox.Config.Includes.First.{IsFirst, Misses, include_at-IsFirst}
use libvirt_sandbox.Config.Load.Core.{Surroundings, config_init, load_config}
use libvirt_sandbox.Config.MountOptions.{bind_type, add_mount_opts, mount_new}
use libvirt_sandbox.Config.MountOptions.Abbreviated.{
  IsAdded, mount_text, named_empty, add_mount_opts_abbreviated,
}
use libvirt_sandbox.Config.MountOptions.Ram.{gib, factor, suffix, add_mount_opts_ram}
use libvirt_sandbox.Config.NetworkOptions.{add_network_opts, network_new}
use libvirt_sandbox.Config.NetworkOptions.Consistent.{IsConsistent, add_network_opts-IsConsistent}
use libvirt_sandbox.Config.RoundTrip.{All, Pairwise}
use libvirt_sandbox.Config.RoundTrip.Envs.{IsEnvText}
use libvirt_sandbox.Config.RoundTrip.Mounts.Keys.{IsKindText}
use libvirt_sandbox.Config.RoundTrip.Networks.{IsNetworkText}
use libvirt_sandbox.Config.RoundTrip.Settings.{IsSettingsText}
use libvirt_sandbox.Config.RoundTrip.Mounts.{IsMountText, IsSameMount}
use libvirt_sandbox.Config.RoundTrip.Networks.Own.{unfiltered}
use libvirt_sandbox.Config.RoundTrip.Whole.{IsSavable, load_config-save_config}
use libvirt_sandbox.Config.Save.{save_config}
use libvirt_sandbox.Config.Security.{set_security_opts}
use libvirt_sandbox.Config.Security.Modes.{
  inherit, security_text, is_dynamic, label_of, set_security_opts_modes,
}
use libvirt_sandbox.Config.Text.{codes, print, equal}
use libvirt_sandbox.Result.{ok, err, wrong_environment_format, no_mount_with_prefix}

abbrev host : Surroundings simple
host = record {
  machine = codes "x86_64";
  euid = 1000;
  egid = 1000;
  user_name = codes "fred";
  home_dir = codes "/home/fred";
}

abbrev newborn : Config simple
newborn = config_init simple host

abbrev net : Network simple
net = record (network_new simple) {
  dhcp = false;
  source = some (codes "default");
  addrs =
      (record {
        primary = some (codes "10.0.0.1");
        prefix = 8;
        broadcast = some (codes "10.0.0.255");
      })
      ∷ [];
  routes =
      (record {
        prefix = 24;
        gateway = some (codes "10.0.0.3");
        target = some (codes "192.168.1.0");
      })
      ∷ [];
}

network_accepted :
    add_network_opts simple
      (codes "source=default,address=10.0.0.1/8%10.0.0.255,route=192.168.1.0%10.0.0.3")
      newborn
    ≡ ok (record newborn { networks = net ∷ [] })
unfolding add_network_opts at_commas config_init
network_accepted = refl

add_network_opts-IsConsistent_example :
    (n : Network simple) × (record newborn { networks = net ∷ [] }
      ≡ record newborn { networks = newborn.networks ++ (n ∷ []) })
    × IsConsistent n
add_network_opts-IsConsistent_example =
    add_network_opts-IsConsistent simple
      (codes "source=default,address=10.0.0.1/8%10.0.0.255,route=192.168.1.0%10.0.0.3") newborn
      (record newborn { networks = net ∷ [] }) network_accepted

abbrev twice : List (Bytes × Bytes)
twice = (codes "A", codes "1") ∷ (codes "B", []) ∷ (codes "A", codes "2=3") ∷ []

add_env_strv-latest_example :
    (c' : Config simple) × (add_env_strv simple (map assignment twice) newborn ≡ ok c')
    × (c' ≡ record newborn { envs = c'.envs })
    × ((k : Bytes) → simple.lookup k c'.envs ≡ latest k twice (simple.lookup k newborn.envs))
add_env_strv-latest_example = add_env_strv-latest simple simple_table twice newborn (omega arith)

add_env_strv_stops_example :
    add_env_strv simple (map assignment twice ++ (codes "C" ∷ codes "D=4" ∷ [])) newborn
    ≡ err (wrong_environment_format (codes "C")) (after simple twice newborn)
add_env_strv_stops_example =
    add_env_strv_stops simple twice (codes "C") (codes "D=4" ∷ []) newborn (omega arith)
      (omega arith)

file_known : simple.disk_type (codes "file") ≡ some 0
unfolding equal
file_known = refl

qcow2_known : simple.disk_format (codes "qcow2") ≡ some 1
unfolding equal
qcow2_known = refl

add_disk_opts_reads_back_example :
    add_disk_opts simple
      (disk_text
        (codes "file")
        (codes "cache")
        (codes "/tmp/img.blah" ++ (b',' ∷ (codes "format=" ++ codes "qcow2"))))
      newborn
    ≡ ok (record newborn {
      disks =
          newborn.disks
          ++ (record { type = 0; tag = codes "cache"; source = codes "/tmp/img.blah"; format = 1 }
              ∷ []);
    })
add_disk_opts_reads_back_example =
    add_disk_opts_reads_back simple (codes "file") (codes "cache") (codes "/tmp/img.blah") newborn
      (omega arith) (omega arith) (omega arith) file_known (codes "qcow2") 1 qcow2_known

add_mount_opts_abbreviated_example :
    IsAdded simple bind_type
      (codes "/tmp")
      (codes "/var/tmp")
      newborn
      (add_mount_opts simple (mount_text [] (codes "/tmp") (codes "/var/tmp")) newborn)
add_mount_opts_abbreviated_example =
    add_mount_opts_abbreviated simple [] (codes "/tmp") (codes "/var/tmp") bind_type newborn
      (omega arith) (omega arith) named_empty

add_mount_opts_ram_example :
    (size : ℕ) × (add_mount_opts simple
        (mount_text (codes "ram") (codes "/tmp") (print 2 (suffix gib)))
        newborn
      ≡ ok (record newborn {
        mounts = newborn.mounts ++ (mount_new simple (ram size) (codes "/tmp") ∷ []);
      }))
    × (((2 * factor gib < 2 ^ 31) × (size ≡ 2 * factor gib))
        ⊎ ((2 ^ 31 ≤ 2 * factor gib) × (size ≢ 2 * factor gib)))
add_mount_opts_ram_example =
    add_mount_opts_ram simple (codes "/tmp") 2 gib newborn (omega arith) (omega arith)

abbrev home : Mount simple
home = mount_new simple (host_bind (codes "/tmp/home")) (codes "/home")

abbrev with_home : Config simple
with_home = record newborn { mounts = home ∷ [] }

include_at-IsFirst_example :
    ((include_at simple (codes "/home2/x", codes "/x") with_home
        ≡ err (no_mount_with_prefix (codes "/home2/x")) with_home)
      × Misses simple (codes "/home2/x") (codes "/x") with_home.mounts)
    ⊎ ((new : List (Mount simple)) × (include_at simple (codes "/home2/x", codes "/x") with_home
          ≡ ok (record with_home { mounts = new }))
        × IsFirst simple (codes "/home2/x") (codes "/x") with_home.mounts new)
include_at-IsFirst_example = include_at-IsFirst simple (codes "/home2/x") (codes "/x") with_home

set_security_opts_modes_example :
    set_security_opts (some (codes "user_t")) (security_text inherit none) newborn
    ≡ ok (record newborn {
      sec_dynamic = is_dynamic inherit;
      sec_label = label_of inherit none (codes "user_t") newborn.sec_label;
    })
set_security_opts_modes_example = set_security_opts_modes (codes "user_t") inherit none newborn

-- A configuration with an object of each kind.
abbrev full : Config simple
full = record newborn {
  networks = net ∷ [];
  mounts =
      (record home { includes = (codes "/a", codes "/b") ∷ [] })
      ∷ mount_new simple (ram 1024) (codes "/tmp")
      ∷ mount_new simple (host_image (codes "/img") 1) (codes "/etc")
      ∷ [];
  envs = twice;
  disks = (record { type = 0; tag = codes "cache"; source = codes "/img"; format = 1 }) ∷ [];
  sec_label = some (codes "user_t");
}

full_settings : IsSettingsText simple full
unfolding config_init
full_settings = record {
  name_utf8 = refl;
  root_utf8 = refl;
  arch_utf8 = refl;
  username_utf8 = refl;
  homedir_utf8 = refl;
  uuid_utf8 = tt;
  kernrelease_utf8 = tt;
  kernpath_utf8 = tt;
  kmodpath_utf8 = tt;
  label_utf8 = refl;
  uid_fits = omega arith;
  gid_fits = omega arith;
}

net_text : IsNetworkText simple net
net_text = record {
  source_utf8 = refl;
  mac_utf8 = tt;
  addrs_there = (((codes "10.0.0.1", refl), omega arith), tt);
  routes_there = (((codes "192.168.1.0", refl), (codes "10.0.0.3", refl), omega arith), tt);
  addrs_few = omega arith;
  routes_few = omega arith;
}

simple_mount-IsMountText :
    (m : Mount simple)
    → IsKindText simple m.kind
    → (length (simple.entries m.includes) ≤ 1024)
    → All (IsEnvText simple) (simple.entries m.includes)
    → IsMountText simple m
simple_mount-IsMountText m k few texts = record {
  target_utf8 = refl;
  kind_text = k;
  includes_utf8 = texts;
  includes_few = few;
}

entries-All : (es : List (Bytes × Bytes)) → All (IsEnvText simple) es
entries-All [] = tt
entries-All (e ∷ es) = ((refl, refl), entries-All es)

full-IsSavable : IsSavable simple full
unfolding distinct without equal config_init
full-IsSavable = record {
  settings_text = full_settings;
  networks_text = (net_text, tt);
  mounts_text = (
    simple_mount-IsMountText _ refl (omega arith) (entries-All ((codes "/a", codes "/b") ∷ [])),
    (
      simple_mount-IsMountText _ (omega arith) (omega arith) tt,
      (simple_mount-IsMountText _ (refl, refl, refl) (omega arith) tt, tt),
    ),
  );
  envs_text = entries-All (simple.entries full.envs);
  disks_text = (
    (record {
      tag_utf8 = refl;
      source_utf8 = refl;
      type_utf8 = refl;
      format_utf8 = refl;
      type_known = refl;
      format_known = refl;
    }),
    tt,
  );
  networks_few = omega arith;
  mounts_few = omega arith;
  envs_few = omega arith;
  disks_few = omega arith;
}

load_config-save_config_example :
    (ms : List (Mount simple)) × (envs : simple.Table) × (load_config simple
        (save_config simple full simple.file_new)
        (config_init simple host)
      ≡ ok (record full {
        networks = map (unfiltered simple) full.networks;
        mounts = ms;
        envs = envs;
      }))
    × Pairwise (IsSameMount simple) full.mounts ms
    × ((k : Bytes) → simple.lookup k envs ≡ simple.lookup k full.envs)
load_config-save_config_example =
    load_config-save_config simple simple_file simple_table simple_inet full simple.file_new
      full-IsSavable (λ b h. refl) host

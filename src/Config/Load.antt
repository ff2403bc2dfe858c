-- ===== src/Config/Load.antt =====
-- load_config* and load_from_keyfile of libvirt-sandbox-config.c. The caller's GError pointer is
-- there: the functions read through it.
pub mod Core
use libvirt_sandbox.Base.{
  ℕ, zero, suc, ◌%◌, Bool, true, false, Option, none, some, List, [], ◌∷◌, ◌++◌, Bytes, u32_mod,
  if◌then◌else◌,
}
use libvirt_sandbox.Config.{
  Config, Network, Address, Route, Disk, Mount, MountKind, host_bind, host_image, guest_bind, ram,
}
use libvirt_sandbox.Config.EnvOptions.{add_env}
use libvirt_sandbox.Config.DiskOptions.{add_disk}
use libvirt_sandbox.Config.External.{Glib, Lookup, value, no_group, no_key, malformed}
use libvirt_sandbox.Config.Groups.{
  Group, api, core, identity, security, mount, env, disk, network, mount_include, network_address,
  network_route,
}
use libvirt_sandbox.Config.Includes.{add_include}
use libvirt_sandbox.Config.KeyFile.{Reader, reader, string_in, boolean_in, uint64_in, present}
use libvirt_sandbox.Config.MountOptions.{
  MountType, bind_type, image_type, guest_type, ram_type, mount_new, add_mount,
}
use libvirt_sandbox.Config.NetworkOptions.{network_new, add_network}
use libvirt_sandbox.Config.Text.{codes, equal, strtol, to_int, extend}
use libvirt_sandbox.Result.{
  Error, Result, ok, err, fault, ◌>>=◌, mount_target_missing, mount_type_missing,
  mount_usage_missing, mount_source_missing, image_format_missing, env_key_missing,
  env_value_missing, disk_tag_missing, disk_source_missing, disk_type_missing, disk_format_missing,
  mount_type_unknown, image_format_unknown, disk_type_unknown, disk_format_unknown, class_missing,
  class_unknown, class_unrelated, key_file_failed,
}

-- An object from its groups: NULL with no error where the group is not there. `crashed` stands for
-- an access through NULL.
pub data Loaded {ℓ} (A : Type ℓ) : Type ℓ where
  found : A → Loaded A
  absent crashed : Loaded A
  failed : Error → Loaded A

abbrev pub required {ℓ} : {A : Type 0} {B : Type ℓ} → Option A → Error → (A → Loaded B) → Loaded B
required none e f = failed e
required (some a) e f = f a

-- The first key that is read tells whether the group is there.
abbrev pub first_key {ℓ} : {A : Type 0} {B : Type ℓ} → Lookup A → Error → (A → Loaded B) → Loaded B
first_key (value a) e f = f a
first_key no_group e f = absent
first_key no_key e f = failed e
first_key malformed e f = failed e

-- A loop over the indices of groups that ends at the first one that is not there.
abbrev next {ℓ} : {A : Type ℓ} → (A → Loaded (List A)) → List A → Loaded A → Loaded (List A)
next go done (found a) = go a
next go done absent = found done
next go done crashed = crashed
next go done (failed e) = failed e

unfoldable pub load_while {ℓ} : {A : Type ℓ} → (ℕ → Loaded A) → ℕ → ℕ → List A → Loaded (List A)
load_while load zero j done = found done
load_while load (suc n) j done =
    next (λ a. load_while load n (suc j) (done ++ (a ∷ []))) done (load j)

-- A loop over all indices, which passes over those that are not there.
abbrev taken_in {ℓ κ} : {A : Type ℓ} {C : Type κ} → (A → C → C) → C → Loaded A → Result C
taken_in add c (found a) = ok (add a c)
taken_in add c absent = ok c
taken_in add c crashed = fault
taken_in add c (failed e) = err e c

unfoldable pub load_each {ℓ κ} :
    {A : Type ℓ} {C : Type κ} → (ℕ → Loaded A) → (A → C → C) → ℕ → ℕ → C → Result C
load_each load add zero i c = ok c
load_each load add (suc n) i c = taken_in add c (load i) >>= load_each load add n (suc i)

-- `g_type_from_name`, of which only the four classes are meaningful: any other name is unknown.
unfoldable pub mount_class : Bytes → Option MountType
unfolding equal
mount_class s =
    if equal s (codes "GVirSandboxConfigMountHostBind")
    then some bind_type
    else if equal s (codes "GVirSandboxConfigMountHostImage")
    then some image_type
    else if equal s (codes "GVirSandboxConfigMountGuestBind")
    then some guest_type
    else if equal s (codes "GVirSandboxConfigMountRam")
    then some ram_type
    else none

abbrev pub or_kept : {A : Type 0} → Lookup A → A → A
or_kept (value a) old = a
or_kept _ old = old

abbrev pub kept_optional : {A : Type 0} → Lookup A → Option A → Option A
kept_optional (value a) old = some a
kept_optional _ old = old

module _ (g : Glib) where
  unfoldable pub env_from : Reader → Loaded (Bytes × Bytes)
  env_from r = first_key (string_in g r (codes "key")) env_key_missing (λ k.
      required (present (string_in g r (codes "value"))) env_value_missing (λ v. found (k, v)))

  unfoldable pub disk_from : Reader → Loaded Disk
  disk_from r = first_key (string_in g r (codes "tag")) disk_tag_missing (λ tag.
      required (present (string_in g r (codes "source"))) disk_source_missing (λ source.
        required (present (string_in g r (codes "type"))) disk_type_missing (λ nick.
          required (g.disk_type nick) (disk_type_unknown nick) (λ type.
            required (present (string_in g r (codes "format"))) disk_format_missing (λ text.
              required (g.disk_format text) (disk_format_unknown text) (λ format.
                found (record { type = type; tag = tag; source = source; format = format })))))))

  unfoldable pub ram_from : Reader → Loaded MountKind
  unfolding strtol
  ram_from r =
      required (present (string_in g r (codes "usage"))) mount_usage_missing
        (λ s. found (ram (extend (to_int (strtol s).0))))

  -- The properties of the class, and the object.
  unfoldable pub kind_from : MountType → Reader → Loaded MountKind
  unfolding ram_from
  kind_from ram_type r = ram_from r
  kind_from image_type r =
      required (present (string_in g r (codes "source"))) mount_source_missing (λ source.
        required (present (string_in g r (codes "format"))) image_format_missing (λ text.
          required (g.disk_format text) (image_format_unknown text)
            (λ format. found (host_image source format))))
  kind_from bind_type r =
      required (present (string_in g r (codes "source"))) mount_source_missing
        (λ source. found (host_bind source))
  kind_from guest_type r =
      required (present (string_in g r (codes "source"))) mount_source_missing
        (λ source. found (guest_bind source))

  -- A path within the mount that is missing is a NULL key for the table.
  unfoldable pub include_from : Reader → Loaded (Bytes × Bytes)
  include_from r = first_key (string_in g r (codes "src")) key_file_failed (λ src.
      elim (present (string_in g r (codes "dst"))) [ none ↦ crashed | some dst ↦ found (dst, src) ])

  unfoldable pub add_includes : List (Bytes × Bytes) → Mount g → Mount g
  add_includes [] m = m
  add_includes ((dst, src) ∷ es) m = add_includes es (add_include g src dst m)

  abbrev and_then {ℓ κ} : {A : Type ℓ} {B : Type κ} → Loaded A → (A → Loaded B) → Loaded B
  and_then (found a) f = f a
  and_then absent f = absent
  and_then crashed f = crashed
  and_then (failed e) f = failed e

  unfoldable pub mount_from : Reader → (ℕ → Reader) → Loaded (Mount g)
  unfolding mount_class kind_from include_from load_while add_includes
  mount_from r includes = first_key (string_in g r (codes "target")) mount_target_missing (λ target.
      required (present (string_in g r (codes "type"))) mount_type_missing (λ name.
        required (mount_class name) (mount_type_unknown name) (λ type.
          and_then (kind_from type r) (λ kind.
            and_then (load_while (λ j. include_from (includes j)) 1024 0 [])
              (λ es. found (add_includes es (mount_new g kind target)))))))

  abbrev parsed : Lookup Bytes → Option g.Inet
  parsed (value s) = g.inet_parse s
  parsed _ = none

  abbrev prefix_from : Reader → ℕ
  prefix_from r = or_kept (uint64_in g r (codes "prefix")) 0 % u32_mod

  unfoldable pub address_from : Reader → Loaded (Address g)
  address_from r = first_key (string_in g r (codes "primary")) key_file_failed (λ s. found (record {
    primary = g.inet_parse s;
    prefix = prefix_from r;
    broadcast = parsed (string_in g r (codes "broadcast"));
  }))

  unfoldable pub route_from : Reader → Loaded (Route g)
  route_from r = first_key (string_in g r (codes "target")) key_file_failed (λ s. found (record {
    prefix = prefix_from r;
    gateway = parsed (string_in g r (codes "gateway"));
    target = g.inet_parse s;
  }))

  unfoldable pub network_with : Bool → Reader → (ℕ → Reader) → (ℕ → Reader) → Loaded (Network g)
  unfolding load_while address_from route_from
  network_with dhcp r addresses routes =
      and_then (load_while (λ j. address_from (addresses j)) 100 0 []) (λ addrs.
        and_then (load_while (λ j. route_from (routes j)) 100 0 []) (λ rs.
          found (record (network_new g) {
            dhcp = dhcp;
            source = kept_optional (string_in g r (codes "source")) none;
            mac = kept_optional (string_in g r (codes "mac")) none;
            addrs = addrs;
            routes = rs;
          })))

  -- DHCP is on where the key is missing in the group.
  unfoldable pub network_from : Reader → (ℕ → Reader) → (ℕ → Reader) → Loaded (Network g)
  unfolding network_with
  network_from r addresses routes = elim (boolean_in g r (codes "dhcp")) [
    | no_group ↦ absent
    | value b ↦ network_with b r addresses routes
    | no_key ↦ network_with true r addresses routes
    | malformed ↦ network_with true r addresses routes
  ]

  unfoldable pub load_config_env : g.KeyFile → ℕ → Loaded (Bytes × Bytes)
  unfolding env_from
  load_config_env file i = env_from (reader g (env i) file)

  unfoldable pub load_config_disk : g.KeyFile → ℕ → Loaded Disk
  unfolding disk_from
  load_config_disk file i = disk_from (reader g (disk i) file)

  unfoldable pub load_config_mount : g.KeyFile → ℕ → Loaded (Mount g)
  unfolding mount_from
  load_config_mount file i =
      mount_from (reader g (mount i) file) (λ j. reader g (mount_include i j) file)

  unfoldable pub load_config_network : g.KeyFile → ℕ → Loaded (Network g)
  unfolding network_from
  load_config_network file i =
      network_from (reader g (network i) file) (λ j. reader g (network_address i j) file)
        (λ j. reader g (network_route i j) file)

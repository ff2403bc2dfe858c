-- ===== src/Config/RoundTrip/Order.antt =====
-- The order in which a configuration is saved: what each kind of groups shows in the end.
use libvirt_sandbox.Base.{◌≡◌, ◌≢◌, refl, ap, sym, ◌∙◌, List, Bytes, arith}
use libvirt_sandbox.Config.{Config, Network, Mount, Disk}
use libvirt_sandbox.Config.External.{Glib, IsKeyFile}
use libvirt_sandbox.Config.Groups.{
  Group, api, core, identity, security, mount, env, disk, network, mount_include, network_address,
  network_route,
}
use libvirt_sandbox.Config.KeyFile.{reader}
use libvirt_sandbox.Config.RoundTrip.{save_each_keeps}
use libvirt_sandbox.Config.RoundTrip.Envs.{nothing}
use libvirt_sandbox.Config.RoundTrip.Frames.{
  reader-save_config_env, reader-save_config_disk, reader-save_config_mount,
  reader-save_config_network, reader-save_core, reader-save_identity, reader-save_security,
  reader-save_flags,
}
use libvirt_sandbox.Config.Save.{
  save_each, save_config_env, save_config_disk, save_config_mount, save_config_network, save_core,
  save_identity, save_objects, save_security, save_flags, save_config,
}

pub data Kind : Type 0 where
  others cores identities securities mounts envs disks networks : Kind

abbrev pub kind_of : Group → Kind
kind_of api = others
kind_of core = cores
kind_of identity = identities
kind_of security = securities
kind_of (mount i) = mounts
kind_of (env i) = envs
kind_of (disk i) = disks
kind_of (network i) = networks
kind_of (mount_include i j) = mounts
kind_of (network_address i j) = networks
kind_of (network_route i j) = networks

-- The groups of the configuration are not in the file.
abbrev pub Unused : (g : Glib) → g.KeyFile → Type 0
Unused g f = (b : Group) → kind_of b ≢ others → reader g b f ≡ nothing

other_kind : {a b : Group} → kind_of b ≢ kind_of a → a ≢ b
other_kind h e = h (ap kind_of (sym e))

module _ {g : Glib} (laws : IsKeyFile g) (b : Group) where
  past_mounts :
      (ms : List (Mount g)) (f : g.KeyFile)
      → kind_of b ≢ mounts
      → reader g b (save_each (save_config_mount g) 0 ms f) ≡ reader g b f
  past_mounts ms f h =
      save_each_keeps (save_config_mount g) (reader g b)
        (λ i m f'. reader-save_config_mount laws b i m f' (other_kind h) (λ j. other_kind h)) 0 ms f

  past_envs :
      (es : List (Bytes × Bytes)) (f : g.KeyFile)
      → kind_of b ≢ envs
      → reader g b (save_each (save_config_env g) 0 es f) ≡ reader g b f
  past_envs es f h =
      save_each_keeps (save_config_env g) (reader g b)
        (λ i e f'. reader-save_config_env laws b i e f' (other_kind h)) 0 es f

  past_disks :
      (ds : List Disk) (f : g.KeyFile)
      → kind_of b ≢ disks
      → reader g b (save_each (save_config_disk g) 0 ds f) ≡ reader g b f
  past_disks ds f h =
      save_each_keeps (save_config_disk g) (reader g b)
        (λ i d f'. reader-save_config_disk laws b i d f' (other_kind h)) 0 ds f

  past_networks :
      (ns : List (Network g)) (f : g.KeyFile)
      → kind_of b ≢ networks
      → reader g b (save_each (save_config_network g) 0 ns f) ≡ reader g b f
  past_networks ns f h =
      save_each_keeps (save_config_network g) (reader g b)
        (λ i n f'.
          reader-save_config_network laws b i n f' (other_kind h) (λ j. other_kind h)
            (λ j. other_kind h))
        0 ns f

-- The file after each part of save_config.
module _ (g : Glib) (c : Config g) (f0 : g.KeyFile) where
  abbrev pub with_settings : g.KeyFile
  with_settings = save_identity g c (save_core g c f0)

  abbrev pub with_mounts : g.KeyFile
  with_mounts = save_each (save_config_mount g) 0 c.mounts with_settings

  abbrev pub with_envs : g.KeyFile
  with_envs = save_each (save_config_env g) 0 (g.entries c.envs) with_mounts

  abbrev pub with_disks : g.KeyFile
  with_disks = save_each (save_config_disk g) 0 c.disks with_envs

  abbrev pub with_networks : g.KeyFile
  with_networks = save_each (save_config_network g) 0 c.networks with_disks

  abbrev pub with_security : g.KeyFile
  with_security = save_security g c with_networks

  abbrev pub with_all : g.KeyFile
  with_all = save_flags g c with_security

  pub save_config-with_all : save_config g c f0 ≡ with_all
  unfolding save_config save_objects
  save_config-with_all = refl

  module _ (laws : IsKeyFile g) (b : Group) where
    to_networks :
        kind_of b ≢ cores → kind_of b ≢ securities → reader g b with_all ≡ reader g b with_networks
    to_networks h h' =
        reader-save_flags laws b c with_security (other_kind h)
        ∙ reader-save_security laws b c with_networks (other_kind h')

    pub networks_final : kind_of b ≡ networks → reader g b with_all ≡ reader g b with_networks
    networks_final k = to_networks (ground arith) (ground arith)

    pub disks_final : kind_of b ≡ disks → reader g b with_all ≡ reader g b with_disks
    disks_final k =
        to_networks (ground arith) (ground arith)
        ∙ past_networks laws b c.networks with_disks (ground arith)

    pub envs_final : kind_of b ≡ envs → reader g b with_all ≡ reader g b with_envs
    envs_final k =
        to_networks (ground arith) (ground arith)
        ∙ past_networks laws b c.networks with_disks (ground arith)
        ∙ past_disks laws b c.disks with_envs (ground arith)

    pub mounts_final : kind_of b ≡ mounts → reader g b with_all ≡ reader g b with_mounts
    mounts_final k =
        to_networks (ground arith) (ground arith)
        ∙ past_networks laws b c.networks with_disks (ground arith)
        ∙ past_disks laws b c.disks with_envs (ground arith)
        ∙ past_envs laws b (g.entries c.envs) with_mounts (ground arith)

    objects_past :
        kind_of b ≢ mounts
        → kind_of b ≢ envs
        → kind_of b ≢ disks
        → kind_of b ≢ networks
        → reader g b with_networks ≡ reader g b with_settings
    objects_past h1 h2 h3 h4 =
        past_networks laws b c.networks with_disks h4
        ∙ past_disks laws b c.disks with_envs h3
        ∙ past_envs laws b (g.entries c.envs) with_mounts h2
        ∙ past_mounts laws b c.mounts with_settings h1

    pub identity_final : kind_of b ≡ identities → reader g b with_all ≡ reader g b with_settings
    identity_final k =
        to_networks (ground arith) (ground arith)
        ∙ objects_past (ground arith) (ground arith) (ground arith) (ground arith)

    pub security_final : kind_of b ≡ securities → reader g b with_all ≡ reader g b with_security
    security_final k = reader-save_flags laws b c with_security (other_kind (ground arith))

    pub core_final : kind_of b ≡ cores → reader g b with_security ≡ reader g b (save_core g c f0)
    core_final k =
        reader-save_security laws b c with_networks (other_kind (ground arith))
        ∙ objects_past (ground arith) (ground arith) (ground arith) (ground arith)
        ∙ reader-save_identity laws b c (save_core g c f0) (other_kind (ground arith))

    module _ (unused : Unused g f0) where
      no_settings :
          kind_of b ≢ cores
          → kind_of b ≢ identities
          → kind_of b ≢ others
          → reader g b with_settings ≡ nothing
      no_settings h h' h'' =
          reader-save_identity laws b c (save_core g c f0) (other_kind h')
          ∙ reader-save_core laws b c f0 (other_kind h)
          ∙ unused b h''

      pub mounts_fresh : kind_of b ≡ mounts → reader g b with_settings ≡ nothing
      mounts_fresh k = no_settings (ground arith) (ground arith) (ground arith)

      pub envs_fresh : kind_of b ≡ envs → reader g b with_mounts ≡ nothing
      envs_fresh k =
          past_mounts laws b c.mounts with_settings (ground arith)
          ∙ no_settings (ground arith) (ground arith) (ground arith)

      pub disks_fresh : kind_of b ≡ disks → reader g b with_envs ≡ nothing
      disks_fresh k =
          past_envs laws b (g.entries c.envs) with_mounts (ground arith)
          ∙ past_mounts laws b c.mounts with_settings (ground arith)
          ∙ no_settings (ground arith) (ground arith) (ground arith)

      pub networks_fresh : kind_of b ≡ networks → reader g b with_disks ≡ nothing
      networks_fresh k =
          past_disks laws b c.disks with_envs (ground arith)
          ∙ past_envs laws b (g.entries c.envs) with_mounts (ground arith)
          ∙ past_mounts laws b c.mounts with_settings (ground arith)
          ∙ no_settings (ground arith) (ground arith) (ground arith)

      pub security_fresh : kind_of b ≡ securities → reader g b with_networks ≡ nothing
      security_fresh k =
          objects_past (ground arith) (ground arith) (ground arith) (ground arith)
          ∙ no_settings (ground arith) (ground arith) (ground arith)

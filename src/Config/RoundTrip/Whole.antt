-- ===== src/Config/RoundTrip/Whole.antt =====
-- A whole configuration, saved and loaded again.
use libvirt_sandbox.Base.{
  ℕ, Bool, ◌<◌, ◌%◌, u32_mod, ◌≤◌, ◌≡◌, refl, ap, subst, sym, ◌∙◌, none, List, [], ◌∷◌, ◌++◌, map,
  Bytes, length, arith, true, false,
}
use libvirt_sandbox.Config.{Config, Network, Mount, Disk}
use libvirt_sandbox.Config.DiskOptions.{add_disk}
use libvirt_sandbox.Config.EnvOptions.{add_env}
use libvirt_sandbox.Config.External.{Glib, IsKeyFile, IsTable, IsInet, Lookup}
use libvirt_sandbox.Config.Groups.{
  core, identity, security, mount, env, disk, network, mount_include, network_address,
  network_route,
}
use libvirt_sandbox.Config.KeyFile.{Reader, reader}
use libvirt_sandbox.Config.Load.{
  load_each, load_config_env, load_config_disk, load_config_mount, load_config_network, env_from,
  disk_from, or_kept,
}
use libvirt_sandbox.Config.Load.Core.{
  Surroundings, config_init, load_settings, load_objects, load_flags, load_config, pair_env,
  wrapped,
}
use libvirt_sandbox.Config.MountOptions.{add_mount}
use libvirt_sandbox.Config.NetworkOptions.{add_network}
use libvirt_sandbox.Config.RoundTrip.{
  All, Pairwise, Pairwise-eq, Pairwise-map, add_all, load_each-save_each,
}
use libvirt_sandbox.Config.RoundTrip.Disks.{IsDiskText, disk_absent, disk_reads}
use libvirt_sandbox.Config.RoundTrip.Envs.{IsEnvText, nothing, env_absent, env_reads}
use libvirt_sandbox.Config.RoundTrip.Frames.{reader-save_config_env, reader-save_config_disk}
use libvirt_sandbox.Config.RoundTrip.Mounts.{
  mount_view, mount_void, from_view, IsMountText, IsSameMount, mount_absent, mount_other,
  mount_reads,
}
use libvirt_sandbox.Config.RoundTrip.Networks.{
  network_view, network_void, from_network_view, IsNetworkText, network_absent, network_other,
  network_reads,
}
use libvirt_sandbox.Config.RoundTrip.Networks.Own.{unfiltered}
use libvirt_sandbox.Config.RoundTrip.Order.{
  Unused, with_settings, with_mounts, with_envs, with_disks, with_networks, with_security, with_all,
  save_config-with_all, networks_final, disks_final, envs_final, mounts_final, identity_final,
  security_final, core_final, mounts_fresh, envs_fresh, disks_fresh, networks_fresh, security_fresh,
}
use libvirt_sandbox.Config.RoundTrip.Settings.{IsSettingsText, IsSettings, saved-IsSettings}
use libvirt_sandbox.Config.RoundTrip.Tables.{insert_all, lookup-rebuilt}
use libvirt_sandbox.Config.Save.{
  save_config_env, save_config_disk, save_config_mount, save_config_network, save_core, save_config,
}
use libvirt_sandbox.Result.{ok, bind_eq}
use mathlib.Core.List.{append-nil, append_assoc}

small : {n : ℕ} → n < u32_mod → n % u32_mod ≡ n
small h = omega arith

module _ (g : Glib) where
  -- What the format of the file and the limits of its loading can hold.
  pub record IsSavable (c : Config g) : Type 0 where
    pub settings_text : IsSettingsText g c
    pub networks_text : All (IsNetworkText g) c.networks
    pub mounts_text : All (IsMountText g) c.mounts
    pub envs_text : All (IsEnvText g) (g.entries c.envs)
    pub disks_text : All (IsDiskText g) c.disks
    pub networks_few : length c.networks ≤ 100
    pub mounts_few : length c.mounts ≤ 1024
    pub envs_few : length (g.entries c.envs) ≤ 1024
    pub disks_few : length c.disks ≤ 1024

  add_networks :
      (ns : List (Network g)) (c : Config g)
      → add_all (add_network g) ns c ≡ record c { networks = c.networks ++ ns }
  add_networks [] c = rw append-nil refl
  add_networks (n ∷ ns) c = rw (add_networks ns (add_network g n c), append_assoc) refl

  add_mounts :
      (ms : List (Mount g)) (c : Config g)
      → add_all (add_mount g) ms c ≡ record c { mounts = c.mounts ++ ms }
  add_mounts [] c = rw append-nil refl
  add_mounts (n ∷ ns) c = rw (add_mounts ns (add_mount g n c), append_assoc) refl

  add_disks :
      (ds : List Disk) (c : Config g)
      → add_all (add_disk g) ds c ≡ record c { disks = c.disks ++ ds }
  add_disks [] c = rw append-nil refl
  add_disks (n ∷ ns) c = rw (add_disks ns (add_disk g n c), append_assoc) refl

  add_envs :
      (es : List (Bytes × Bytes)) (c : Config g)
      → add_all (pair_env g) es c ≡ record c { envs = insert_all g es c.envs }
  add_envs [] c = refl
  add_envs ((k, v) ∷ es) c = add_envs es (add_env g k v c)

  -- The first settings, with all else as `init` leaves it.
  abbrev fresh_with : Config g → Config g
  fresh_with c = record c {
    networks = [];
    mounts = [];
    disks = [];
    envs = g.table_new;
    sec_label = none;
    sec_dynamic = true;
    debug = false;
    verbose = false;
  }

  settings_loaded :
      (r ids sec : Reader) (c : Config g) (s : Surroundings g)
      → IsSettingsText g c
      → IsSettings g r ids sec c
      → load_settings g r ids (config_init g s) ≡ fresh_with c
  unfolding load_settings config_init
  settings_loaded r ids sec c s t k =
      let d = config_init g s in
      let uid = ap (λ (l : Lookup ℕ). or_kept (wrapped l) d.uid) k.uid_key ∙ small t.uid_fits in
      let gid = ap (λ (l : Lookup ℕ). or_kept (wrapped l) d.gid) k.gid_key ∙ small t.gid_fits in
      let kept_name = λ (old : Bytes) (l : Lookup Bytes). or_kept l old in
      λ i. record d {
        name = ap (kept_name d.name) k.name_key i;
        uuid = k.uuid_key i;
        root = ap (kept_name d.root) k.root_key i;
        arch = ap (kept_name d.arch) k.arch_key i;
        kernrelease = k.kernrelease_key i;
        kernpath = k.kernpath_key i;
        kmodpath = k.kmodpath_key i;
        shell = ap (λ (l : Lookup Bool). or_kept l false) k.shell_key i;
        uid = uid i;
        gid = gid i;
        username = ap (kept_name d.username) k.username_key i;
        homedir = ap (kept_name d.homedir) k.homedir_key i;
      }

  flags_loaded :
      (r ids sec : Reader) (c c' : Config g)
      → IsSettings g r ids sec c
      → load_flags g r sec c' ≡ record c' {
        sec_label = c.sec_label;
        sec_dynamic = c.sec_dynamic;
        debug = c.debug;
        verbose = c.verbose;
      }
  unfolding load_flags
  flags_loaded r ids sec c c' k =
      ground (arith, k.label_key, k.dynamic_key, k.debug_key, k.verbose_key)

  module _ (laws : IsKeyFile g) (tables : IsTable g) (inets : IsInet g) (c : Config g)
      (f0 : g.KeyFile) (t : IsSavable c) (unused : Unused g f0) where
    file : g.KeyFile
    file = with_all g c f0

    networks_loaded :
        (d : Config g)
        → load_each (load_config_network g file) (add_network g) 100 0 d
          ≡ ok (record d { networks = d.networks ++ map (unfiltered g) c.networks })
    unfolding load_config_network file
    networks_loaded d =
        let (ns, same, loop) =
          load_each-save_each (save_config_network g) (network_view g) (network_void g)
            (from_network_view g) (IsNetworkText g) (λ n m. m ≡ unfiltered g n)
            (network_other g laws inets) (network_absent g)
            (λ i n f h v. (unfiltered g n, network_reads g laws inets i n f h v, refl))
            (add_network g) 100 {file = file} {i = 0} c.networks {f = with_disks g c f0}
            (record {
              shows = λ k h s. (
                networks_final g c f0 laws (network k) refl s,
                (λ j. networks_final g c f0 laws (network_address k j) refl s),
                (λ j. networks_final g c f0 laws (network_route k j) refl s),
              );
              unused = λ k h s. (
                networks_fresh g c f0 laws (network k) unused refl s,
                (λ j. networks_fresh g c f0 laws (network_address k j) unused refl s),
                (λ j. networks_fresh g c f0 laws (network_route k j) unused refl s),
              );
            })
            t.networks_text t.networks_few in
        loop d
        ∙ ap ok (
            add_networks ns d
            ∙ ap (λ l. record d { networks = d.networks ++ l }) (Pairwise-map (unfiltered g) same))

    mounts_loaded :
        (ms : List (Mount g)) × Pairwise (IsSameMount g) c.mounts ms
        × ((d : Config g)
            → load_each (load_config_mount g file) (add_mount g) 1024 0 d
              ≡ ok (record d { mounts = d.mounts ++ ms }))
    unfolding load_config_mount file
    mounts_loaded =
        let (ms, same, loop) =
          load_each-save_each (save_config_mount g) (mount_view g) (mount_void g) (from_view g)
            (IsMountText g) (IsSameMount g) (mount_other g laws tables) (mount_absent g)
            (mount_reads g laws tables) (add_mount g) 1024 {file = file} {i = 0} c.mounts
            {f = with_settings g c f0}
            (record {
              shows = λ k h s. (
                mounts_final g c f0 laws (mount k) refl s,
                (λ j. mounts_final g c f0 laws (mount_include k j) refl s),
              );
              unused = λ k h s. (
                mounts_fresh g c f0 laws (mount k) unused refl s,
                (λ j. mounts_fresh g c f0 laws (mount_include k j) unused refl s),
              );
            })
            t.mounts_text t.mounts_few in
        (ms, same, λ d. loop d ∙ ap ok (add_mounts ms d))

    envs_loaded :
        (d : Config g)
        → load_each (load_config_env g file) (pair_env g) 1024 0 d
          ≡ ok (record d { envs = insert_all g (g.entries c.envs) d.envs })
    unfolding load_config_env file
    envs_loaded d =
        let (es, same, loop) =
          load_each-save_each (save_config_env g) (λ f i. reader g (env i) f) nothing (env_from g)
            (IsEnvText g) ◌≡◌
            (λ i j e f h. reader-save_config_env laws (env j) i e f (ground arith)) (env_absent g)
            (λ i e f h v. (e, env_reads g laws i e f h, refl)) (pair_env g) 1024 {file = file}
            {i = 0} (g.entries c.envs) {f = with_mounts g c f0}
            (record {
              shows = λ k h. envs_final g c f0 laws (env k) refl;
              unused = λ k h. envs_fresh g c f0 laws (env k) unused refl;
            })
            t.envs_text t.envs_few in
        loop d
        ∙ ap ok (
            add_envs es d
            ∙ ap (λ l. record d { envs = insert_all g l d.envs }) (sym (Pairwise-eq same)))

    disks_loaded :
        (d : Config g)
        → load_each (load_config_disk g file) (add_disk g) 1024 0 d
          ≡ ok (record d { disks = d.disks ++ c.disks })
    unfolding load_config_disk file
    disks_loaded d =
        let (ds, same, loop) =
          load_each-save_each (save_config_disk g) (λ f i. reader g (disk i) f) nothing
            (disk_from g) (IsDiskText g) ◌≡◌
            (λ i j e f h. reader-save_config_disk laws (disk j) i e f (ground arith))
            (disk_absent g) (λ i e f h v. (e, disk_reads g laws i e f h, refl)) (add_disk g) 1024
            {file = file} {i = 0} c.disks {f = with_envs g c f0}
            (record {
              shows = λ k h. disks_final g c f0 laws (disk k) refl;
              unused = λ k h. disks_fresh g c f0 laws (disk k) unused refl;
            })
            t.disks_text t.disks_few in
        loop d
        ∙ ap ok
            (add_disks ds d ∙ ap (λ l. record d { disks = d.disks ++ l }) (sym (Pairwise-eq same)))

    settings :
        (s : Surroundings g)
        → IsSettings g (reader g core file) (reader g identity file) (reader g security file) c
    unfolding file
    settings s =
        subst (λ r. IsSettings g (reader g core file) r (reader g security file) c)
          (sym (identity_final g c f0 laws identity refl))
          (subst
            (λ r. IsSettings g (reader g core file) (reader g identity (with_settings g c f0)) r c)
            (sym (security_final g c f0 laws security refl))
            (saved-IsSettings g laws c f0 (with_security g c f0)
              (λ key. ap (λ r. r key) (unused core (ground arith)))
              (core_final g c f0 laws core refl) (save_core g c f0) (with_networks g c f0)
              t.settings_text
              (λ key. ap (λ r. r key) (security_fresh g c f0 laws security unused refl))))

    objects_loaded :
        (d : Config g)
        → (ms : List (Mount g)) × Pairwise (IsSameMount g) c.mounts ms
          × (load_objects g file d
              ≡ ok (record d {
                networks = d.networks ++ map (unfiltered g) c.networks;
                mounts = d.mounts ++ ms;
                envs = insert_all g (g.entries c.envs) d.envs;
                disks = d.disks ++ c.disks;
              }))
    unfolding load_objects
    objects_loaded d =
        let (ms, same, loop) = mounts_loaded in
        (
          ms,
          same,
          bind_eq _ (networks_loaded d)
              (bind_eq _ (loop _) (bind_eq _ (envs_loaded _) (disks_loaded _))),
        )

    -- A configuration that the file can hold is loaded again, from a file in which its groups were
    -- not used, by an object as `init` leaves it. All settings and disks are the same, and the
    -- networks but for their filters, which are lost. The mounts are the same in class, properties
    -- and target, in their order, and their includes and the environment hold the same values for
    -- the same keys.
    pub load_config-save_config :
        (s : Surroundings g)
        → (ms : List (Mount g)) × (envs : g.Table) × (load_config g
              (save_config g c f0)
              (config_init g s)
            ≡ ok (record c { networks = map (unfiltered g) c.networks; mounts = ms; envs = envs }))
          × Pairwise (IsSameMount g) c.mounts ms
          × ((k : Bytes) → g.lookup k envs ≡ g.lookup k c.envs)
    unfolding load_config file
    load_config-save_config s =
        let k = settings s in
        let r = reader g core file in
        let ids = reader g identity file in
        let sec = reader g security file in
        let (ms, same, loaded) = objects_loaded (fresh_with c) in
        let envs = insert_all g (g.entries c.envs) g.table_new in
        let loaded_with : Config g = record (fresh_with c) {
          networks = map (unfiltered g) c.networks;
          mounts = ms;
          envs = envs;
          disks = c.disks;
        } in
        let whole : load_config g file (config_init g s)
            ≡ ok (record c { networks = map (unfiltered g) c.networks; mounts = ms; envs = envs }) =
          bind_eq _
            (ap (load_objects g file) (settings_loaded r ids sec c s t.settings_text k) ∙ loaded)
            (ap ok (flags_loaded r ids sec c loaded_with k)) in
        (
          ms,
          envs,
          ap (λ f. load_config g f (config_init g s)) (save_config-with_all g c f0) ∙ whole,
          same,
          lookup-rebuilt g tables c.envs,
        )

-- ===== src/Config/Load/Core.antt =====
-- load_config of libvirt-sandbox-config.c: the settings and the loops over the objects; and
-- gvir_sandbox_config_init, whose surroundings are arguments.
use libvirt_sandbox.Base.{ℕ, ◌%◌, true, false, none, [], Bytes, u32_mod}
use libvirt_sandbox.Config.{Config}
use libvirt_sandbox.Config.DiskOptions.{add_disk}
use libvirt_sandbox.Config.EnvOptions.{add_env}
use libvirt_sandbox.Config.External.{Glib, Lookup, value}
use libvirt_sandbox.Config.Groups.{core, identity, security}
use libvirt_sandbox.Config.KeyFile.{Reader, reader, string_in, boolean_in, uint64_in, present}
use libvirt_sandbox.Config.Load.{
  load_each, load_config_env, load_config_disk, load_config_mount, load_config_network, or_kept,
  kept_optional,
}
use libvirt_sandbox.Config.MountOptions.{add_mount}
use libvirt_sandbox.Config.NetworkOptions.{add_network}
use libvirt_sandbox.Config.Text.{codes}
use libvirt_sandbox.Result.{Result, ok, ◌>>=◌}

abbrev pub wrapped : Lookup ℕ → Lookup ℕ
wrapped (value n) = value (n % u32_mod)
wrapped l = l

module _ (g : Glib) where
  -- The answers of uname, geteuid, getegid, g_get_user_name and g_get_home_dir.
  pub record Surroundings : Type 0 where
    pub machine : Bytes
    pub euid : ℕ
    pub egid : ℕ
    pub user_name : Bytes
    pub home_dir : Bytes

  unfoldable pub config_init : Surroundings → Config g
  config_init s = record {
    name = codes "sandbox";
    uuid = none;
    root = codes "/";
    arch = s.machine;
    kernrelease = none;
    kernpath = none;
    kmodpath = none;
    shell = false;
    uid = s.euid;
    gid = s.egid;
    username = s.user_name;
    homedir = s.home_dir;
    networks = [];
    mounts = [];
    disks = [];
    envs = g.table_new;
    sec_label = none;
    sec_dynamic = true;
    debug = false;
    verbose = false;
  }

  unfoldable pub load_settings : Reader → Reader → Config g → Config g
  load_settings r ids c = record c {
    name = or_kept (string_in g r (codes "name")) c.name;
    uuid = kept_optional (string_in g r (codes "uuid")) c.uuid;
    root = or_kept (string_in g r (codes "root")) c.root;
    arch = or_kept (string_in g r (codes "arch")) c.arch;
    kernrelease = kept_optional (string_in g r (codes "kernrelease")) c.kernrelease;
    kernpath = kept_optional (string_in g r (codes "kernpath")) c.kernpath;
    kmodpath = kept_optional (string_in g r (codes "kmodpath")) c.kmodpath;
    shell = or_kept (boolean_in g r (codes "shell")) c.shell;
    uid = or_kept (wrapped (uint64_in g ids (codes "uid"))) c.uid;
    gid = or_kept (wrapped (uint64_in g ids (codes "gid"))) c.gid;
    username = or_kept (string_in g ids (codes "username")) c.username;
    homedir = or_kept (string_in g ids (codes "homedir")) c.homedir;
  }

  abbrev pub pair_env : Bytes × Bytes → Config g → Config g
  pair_env (k, v) c = add_env g k v c

  unfoldable pub load_objects : g.KeyFile → Config g → Result (Config g)
  unfolding load_each load_config_network load_config_mount load_config_env load_config_disk
  load_objects file c = do
    c1 ← load_each (load_config_network g file) (add_network g) 100 0 c
    c2 ← load_each (load_config_mount g file) (add_mount g) 1024 0 c1
    c3 ← load_each (load_config_env g file) pair_env 1024 0 c2
    load_each (load_config_disk g file) (add_disk g) 1024 0 c3

  -- A label that is not in the file is cleared; the flags are kept.
  unfoldable pub load_flags : Reader → Reader → Config g → Config g
  load_flags r sec c = record c {
    sec_label = present (string_in g sec (codes "label"));
    sec_dynamic = or_kept (boolean_in g sec (codes "dynamic")) c.sec_dynamic;
    debug = or_kept (boolean_in g r (codes "debug")) c.debug;
    verbose = or_kept (boolean_in g r (codes "verbose")) c.verbose;
  }

  unfoldable pub load_config : g.KeyFile → Config g → Result (Config g)
  unfolding load_settings load_objects load_flags
  load_config file c = do
    c' ← load_objects file (load_settings (reader g core file) (reader g identity file) c)
    ok (load_flags (reader g core file) (reader g security file) c')

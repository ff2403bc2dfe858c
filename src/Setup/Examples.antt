-- ===== src/Setup/Examples.antt =====
-- The set-up of the guest at concrete inputs.
use libvirt_sandbox.Base.{
  ℕ, ◌≡◌, refl, arith, ◌==◌, if◌then◌else◌, Bool, true, false, some, none, List, [], ◌∷◌, map,
  Bytes,
}
use libvirt_sandbox.Config.{Config, Network}
use libvirt_sandbox.Config.EnvOptions.{add_env_strv, add_env_opts}
use libvirt_sandbox.Config.EnvOptions.Latest.{assignment, latest}
use libvirt_sandbox.Config.Examples.{simple, simple_table, distinct, without}
use libvirt_sandbox.Config.External.{assoc}
use libvirt_sandbox.Config.Load.Core.{Surroundings, config_init}
use libvirt_sandbox.Config.NetworkOptions.{network_new}
use libvirt_sandbox.Config.Text.{codes, equal, cut}
use libvirt_sandbox.Result.{ok, each}
use libvirt_sandbox.Setup.{Log, setup_network}
use libvirt_sandbox.Setup.User.{Process, Grants, Capng, Environ, setup_custom_env, set_all}
use libvirt_sandbox.Setup.Commands.{run_all, network_commands, setup_network-run_all}
use libvirt_sandbox.Setup.Environment.{or_else, setup_custom_env-add_env_strv}

abbrev surroundings : Surroundings simple
surroundings = record {
  machine = codes "x86_64";
  euid = 1000;
  egid = 1000;
  user_name = codes "fred";
  home_dir = codes "/home/fred";
}

abbrev dynamic : Network simple
dynamic = record (network_new simple) { dhcp = true }

abbrev static : Network simple
static = record (network_new simple) {
  dhcp = false;
  addrs =
      record { primary = some (codes "10.0.0.2"); prefix = 24; broadcast = none }
      ∷ record {
        primary = some (codes "10.0.1.2");
        prefix = 24;
        broadcast = some (codes "10.0.1.255");
      }
      ∷ [];
  routes =
      record { prefix = 0; gateway = some (codes "10.0.0.1"); target = some (codes "0.0.0.0") }
      ∷ [];
}

abbrev networked : Config simple
networked = record (config_init simple surroundings) { networks = static ∷ dynamic ∷ [] }

-- The third command cannot be started.
abbrev three : Log → List Bytes → Bool
three (a ∷ b ∷ log) argv = false
three _ argv = true

setup_network-run_all_example :
    setup_network three simple true networked []
    ≡ run_all three (network_commands simple true 0 networked.networks) []
setup_network-run_all_example = setup_network-run_all simple three true networked []

abbrev any_variable : Bytes → Bytes → Bool
any_variable k v = true

abbrev assignments : List (Bytes × Bytes)
assignments = (codes "TERM", codes "vt100") ∷ (codes "TERM", codes "xterm") ∷ []

abbrev old : Environ
old = (codes "TERM", codes "linux") ∷ []

abbrev newborn : Config simple
newborn = config_init simple surroundings

abbrev assigned : Config simple
assigned = record newborn {
  envs = (codes "TERM", codes "xterm") ∷ (codes "TERM", codes "vt100") ∷ [];
}

assigned_ok : add_env_strv simple (map assignment assignments) newborn ≡ ok assigned
unfolding add_env_strv add_env_opts each cut config_init
assigned_ok = refl

assigned_set :
    setup_custom_env simple any_variable assigned old ≡ ((codes "TERM", codes "xterm") ∷ old, true)
unfolding setup_custom_env set_all distinct without equal
assigned_set = refl

setup_custom_env-add_env_strv_example :
    assoc (codes "TERM") ((codes "TERM", codes "xterm") ∷ old)
    ≡ or_else
        (latest (codes "TERM") assignments (simple.lookup (codes "TERM") newborn.envs))
        (assoc (codes "TERM") old)
setup_custom_env-add_env_strv_example =
    setup_custom_env-add_env_strv simple simple_table any_variable assignments newborn old
      ((codes "TERM", codes "xterm") ∷ old) (codes "TERM") (omega arith) assigned assigned_ok
      assigned_set

abbrev init_process : Process
init_process = record { groups = 0 ∷ []; gid = 0; uid = 0; env = old; cwd = codes "/root" }

-- The home directory cannot be entered.
abbrev no_home : Grants
no_home = record {
  setenv = λ k. true;
  setgroups = true;
  setregid = true;
  setreuid = true;
  chdir_home = false;
  chdir_root = true;
}

-- A libcap-ng that changes everything unless it is asked for the user 0.
abbrev simple_capng : Capng
simple_capng = record {
  State = ℕ;
  clear = λ s. 0;
  change_id = λ s uid gid drop_groups clear_bounding p.
      if uid == 0
      then (p, false)
      else (record p { uid = uid; gid = gid; groups = if drop_groups then [] else p.groups }, true);
}

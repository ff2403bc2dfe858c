-- ===== src/Config/Groups.antt =====
-- The groups of a configuration file: the literals and the `g_strdup_printf` formats in
-- save_config* and load_config* of libvirt-sandbox-config.c. An index is printed there with `%u`: it
-- is the position in a list, or one more than the indices found so far, and stands for itself below
-- 2^32, which no list of objects in memory reaches.
pub mod Names
use libvirt_sandbox.Base.{ℕ, [], ◌++◌, Bytes}
use libvirt_sandbox.Config.Text.{codes, print}

pub data Group : Type 0 where
  api core identity security : Group
  mount env disk network : ℕ → Group
  mount_include network_address network_route : ℕ → ℕ → Group

unfoldable pub group_name : Group → Bytes
unfolding print
group_name api = codes "api"
group_name core = codes "core"
group_name identity = codes "identity"
group_name security = codes "security"
group_name (mount i) = codes "mount." ++ print i []
group_name (env i) = codes "env." ++ print i []
group_name (disk i) = codes "disk." ++ print i []
group_name (network i) = codes "network." ++ print i []
group_name (mount_include i j) = codes "mount." ++ print i (codes ".include." ++ print j [])
group_name (network_address i j) = codes "network." ++ print i (codes ".address." ++ print j [])
group_name (network_route i j) = codes "network." ++ print i (codes ".route." ++ print j [])

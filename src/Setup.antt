-- ===== src/Setup.antt =====
-- libvirt-sandbox-init-common.c: the set-up of the guest from its configuration, ahead of the
-- application: network devices, environment variables, the user. The calls of g_spawn_sync are kept
-- in a log, the process is a record, and what the calls answer is an argument.
pub mod User
pub mod Commands
pub mod Environment
pub mod Identity
mod Examples
use libvirt_sandbox.Base.{
  ℕ, suc, Bool, true, false, not, Option, none, some, List, [], ◌∷◌, ◌++◌, Bytes, if◌then◌else◌,
}
use libvirt_sandbox.Config.{Config, Network, Address, Route}
use libvirt_sandbox.Config.External.{Glib}
use libvirt_sandbox.Config.Text.{codes, equal, print}

abbrev pub Log : Type 0
Log = List (List Bytes)

-- The commands that were run, and what the function returns.
abbrev pub Proc : Type 0
Proc = Log → Log × Bool

-- The elements ahead of the NULL that ends the array.
unfoldable pub until_null : List (Option Bytes) → List Bytes
until_null [] = []
until_null (none ∷ args) = []
until_null (some a ∷ args) = a ∷ until_null args

-- `%s` of a NULL
abbrev or_null : Option Bytes → Bytes
or_null none = codes "(null)"
or_null (some s) = s

-- `answers` is the return value of g_spawn_sync, which may depend on what was run before.
unfoldable pub spawn : (Log → List Bytes → Bool) → List Bytes → Proc
spawn answers argv log = (log ++ (argv ∷ []), answers log argv)

abbrev goes_on : Proc → Log × Bool → Log × Bool
goes_on q (log, true) = q log
goes_on q (log, false) = (log, false)

-- A `goto cleanup` where the first fails.
unfoldable pub and_next : Proc → Proc → Proc
and_next p q log = goes_on q (p log)

module _ (g : Glib) where
  -- g_inet_address_to_string, which returns NULL for NULL
  abbrev pub inet_text : Option g.Inet → Option Bytes
  inet_text none = none
  inet_text (some a) = some (g.inet_print a)

  -- `"%s/%u"`
  unfoldable pub full_text : Option g.Inet → ℕ → Bytes
  unfolding print
  full_text a prefix = or_null (inet_text a) ++ (b'/' ∷ print prefix [])

  unfoldable pub address_argv : Bytes → Address g → List Bytes
  unfolding full_text
  address_argv dev a = elim (inet_text a.broadcast) [
    | some broadcast ↦
        codes "/sbin/ip"
        ∷ codes "addr"
        ∷ codes "add"
        ∷ full_text a.primary a.prefix
        ∷ codes "broadcast"
        ∷ broadcast
        ∷ codes "dev"
        ∷ dev
        ∷ []
    | none ↦
        codes "/sbin/ip"
        ∷ codes "addr"
        ∷ codes "add"
        ∷ full_text a.primary a.prefix
        ∷ codes "dev"
        ∷ dev
        ∷ []
  ]

  abbrev pub route_argv : Bytes → Route g → List Bytes
  route_argv dev r = until_null (
      some (codes "/sbin/ip")
      ∷ some (codes "route")
      ∷ some (codes "add")
      ∷ some (full_text r.target r.prefix)
      ∷ some (codes "via")
      ∷ inet_text r.gateway
      ∷ some (codes "dev")
      ∷ some dev
      ∷ [])

-- `"eth%d"`
unfoldable pub eth_name : ℕ → Bytes
unfolding print
eth_name i = codes "eth" ++ print i []

abbrev pub dhcp_argv : Bool → Bytes → List Bytes
dhcp_argv debug dev =
    codes "/sbin/dhclient"
    ∷ ((if debug then codes "-v" ∷ [] else []) ++ (codes "--no-pid" ∷ dev ∷ []))

module _ (answers : Log → List Bytes → Bool) where
  unfoldable pub start_dhcp : Bool → Bytes → Proc
  unfolding spawn
  start_dhcp debug dev = spawn answers (dhcp_argv debug dev)

  module _ (g : Glib) where
    unfoldable pub add_address : Bytes → Address g → Proc
    unfolding spawn and_next
    add_address dev a =
        and_next (spawn answers (address_argv g dev a))
          (spawn answers (codes "/sbin/ip" ∷ codes "link" ∷ codes "set" ∷ dev ∷ codes "up" ∷ []))

    unfoldable pub add_route : Bytes → Route g → Proc
    unfolding spawn
    add_route dev r = spawn answers (route_argv g dev r)

    unfoldable pub add_addresses : Bytes → List (Address g) → Proc
    unfolding and_next add_address
    add_addresses dev [] log = (log, true)
    add_addresses dev (a ∷ addrs) log = and_next (add_address dev a) (add_addresses dev addrs) log

    unfoldable pub add_routes : Bytes → List (Route g) → Proc
    unfolding and_next add_route
    add_routes dev [] log = (log, true)
    add_routes dev (r ∷ rs) log = and_next (add_route dev r) (add_routes dev rs) log

    unfoldable pub setup_network_device : Bool → Network g → Bytes → Proc
    unfolding start_dhcp and_next add_addresses add_routes
    setup_network_device debug n dev =
        if n.dhcp
        then start_dhcp debug dev
        else and_next (add_addresses dev n.addrs) (add_routes dev n.routes)

    unfoldable pub setup_devices : Bool → ℕ → List (Network g) → Proc
    unfolding and_next setup_network_device eth_name
    setup_devices debug i [] log = (log, true)
    setup_devices debug i (n ∷ ns) log =
        and_next (setup_network_device debug n (eth_name i)) (setup_devices debug (suc i) ns) log

    unfoldable pub setup_network : Bool → Config g → Proc
    unfolding setup_devices
    setup_network debug c = setup_devices debug 0 c.networks

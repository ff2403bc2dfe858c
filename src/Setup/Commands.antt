-- ===== src/Setup/Commands.antt =====
-- The commands of setup_network, as a list.
use libvirt_sandbox.Base.{
  ℕ, suc, ◌≡◌, refl, ap, ◌∙◌, Bool, true, false, List, [], ◌∷◌, ◌++◌, Bytes, if◌then◌else◌, map,
  Bool-cases, inl, inr, Option, none, some, Option-cases,
}
use libvirt_sandbox.Config.{Config, Network, Address, Route}
use libvirt_sandbox.Config.External.{Glib}
use libvirt_sandbox.Config.Text.{codes, print}
use libvirt_sandbox.Setup.{
  Log, Proc, goes_on, until_null, full_text, spawn, and_next, start_dhcp, address_argv, route_argv,
  dhcp_argv, add_address, add_route, add_addresses, add_routes, setup_network_device, setup_devices,
  setup_network, eth_name,
}

-- The commands one after the other, up to the first that cannot be started.
pub run_all : (Log → List Bytes → Bool) → List (List Bytes) → Log → Log × Bool
run_all answers [] log = (log, true)
run_all answers (argv ∷ rest) log =
    let others = run_all answers rest (log ++ (argv ∷ [])) in
    if answers log argv then others else (log ++ (argv ∷ []), false)

-- A command, and what is left to do.
run_all-∷ :
    (answers : Log → List Bytes → Bool) (argv : List Bytes) (rest : List (List Bytes)) (log : Log)
    → goes_on (run_all answers rest) (spawn answers argv log) ≡ run_all answers (argv ∷ rest) log
unfolding run_all spawn
run_all-∷ answers argv rest log = elim (Bool-cases (answers log argv)) [
  | inl started ↦ rw started refl
  | inr failed ↦ rw failed refl
]

goes_on_same :
    {p q : Proc} → ((log : Log) → p log ≡ q log) → (r : Log × Bool) → goes_on p r ≡ goes_on q r
goes_on_same h (log, true) = h log
goes_on_same h (log, false) = refl

goes_on-goes_on :
    (p q : Proc) (r : Log × Bool) → goes_on p (goes_on q r) ≡ goes_on (λ log. goes_on p (q log)) r
goes_on-goes_on p q (log, true) = refl
goes_on-goes_on p q (log, false) = refl

goes_on-run_all :
    (answers : Log → List Bytes → Bool) (xs ys : List (List Bytes)) (log : Log)
    → goes_on (run_all answers ys) (run_all answers xs log) ≡ run_all answers (xs ++ ys) log
unfolding run_all
goes_on-run_all answers [] ys log = refl
goes_on-run_all answers (argv ∷ xs) ys log = elim (Bool-cases (answers log argv)) [
  | inl started ↦ rw started (goes_on-run_all answers xs ys (log ++ (argv ∷ [])))
  | inr failed ↦ rw failed refl
]

spawn-run_all :
    (answers : Log → List Bytes → Bool) (argv : List Bytes) (log : Log)
    → spawn answers argv log ≡ run_all answers (argv ∷ []) log
unfolding run_all spawn
spawn-run_all answers argv log = elim (Bool-cases (answers log argv)) [
  | inl started ↦ rw started refl
  | inr failed ↦ rw failed refl
]

module _ (g : Glib) where
  -- An address ahead of its prefix, which printf has as `(null)` where there is none.
  subnet : Option g.Inet → ℕ → Bytes
  subnet none prefix = codes "(null)/" ++ print prefix []
  subnet (some a) prefix = g.inet_print a ++ (codes "/" ++ print prefix [])

  -- ip addr add ADDRESS/PREFIX [broadcast ADDRESS] dev DEVICE
  ip_addr_add : Bytes → Address g → List Bytes
  ip_addr_add dev a =
      codes "/sbin/ip" ∷ codes "addr" ∷ codes "add" ∷ subnet a.primary a.prefix ∷ elim a.broadcast [
        | none ↦ codes "dev" ∷ dev ∷ []
        | some b ↦ codes "broadcast" ∷ g.inet_print b ∷ codes "dev" ∷ dev ∷ []
      ]

  -- ip route add TARGET/PREFIX via GATEWAY dev DEVICE, which ends ahead of a gateway that is missing
  ip_route_add : Bytes → Route g → List Bytes
  ip_route_add dev r =
      codes "/sbin/ip"
      ∷ codes "route"
      ∷ codes "add"
      ∷ subnet r.target r.prefix
      ∷ codes "via"
      ∷ elim r.gateway [ none ↦ [] | some b ↦ g.inet_print b ∷ codes "dev" ∷ dev ∷ [] ]

  address_commands : Bytes → List (Address g) → List (List Bytes)
  address_commands dev [] = []
  address_commands dev (a ∷ rest) =
      ip_addr_add dev a
      ∷ (codes "/sbin/ip" ∷ codes "link" ∷ codes "set" ∷ dev ∷ codes "up" ∷ [])
      ∷ address_commands dev rest

  dhclient : Bool → Bytes → List Bytes
  dhclient true dev = codes "/sbin/dhclient" ∷ codes "-v" ∷ codes "--no-pid" ∷ dev ∷ []
  dhclient false dev = codes "/sbin/dhclient" ∷ codes "--no-pid" ∷ dev ∷ []

  -- The commands for a device: DHCP alone, or the addresses and then the routes.
  pub device_commands : Bool → Network g → Bytes → List (List Bytes)
  device_commands debug n dev =
      if n.dhcp
      then dhclient debug dev ∷ []
      else address_commands dev n.addrs ++ map (ip_route_add dev) n.routes

  -- The devices eth0, eth1 and so on.
  pub network_commands : Bool → ℕ → List (Network g) → List (List Bytes)
  network_commands debug i [] = []
  network_commands debug i (n ∷ ns) =
      device_commands debug n (codes "eth" ++ print i []) ++ network_commands debug (suc i) ns

  full_text-subnet : (a : Option g.Inet) (prefix : ℕ) → full_text g a prefix ≡ subnet a prefix
  unfolding full_text subnet
  full_text-subnet none prefix = refl
  full_text-subnet (some a) prefix = refl

  address_argv-ip_addr_add :
      (dev : Bytes) (a : Address g) → address_argv g dev a ≡ ip_addr_add dev a
  unfolding address_argv ip_addr_add
  address_argv-ip_addr_add dev a =
      let same = full_text-subnet a.primary a.prefix in
      elim a.broadcast
        as (λ b.
          address_argv g dev (record a { broadcast = b })
          ≡ ip_addr_add dev (record a { broadcast = b })) [
            | none ↦
                ap
                  (λ text.
                    codes "/sbin/ip" ∷ codes "addr" ∷ codes "add" ∷ text ∷ codes "dev" ∷ dev ∷ [])
                  same
            | some b ↦
                ap
                  (λ text.
                    codes "/sbin/ip"
                    ∷ codes "addr"
                    ∷ codes "add"
                    ∷ text
                    ∷ codes "broadcast"
                    ∷ g.inet_print b
                    ∷ codes "dev"
                    ∷ dev
                    ∷ [])
                  same
          ]

  route_argv-ip_route_add : (dev : Bytes) (r : Route g) → route_argv g dev r ≡ ip_route_add dev r
  unfolding until_null ip_route_add
  route_argv-ip_route_add dev r = elim (Option-cases r.gateway) [
    | inl e ↦ rw (full_text-subnet r.target r.prefix, e, until_null, ip_route_add) refl
    | inr (b, e) ↦ rw (full_text-subnet r.target r.prefix, e, until_null, ip_route_add) refl
  ]

  dhcp_argv-dhclient : (debug : Bool) (dev : Bytes) → dhcp_argv debug dev ≡ dhclient debug dev
  unfolding dhclient
  dhcp_argv-dhclient true dev = refl
  dhcp_argv-dhclient false dev = refl

  module _ (answers : Log → List Bytes → Bool) where
    add_addresses-run_all :
        (dev : Bytes) (addrs : List (Address g)) (log : Log)
        → add_addresses answers g dev addrs log ≡ run_all answers (address_commands dev addrs) log
    unfolding add_addresses run_all address_commands and_next add_address
    add_addresses-run_all dev [] log = refl
    add_addresses-run_all dev (a ∷ rest) log =
        let up = codes "/sbin/ip" ∷ codes "link" ∷ codes "set" ∷ dev ∷ codes "up" ∷ [] in
        let others = address_commands dev rest in
        goes_on_same (add_addresses-run_all dev rest) (add_address answers g dev a log)
        ∙ goes_on-goes_on (run_all answers others) (spawn answers up)
            (spawn answers (address_argv g dev a) log)
        ∙ goes_on_same (run_all-∷ answers up others) (spawn answers (address_argv g dev a) log)
        ∙ run_all-∷ answers (address_argv g dev a) (up ∷ others) log
        ∙ ap (λ argv. run_all answers (argv ∷ up ∷ others) log) (address_argv-ip_addr_add dev a)

    add_routes-run_all :
        (dev : Bytes) (rs : List (Route g)) (log : Log)
        → add_routes answers g dev rs log ≡ run_all answers (map (ip_route_add dev) rs) log
    unfolding add_routes run_all add_route and_next
    add_routes-run_all dev [] log = refl
    add_routes-run_all dev (r ∷ rest) log =
        goes_on_same (add_routes-run_all dev rest) (add_route answers g dev r log)
        ∙ run_all-∷ answers (route_argv g dev r) (map (ip_route_add dev) rest) log
        ∙ ap (λ argv. run_all answers (argv ∷ map (ip_route_add dev) rest) log)
            (route_argv-ip_route_add dev r)

    start_dhcp-run_all :
        (debug : Bool) (dev : Bytes) (log : Log)
        → start_dhcp answers debug dev log ≡ run_all answers (dhclient debug dev ∷ []) log
    unfolding start_dhcp
    start_dhcp-run_all debug dev log =
        spawn-run_all answers (dhcp_argv debug dev) log
        ∙ ap (λ argv. run_all answers (argv ∷ []) log) (dhcp_argv-dhclient debug dev)

    setup_network_device-run_all :
        (debug : Bool) (n : Network g) (dev : Bytes) (log : Log)
        → setup_network_device answers g debug n dev log
          ≡ run_all answers (device_commands debug n dev) log
    unfolding setup_network_device device_commands run_all and_next
    setup_network_device-run_all debug n dev log = elim (Bool-cases n.dhcp) [
      | inl on ↦ rw on (start_dhcp-run_all debug dev log)
      | inr off ↦ rw off (
          goes_on_same (add_routes-run_all dev n.routes) (add_addresses answers g dev n.addrs log)
          ∙ ap (goes_on (run_all answers (map (ip_route_add dev) n.routes)))
              (add_addresses-run_all dev n.addrs log)
          ∙ goes_on-run_all answers (address_commands dev n.addrs) (map (ip_route_add dev) n.routes)
              log)
    ]

    setup_devices-run_all :
        (debug : Bool) (i : ℕ) (ns : List (Network g)) (log : Log)
        → setup_devices answers g debug i ns log ≡ run_all answers (network_commands debug i ns) log
    unfolding setup_devices network_commands run_all and_next eth_name
    setup_devices-run_all debug i [] log = refl
    setup_devices-run_all debug i (n ∷ ns) log =
        goes_on_same (setup_devices-run_all debug (suc i) ns)
          (setup_network_device answers g debug n (eth_name i) log)
        ∙ ap (goes_on (run_all answers (network_commands debug (suc i) ns)))
            (setup_network_device-run_all debug n (eth_name i) log)
        ∙ goes_on-run_all answers (device_commands debug n (eth_name i))
            (network_commands debug (suc i) ns) log

    -- For the network number i of the configuration and the device eth<i>, setup_network starts
    -- `/sbin/dhclient [-v] --no-pid DEVICE` alone where DHCP is on, and otherwise `/sbin/ip addr
    -- add ADDRESS/PREFIX [broadcast ADDRESS] dev DEVICE` and `/sbin/ip link set DEVICE up` for
    -- each address, and then `/sbin/ip route add TARGET/PREFIX via GATEWAY dev DEVICE` for each
    -- route (whose arguments end behind `via` where the gateway is missing; a missing address or
    -- target is printed as `(null)`), and no other command. It stops behind the first command that
    -- cannot be started, and returns true exactly where all of them are started.
    pub setup_network-run_all :
        (debug : Bool) (c : Config g) (log : Log)
        → setup_network answers g debug c log
          ≡ run_all answers (network_commands debug 0 c.networks) log
    unfolding setup_network
    setup_network-run_all debug c log = setup_devices-run_all debug 0 c.networks log

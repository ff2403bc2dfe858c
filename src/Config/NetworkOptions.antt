-- ===== src/Config/NetworkOptions.antt =====
-- gvir_sandbox_config_add_network_opts of libvirt-sandbox-config.c: a network from its option text.
pub mod Consistent
use libvirt_sandbox.Base.{
  ℕ, Bool, true, false, not, ◌&&◌, ◌||◌, Option, none, some, List, [], ◌∷◌, ◌++◌, Bytes,
  if◌then◌else◌,
}
use libvirt_sandbox.Result.{
  Result, ok, err, fault, ◌>>=◌, each, dhcp_with_static, addresses_with_dhcp, routes_with_dhcp,
  no_filter_assignment, routes_without_addresses, unable_to_parse_address, missing_gateway,
  unknown_parameter,
}
use libvirt_sandbox.Config.{Network, Filterref, Config}
use libvirt_sandbox.Config.External.{Glib}
use libvirt_sandbox.Config.Text.{codes, equal, strip_prefix, cut, cut_last, upcase, strtol, to_int}

-- The branches of the loop, with the text behind the prefix.
pub data Param : Type 0 where
  dhcp unknown : Param
  source mac filter_parameter filter address route : Bytes → Param

abbrev pub or_else : (Bytes → Param) → Option Bytes → Param → Param
or_else f (some s) p = f s
or_else f none p = p

unfoldable pub classify : Bytes → Param
unfolding equal strip_prefix
classify s =
    if equal s (codes "dhcp")
    then dhcp
    else or_else source (strip_prefix (codes "source=") s) (
        or_else mac (strip_prefix (codes "mac=") s) (
          or_else filter_parameter (strip_prefix (codes "filter.") s) (
            or_else filter (strip_prefix (codes "filter=") s) (
              or_else address (strip_prefix (codes "address=") s)
                (or_else route (strip_prefix (codes "route=") s) unknown)))))

-- `ADDRESS[/PREFIX][%OTHER]`, where the prefix is 24 if there is none.
unfoldable pub parts : Bytes → Bytes × ℕ × Option Bytes
unfolding cut strtol
parts s = elim (cut b'/' s) [
  | some (addr, tail) ↦
      (addr, to_int (strtol tail).0, elim (cut b'%' tail) [ some (_, t) ↦ some t | none ↦ none ])
  | none ↦ elim (cut b'%' s) [ some (addr, t) ↦ (addr, 24, some t) | none ↦ (s, 24, none) ]
]

-- The local variables of the function. `net` refers to `filter` once `attached`, so that parameters
-- which follow the filter's name reach it too.
pub record Options (g : Glib) : Type 0 where
  pub net : Network g
  pub filter : Filterref
  pub attached : Bool
  pub gotaddr : Bool
  pub gotroute : Bool
  pub gotdhcp : Bool

module _ (g : Glib) where
  abbrev pub network_new : Network g
  network_new = record {
    dhcp = true;
    source = none;
    mac = none;
    routes = [];
    addrs = [];
    filterref = none;
  }

  abbrev pub no_options : Options g
  no_options = record {
    net = record network_new { dhcp = false };
    filter = record { filter = none; parameters = [] };
    attached = false;
    gotaddr = false;
    gotroute = false;
    gotdhcp = false;
  }

  abbrev set_net : Network g → Options g → Options g
  set_net n o = record o { net = n }

  unfoldable add_address : Bytes × ℕ × Option Bytes → Options g → Result (Options g)
  add_address (primary, prefix, bcast) o = elim (g.inet_parse primary) [
    | none ↦ err (unable_to_parse_address primary) o
    | some a ↦
        let add = λ (b : Option g.Inet). ok (
          set_net
            (record o.net {
              addrs =
                  o.net.addrs ++ (record { primary = some a; prefix = prefix; broadcast = b } ∷ []);
              dhcp = false;
            })
            o) in
        elim bcast [
          | none ↦ add none
          | some t ↦ elim (g.inet_parse t) [
            | none ↦ err (unable_to_parse_address t) o
            | some b ↦ add (some b)
          ]
        ]
  ]

  unfoldable add_route : Bytes → Bytes × ℕ × Option Bytes → Options g → Result (Options g)
  add_route whole (target, prefix, none) o = err (missing_gateway whole) o
  add_route whole (target, prefix, some gateway) o = elim (g.inet_parse target) [
    | none ↦ err (unable_to_parse_address target) o
    | some t ↦ elim (g.inet_parse gateway) [
      | none ↦ err (unable_to_parse_address gateway) o
      | some w ↦ ok (
          set_net
            (record o.net {
              routes =
                  o.net.routes
                  ++ (record { prefix = prefix; gateway = some w; target = some t } ∷ []);
              dhcp = false;
            })
            o)
    ]
  ]

  unfoldable add_parameter : Option (Bytes × Bytes) → Options g → Result (Options g)
  add_parameter none o = err no_filter_assignment o
  add_parameter (some (name, v)) o = ok (record o {
    filter = record o.filter { parameters = o.filter.parameters ++ ((upcase name, v) ∷ []) };
  })

  -- One round of the loop, for the parameter `whole`.
  unfoldable pub take_param : Bytes → Param → Options g → Result (Options g)
  unfolding cut_last parts add_address add_route add_parameter
  take_param whole dhcp o =
      if o.gotaddr || o.gotroute
      then err dhcp_with_static o
      else ok (record o { net = record o.net { dhcp = true }; gotdhcp = true })
  take_param whole (source s) o = ok (set_net (record o.net { source = some s }) o)
  take_param whole (mac s) o = ok (set_net (record o.net { mac = some s }) o)
  take_param whole (filter_parameter tail) o = add_parameter (cut_last b'=' tail) o
  take_param whole (filter name) o =
      ok (record o { filter = record o.filter { filter = some name }; attached = true })
  take_param whole (address s) o =
      if o.gotdhcp
      then err addresses_with_dhcp o
      else add_address (parts s) (record o { gotaddr = true })
  take_param whole (route s) o =
      if o.gotdhcp
      then err routes_with_dhcp o
      else add_route whole (parts s) (record o { gotroute = true })
  take_param whole unknown o = err (unknown_parameter whole) o

  unfoldable pub take_one : Bytes → Options g → Result (Options g)
  unfolding take_param classify
  take_one s o = take_param s (classify s) o

  -- The network as it refers to the filter at the end.
  abbrev pub finished_network : Options g → Network g
  finished_network o = record o.net { filterref = if o.attached then some o.filter else none }

  abbrev pub add_network : Network g → Config g → Config g
  add_network n c = record c { networks = c.networks ++ (n ∷ []) }

  unfoldable pub conclude : Config g → Result (Options g) → Result (Config g)
  conclude c (ok o) =
      if o.gotroute && not o.gotaddr
      then err routes_without_addresses c
      else ok (add_network (finished_network o) c)
  conclude c (err e o) = err e c
  conclude c fault = fault

  unfoldable pub add_network_opts : Bytes → Config g → Result (Config g)
  unfolding each take_one conclude
  add_network_opts s c = conclude c (each take_one (g.split s) no_options)

  unfoldable pub add_network_strv : List Bytes → Config g → Result (Config g)
  unfolding each add_network_opts
  add_network_strv = each add_network_opts

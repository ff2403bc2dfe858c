-- ===== src/Config/NetworkOptions/Consistent.antt =====
-- What add_network_opts accepts.
use libvirt_sandbox.Base.{
  ℕ, ◌≡◌, refl, sym, ◌≢◌, ◌⊎◌, inl, inr, true, false, not, ◌&&◌, Option, none, some, List, [], ◌∷◌,
  ◌++◌, Bytes, arith, Bool-cases,
}
use libvirt_sandbox.Result.{Result, ok, err, fault, each, each-ok}
use libvirt_sandbox.Config.{Network, Config}
use libvirt_sandbox.Config.External.{Glib}
use libvirt_sandbox.Config.Text.{cut_last}
use libvirt_sandbox.Config.NetworkOptions.{
  Param, Options, no_options, add_address, add_route, add_parameter, take_param, take_one,
  finished_network, add_network, conclude, add_network_opts, classify, parts,
}

-- DHCP excludes static addresses and routes, and routes need addresses.
pub record IsConsistent {g : Glib} (n : Network g) : Type 0 where
  pub dhcp_alone : (n.dhcp ≡ false) ⊎ ((n.addrs ≡ []) × (n.routes ≡ []))
  pub routes_need_addrs : (n.routes ≡ []) ⊎ (n.addrs ≢ [])

-- The flags of the function follow what is stored in the network.
record IsTracked {g : Glib} (o : Options g) : Type 0 where
  dhcp_flag : (o.net.dhcp ≡ false) ⊎ (o.gotdhcp ≡ true)
  addr_flag : ((o.gotaddr ≡ false) × (o.net.addrs ≡ [])) ⊎ ((o.gotaddr ≡ true) × (o.net.addrs ≢ []))
  route_flag : (o.gotroute ≡ true) ⊎ (o.net.routes ≡ [])
  exclusive : (o.gotdhcp ≡ false) ⊎ ((o.gotaddr ≡ false) × (o.gotroute ≡ false))

append-ne-nil {ℓ} : {A : Type ℓ} (xs : List A) (x : A) → xs ++ (x ∷ []) ≢ []
append-ne-nil [] x = ground arith
append-ne-nil (y ∷ xs) x = ground arith

module _ (g : Glib) where
  no_options-IsTracked : IsTracked (no_options g)
  no_options-IsTracked = record {
    dhcp_flag = inl refl;
    addr_flag = inl (refl, refl);
    route_flag = inr refl;
    exclusive = inl refl;
  }

  module _ (o : Options g) {o' : Options g} (t : IsTracked o) (d : o.gotdhcp ≡ false) where
    add_address-IsTracked :
        (p : Bytes × ℕ × Option Bytes)
        → add_address g p (record o { gotaddr = true }) ≡ ok o'
        → IsTracked o'
    unfolding add_address
    add_address-IsTracked (a, n, none) e = ground (arith, append-ne-nil o.net.addrs)
    add_address-IsTracked (a, n, some b) e = ground (arith, append-ne-nil o.net.addrs)

    add_route-IsTracked :
        (whole : Bytes) (p : Bytes × ℕ × Option Bytes)
        → add_route g whole p (record o { gotroute = true }) ≡ ok o'
        → IsTracked o'
    unfolding add_route
    add_route-IsTracked whole (a, n, none) e = ground arith
    add_route-IsTracked whole (a, n, some b) e = ground arith

  add_parameter-IsTracked :
      (p : Option (Bytes × Bytes)) (o : Options g) {o' : Options g}
      → IsTracked o
      → add_parameter g p o ≡ ok o'
      → IsTracked o'
  unfolding add_parameter
  add_parameter-IsTracked none o t e = ground arith
  add_parameter-IsTracked (some (name, v)) o t e = ground arith

  take_param-IsTracked :
      (whole : Bytes) (p : Param) (o : Options g) {o' : Options g}
      → IsTracked o
      → take_param g whole p o ≡ ok o'
      → IsTracked o'
  unfolding take_param
  take_param-IsTracked whole Param.dhcp o t e = ground arith
  take_param-IsTracked whole Param.unknown o t e = ground arith
  take_param-IsTracked whole (Param.source s) o t e = ground arith
  take_param-IsTracked whole (Param.mac s) o t e = ground arith
  take_param-IsTracked whole (Param.filter_parameter s) o t e =
      add_parameter-IsTracked (cut_last b'=' s) o t e
  take_param-IsTracked whole (Param.filter s) o t e = ground arith
  take_param-IsTracked whole (Param.address s) o t e = elim (Bool-cases o.gotdhcp) [
    | inl d ↦ ground arith
    | inr d ↦ add_address-IsTracked o t d (parts s) (ground arith)
  ]
  take_param-IsTracked whole (Param.route s) o t e = elim (Bool-cases o.gotdhcp) [
    | inl d ↦ ground arith
    | inr d ↦ add_route-IsTracked o t d whole (parts s) (ground arith)
  ]

  take_one-IsTracked :
      (p : Bytes) (o o' : Options g) → IsTracked o → take_one g p o ≡ ok o' → IsTracked o'
  unfolding take_one
  take_one-IsTracked p o o' t e = take_param-IsTracked p (classify p) o t e

  finished_network-IsConsistent :
      (o : Options g)
      → IsTracked o
      → (o.gotroute && not o.gotaddr) ≡ false
      → IsConsistent (finished_network g o)
  finished_network-IsConsistent o t h = ground arith

  conclude-ok :
      (c : Config g) (r : Result (Options g)) {c' : Config g}
      → conclude g c r ≡ ok c'
      → (o : Options g) × (r ≡ ok o)
        × ((o.gotroute && not o.gotaddr) ≡ false)
        × (add_network g (finished_network g o) c ≡ c')
  unfolding conclude
  conclude-ok c (ok o) e = elim (Bool-cases (o.gotroute && not o.gotaddr)) [
    | inl bad ↦ ground arith
    | inr good ↦ (o, refl, good, ground arith)
  ]
  conclude-ok c (err x o) e = ground arith
  conclude-ok c fault e = ground arith

  -- An option text that is accepted adds one network behind those that were there, and changes
  -- nothing else of the configuration. The network does not use DHCP, or has neither addresses nor
  -- routes; and it has no routes, or has addresses.
  pub add_network_opts-IsConsistent :
      (s : Bytes) (c c' : Config g)
      → add_network_opts g s c ≡ ok c'
      → (n : Network g) × (c' ≡ record c { networks = c.networks ++ (n ∷ []) }) × IsConsistent n
  unfolding add_network_opts
  add_network_opts-IsConsistent s c c' e =
      let (o, read, good, added) = conclude-ok c (each (take_one g) (g.split s) (no_options g)) e in
      let t =
        each-ok IsTracked (take_one g) take_one-IsTracked (g.split s) (no_options g)
          no_options-IsTracked read in
      (finished_network g o, sym added, finished_network-IsConsistent o t good)

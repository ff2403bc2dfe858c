-- ===== src/Config/RoundTrip/Networks/Keys.antt =====
-- The keys of an address, of a route and of a network.
use libvirt_sandbox.Base.{
  ℕ, ◌%◌, ◌<◌, ◌≡◌, refl, subst, sym, ◌∙◌, Option, none, some, Bytes, arith, if◌then◌else◌, u32_mod,
}
use libvirt_sandbox.Config.{Address, Route}
use libvirt_sandbox.Config.External.{Glib, value, no_group, no_key, in_group, IsKeyFile, IsInet}
use libvirt_sandbox.Config.Groups.{Group, network_address, network_route}
use libvirt_sandbox.Config.KeyFile.{Reader, reader, string_in, uint64_in}
use libvirt_sandbox.Config.KeyFile.Frame.{
  reader-set_raw, string_own, reader-set_optional, shown, uint64_own,
}
use libvirt_sandbox.Config.Load.{found, absent, address_from, route_from}
use libvirt_sandbox.Config.RoundTrip.Envs.{nothing}
use libvirt_sandbox.Config.Save.{save_address, save_route, printed}
use libvirt_sandbox.Config.Text.{codes, equal}

module _ (g : Glib) where
  abbrev pub IsAddressText : Address g → Type 0
  IsAddressText x = ((a : g.Inet) × (x.primary ≡ some a)) × (x.prefix < u32_mod)

  abbrev pub IsRouteText : Route g → Type 0
  IsRouteText x =
      ((a : g.Inet) × (x.target ≡ some a))
      × ((a : g.Inet) × (x.gateway ≡ some a))
      × (x.prefix < u32_mod)

  -- Nothing is in the group.
  abbrev pub Fresh : Group → g.KeyFile → Type 0
  Fresh a f = (key : Bytes) → reader g a f key ≡ no_group

  -- An optional address of the file.
  abbrev Reads : Reader → Bytes → Option g.Inet → Type 0
  Reads r key none = string_in g r key ≡ no_key
  Reads r key (some b) = (t : Bytes) × (string_in g r key ≡ value t) × (g.inet_parse t ≡ some b)

  pub address_absent : address_from g nothing ≡ absent
  unfolding address_from
  address_absent = refl

  pub route_absent : route_from g nothing ≡ absent
  unfolding route_from
  route_absent = refl

  address_from_found :
      (r : Reader) (s : Bytes) (a : g.Inet) (n : ℕ) (b : Option g.Inet)
      → string_in g r (codes "primary") ≡ value s
      → g.inet_parse s ≡ some a
      → uint64_in g r (codes "prefix") ≡ value n
      → n < u32_mod
      → Reads r (codes "broadcast") b
      → address_from g r ≡ found (record { primary = some a; prefix = n; broadcast = b })
  unfolding address_from
  address_from_found r s a n none e1 e2 e3 h e4 =
      let wrap : n % u32_mod ≡ n = omega arith in ground (arith, e1, e2, e3, wrap, e4)
  address_from_found r s a n (some b) e1 e2 e3 h (t, e4, e5) =
      let wrap : n % u32_mod ≡ n = omega arith in ground (arith, e1, e2, e3, wrap, e4, e5)

  route_from_found :
      (r : Reader) (s t : Bytes) (a b : g.Inet) (n : ℕ)
      → string_in g r (codes "target") ≡ value s
      → g.inet_parse s ≡ some a
      → string_in g r (codes "gateway") ≡ value t
      → g.inet_parse t ≡ some b
      → uint64_in g r (codes "prefix") ≡ value n
      → n < u32_mod
      → route_from g r ≡ found (record { prefix = n; gateway = some b; target = some a })
  unfolding route_from
  route_from_found r s t a b n e1 e2 e3 e4 e5 h =
      let wrap : n % u32_mod ≡ n = omega arith in ground (arith, e1, e2, e3, e4, e5, wrap)

  module _ (laws : IsKeyFile g) (inets : IsInet g) where
    inet_own :
        (r : Reader) (key : Bytes) (a : g.Inet)
        → r key ≡ value (g.of_string (g.inet_print a))
        → string_in g r key ≡ value (g.inet_print a)
    inet_own r key a e = string_own laws r key (g.inet_print a) (inets.inet_print_utf8 a) e

    address_shows :
        (i j : ℕ) (p : Option g.Inet) (n : ℕ) (b : Option g.Inet) (f : g.KeyFile)
        → Fresh (network_address i j) f
        → (key : Bytes)
        → reader g
            (network_address i j)
            (save_address g i j (record { primary = p; prefix = n; broadcast = b }) f)
            key
          ≡ (if equal (codes "prefix") key
              then value (g.of_uint64 n)
              else in_group (
                  shown g
                    (codes "broadcast")
                    (printed g b)
                    key
                    (shown g (codes "primary") (printed g p) key no_group)))
    unfolding save_address
    address_shows i j p n b f v key = simp (reader-set_raw laws, reader-set_optional laws, v)

    broadcast-Reads :
        (r : Reader) (b : Option g.Inet)
        → r (codes "broadcast")
          ≡ in_group (shown g (codes "broadcast") (printed g b) (codes "broadcast") no_key)
        → Reads r (codes "broadcast") b
    unfolding equal
    broadcast-Reads r none e = ground (arith, e)
    broadcast-Reads r (some b) e =
        (g.inet_print b, inet_own r (codes "broadcast") b e, inets.inet_parse-inet_print b)

    past :
        (b : Option g.Inet) (s : Bytes)
        → in_group
            (shown g (codes "broadcast") (printed g b) (codes "primary") (value (g.of_string s)))
          ≡ value (g.of_string s)
    unfolding equal
    past none s = refl
    past (some b) s = refl

    pub address_some :
        (i j : ℕ) (a : g.Inet) (n : ℕ) (b : Option g.Inet) (f : g.KeyFile)
        → n < u32_mod
        → Fresh (network_address i j) f
        → address_from g (
            reader g
              (network_address i j)
              (save_address g i j (record { primary = some a; prefix = n; broadcast = b }) f))
          ≡ found (record { primary = some a; prefix = n; broadcast = b })
    unfolding equal
    address_some i j a n b f h v =
        let x : Address g = record { primary = some a; prefix = n; broadcast = b } in
        let r = reader g (network_address i j) (save_address g i j x f) in
        let at = address_shows i j (some a) n b f v in
        address_from_found r (g.inet_print a) a n b
          (inet_own r (codes "primary") a (at (codes "primary") ∙ past b (g.inet_print a)))
          (inets.inet_parse-inet_print a)
          (uint64_own laws r (codes "prefix") n (omega arith) (at (codes "prefix"))) h
          (broadcast-Reads r b (at (codes "broadcast")))

    route_shows :
        (i j : ℕ) (t : g.Inet) (n : ℕ) (b : g.Inet) (f : g.KeyFile)
        → Fresh (network_route i j) f
        → (key : Bytes)
        → reader g
            (network_route i j)
            (save_route g i j (record { prefix = n; gateway = some b; target = some t }) f)
            key
          ≡ (if equal (codes "target") key
              then value (g.of_string (g.inet_print t))
              else in_group (
                  if equal (codes "gateway") key
                  then value (g.of_string (g.inet_print b))
                  else in_group
                      (if equal (codes "prefix") key then value (g.of_uint64 n) else no_key)))
    unfolding save_route
    route_shows i j t n b f v key = simp (reader-set_raw laws, reader-set_optional laws, v)

    pub route_some :
        (i j : ℕ) (t : g.Inet) (n : ℕ) (b : g.Inet) (f : g.KeyFile)
        → n < u32_mod
        → Fresh (network_route i j) f
        → route_from g (
            reader g
              (network_route i j)
              (save_route g i j (record { prefix = n; gateway = some b; target = some t }) f))
          ≡ found (record { prefix = n; gateway = some b; target = some t })
    unfolding equal
    route_some i j t n b f h v =
        let x : Route g = record { prefix = n; gateway = some b; target = some t } in
        let r = reader g (network_route i j) (save_route g i j x f) in
        let at = route_shows i j t n b f v in
        route_from_found r (g.inet_print t) (g.inet_print b) t b n
          (inet_own r (codes "target") t (at (codes "target"))) (inets.inet_parse-inet_print t)
          (inet_own r (codes "gateway") b (at (codes "gateway"))) (inets.inet_parse-inet_print b)
          (uint64_own laws r (codes "prefix") n (omega arith) (at (codes "prefix"))) h

    pub address_reads :
        (i j : ℕ) (x : Address g) (f : g.KeyFile)
        → IsAddressText x
        → Fresh (network_address i j) f
        → address_from g (reader g (network_address i j) (save_address g i j x f)) ≡ found x
    address_reads i j x f ((a, e), h) v =
        subst
          (λ p.
            let y : Address g = record x { primary = p } in
            address_from g (reader g (network_address i j) (save_address g i j y f)) ≡ found y)
          (sym e) (address_some i j a x.prefix x.broadcast f h v)

    pub route_reads :
        (i j : ℕ) (x : Route g) (f : g.KeyFile)
        → IsRouteText x
        → Fresh (network_route i j) f
        → route_from g (reader g (network_route i j) (save_route g i j x f)) ≡ found x
    route_reads i j x f ((t, e), (b, e'), h) v =
        subst
          (λ p.
            let y : Route g = record x { target = p } in
            route_from g (reader g (network_route i j) (save_route g i j y f)) ≡ found y)
          (sym e)
          (subst
            (λ p.
              let y : Route g = record x { gateway = p; target = some t } in
              route_from g (reader g (network_route i j) (save_route g i j y f)) ≡ found y)
            (sym e') (route_some i j t x.prefix b f h v))

-- ===== src/Config/RoundTrip/Networks/Own.antt =====
-- The keys of a network beside those of its addresses and routes.
use libvirt_sandbox.Base.{
  ℕ, ◌≡◌, Bool, true, Option, none, some, [], Bytes, arith, if◌then◌else◌, length,
}
use libvirt_sandbox.Config.{Network}
use libvirt_sandbox.Config.External.{Glib, value, no_key, in_group, IsKeyFile}
use libvirt_sandbox.Config.Groups.{network}
use libvirt_sandbox.Config.KeyFile.{Reader, reader, string_in, boolean_in}
use libvirt_sandbox.Config.KeyFile.Frame.{
  reader-set_raw, string_own, reader-set_optional, shown, boolean_own,
}
use libvirt_sandbox.Config.Load.{
  found, address_from, route_from, network_with, network_from, kept_optional, load_while,
}
use libvirt_sandbox.Config.RoundTrip.Networks.Keys.{Fresh}
use libvirt_sandbox.Config.Save.{save_network_keys}
use libvirt_sandbox.Config.Text.{codes, equal}

module _ (g : Glib) where
  abbrev pub IsTextOption : Option Bytes → Type 0
  IsTextOption none = Unit
  IsTextOption (some s) = g.is_utf8 s ≡ true

  -- What the saving of the network keeps: all but the filter.
  abbrev pub unfiltered : Network g → Network g
  unfiltered n = record n { filterref = none }

  pub record IsNetworkKeys (r : Reader) (n : Network g) : Type 0 where
    pub dhcp_key : boolean_in g r (codes "dhcp") ≡ value n.dhcp
    pub source_key : kept_optional (string_in g r (codes "source")) none ≡ n.source
    pub mac_key : kept_optional (string_in g r (codes "mac")) none ≡ n.mac

  pub network_from_found :
      (r : Reader) (xs rs : ℕ → Reader) (n : Network g)
      → IsNetworkKeys r n
      → load_while (λ j. address_from g (xs j)) 100 0 [] ≡ found n.addrs
      → load_while (λ j. route_from g (rs j)) 100 0 [] ≡ found n.routes
      → network_from g r xs rs ≡ found (unfiltered n)
  unfolding network_from network_with
  network_from_found r xs rs n k e1 e2 = ground (arith, k.dhcp_key, k.source_key, k.mac_key, e1, e2)

  module _ (laws : IsKeyFile g) where
    network_shows :
        (i : ℕ) (n : Network g) (f : g.KeyFile)
        → Fresh g (network i) f
        → (key : Bytes)
        → reader g (network i) (save_network_keys g i n f) key ≡ (
            if equal (codes "routes") key
            then value (g.of_uint64 (length n.routes))
            else in_group (
                if equal (codes "addresses") key
                then value (g.of_uint64 (length n.addrs))
                else in_group (
                    shown g (codes "mac") n.mac key (
                      shown g (codes "source") n.source key (
                        if equal (codes "dhcp") key
                        then value (g.of_boolean n.dhcp)
                        else no_key)))))
    unfolding save_network_keys
    network_shows i n f v key = simp (reader-set_raw laws, reader-set_optional laws, v)

    module _ (r : Reader) where
      dhcp_reads :
          (m s : Option Bytes) (b : Bool)
          → r (codes "dhcp")
            ≡ in_group (
                in_group (
                  shown g
                    (codes "mac")
                    m
                    (codes "dhcp")
                    (shown g (codes "source") s (codes "dhcp") (value (g.of_boolean b)))))
          → boolean_in g r (codes "dhcp") ≡ value b
      unfolding equal
      dhcp_reads none none b e = boolean_own laws r (codes "dhcp") b e
      dhcp_reads none (some s) b e = boolean_own laws r (codes "dhcp") b e
      dhcp_reads (some m) none b e = boolean_own laws r (codes "dhcp") b e
      dhcp_reads (some m) (some s) b e = boolean_own laws r (codes "dhcp") b e

      optional_reads :
          (key : Bytes) (s : Option Bytes)
          → IsTextOption s
          → r key ≡ elim s [ none ↦ no_key | some t ↦ value (g.of_string t) ]
          → kept_optional (string_in g r key) none ≡ s
      optional_reads key none h e = ground (arith, e)
      optional_reads key (some s) h e = let e' = string_own laws r key s h e in ground (arith, e')

      source_reads :
          (m s : Option Bytes)
          → IsTextOption s
          → r (codes "source")
            ≡ in_group (
                in_group (
                  shown g
                    (codes "mac")
                    m
                    (codes "source")
                    (shown g (codes "source") s (codes "source") no_key)))
          → kept_optional (string_in g r (codes "source")) none ≡ s
      unfolding equal
      source_reads none none h e = optional_reads (codes "source") none h e
      source_reads (some m) none h e = optional_reads (codes "source") none h e
      source_reads none (some s) h e = optional_reads (codes "source") (some s) h e
      source_reads (some m) (some s) h e = optional_reads (codes "source") (some s) h e

      mac_reads :
          (m s : Option Bytes)
          → IsTextOption m
          → r (codes "mac")
            ≡ in_group (
                in_group (
                  shown g
                    (codes "mac")
                    m
                    (codes "mac")
                    (shown g (codes "source") s (codes "mac") no_key)))
          → kept_optional (string_in g r (codes "mac")) none ≡ m
      unfolding equal
      mac_reads none none h e = optional_reads (codes "mac") none h e
      mac_reads (some m) none h e = optional_reads (codes "mac") (some m) h e
      mac_reads none (some s) h e = optional_reads (codes "mac") none h e
      mac_reads (some m) (some s) h e = optional_reads (codes "mac") (some m) h e

    pub network_keys :
        (i : ℕ) (n : Network g) (f : g.KeyFile)
        → IsTextOption n.source
        → IsTextOption n.mac
        → Fresh g (network i) f
        → IsNetworkKeys (reader g (network i) (save_network_keys g i n f)) n
    unfolding equal
    network_keys i n f hs hm v =
        let r = reader g (network i) (save_network_keys g i n f) in
        let at = network_shows i n f v in
        record {
          dhcp_key = dhcp_reads r n.mac n.source n.dhcp (at (codes "dhcp"));
          source_key = source_reads r n.mac n.source hs (at (codes "source"));
          mac_key = mac_reads r n.mac n.source hm (at (codes "mac"));
        }

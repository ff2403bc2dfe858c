-- ===== src/Config/RoundTrip/Networks.antt =====
-- Networks with their addresses and routes.
pub mod Keys
pub mod Own
use libvirt_sandbox.Base.{
  ℕ, ◌≤◌, ◌≡◌, ◌≢◌, refl, ap, ap₂, subst, sym, ◌∙◌, List, [], ◌∷◌, length, arith,
}
use libvirt_sandbox.Config.{Network, Address, Route}
use libvirt_sandbox.Config.External.{Glib, IsKeyFile, IsInet}
use libvirt_sandbox.Config.Groups.{Group, network, network_address, network_route}
use libvirt_sandbox.Config.KeyFile.{Reader, reader}
use libvirt_sandbox.Config.Load.{
  Loaded, found, absent, address_from, route_from, network_from, load_while,
}
use libvirt_sandbox.Config.RoundTrip.{
  All, Pairwise-eq, IsSaved, load_while-save_each, save_each_keeps,
}
use libvirt_sandbox.Config.RoundTrip.Envs.{nothing}
use libvirt_sandbox.Config.RoundTrip.Frames.{
  reader-save_address, reader-save_route, reader-save_network_keys, reader-save_config_network,
}
use libvirt_sandbox.Config.RoundTrip.Networks.Keys.{
  IsAddressText, IsRouteText, address_absent, route_absent, address_reads, route_reads,
}
use libvirt_sandbox.Config.RoundTrip.Networks.Own.{
  IsTextOption, unfiltered, IsNetworkKeys, network_from_found, network_keys,
}
use libvirt_sandbox.Config.Save.{
  save_each, save_address, save_route, save_network_keys, save_config_network,
}
use mathlib.Core.Path.{fun_ext}

-- What the loading of the network `i` reads of a file.
abbrev pub NetworkView : Type 0
NetworkView = Reader × (ℕ → Reader) × (ℕ → Reader)

module _ (g : Glib) where
  abbrev pub network_view : g.KeyFile → ℕ → NetworkView
  network_view f i = (
    reader g (network i) f,
    (λ j. reader g (network_address i j) f),
    (λ j. reader g (network_route i j) f),
  )

  abbrev pub network_void : NetworkView
  network_void = (nothing, (λ j. nothing), (λ j. nothing))

  abbrev pub from_network_view : NetworkView → Loaded (Network g)
  from_network_view (r, xs, rs) = network_from g r xs rs

  -- The texts are UTF-8, the addresses are there, and there are at most 100 addresses and routes.
  pub record IsNetworkText (n : Network g) : Type 0 where
    pub source_utf8 : IsTextOption g n.source
    pub mac_utf8 : IsTextOption g n.mac
    pub addrs_there : All (IsAddressText g) n.addrs
    pub routes_there : All (IsRouteText g) n.routes
    pub addrs_few : length n.addrs ≤ 100
    pub routes_few : length n.routes ≤ 100

  pub network_absent : from_network_view network_void ≡ absent
  unfolding network_from
  network_absent = refl

  module _ (laws : IsKeyFile g) (inets : IsInet g) where
    pub network_other :
        (i j : ℕ) (n : Network g) (f : g.KeyFile)
        → i ≢ j
        → network_view (save_config_network g i n f) j ≡ network_view f j
    network_other i j n f other =
        let keeps =
          λ (b : Group) (h : network i ≢ b) (h' : (k : ℕ) → network_address i k ≢ b)
              (h'' : (k : ℕ) → network_route i k ≢ b).
            reader-save_config_network laws b i n f h h' h'' in
        λ t. (
          keeps (network j) (ground arith) (λ k. ground arith) (λ k. ground arith) t,
          (λ k.
              keeps (network_address j k) (ground arith) (λ l. ground arith) (λ l. ground arith) t),
          (λ k. keeps (network_route j k) (ground arith) (λ l. ground arith) (λ l. ground arith) t),
        )

    addresses_saved :
        (i : ℕ) (xs : List (Address g)) (f : g.KeyFile)
        → ((j : ℕ) → reader g (network_address i j) f ≡ nothing)
        → All (IsAddressText g) xs
        → length xs ≤ 100
        → load_while
            (λ j.
              address_from g (reader g (network_address i j) (save_each (save_address g i) 0 xs f)))
            100
            0
            []
          ≡ found xs
    addresses_saved i xs f fresh texts few =
        let view = λ (f' : g.KeyFile) (j : ℕ). reader g (network_address i j) f' in
        let (m, same, loop) =
          load_while-save_each (save_address g i) view nothing (address_from g) (IsAddressText g)
            ◌≡◌
            (λ j k x f' other.
              reader-save_address laws (network_address i k) i j x f' (ground arith))
            (address_absent g)
            (λ j x f' fits v.
              (x, address_reads g laws inets i j x f' fits (λ key. ap (λ r. r key) v), refl))
            100 xs (record { shows = λ k h. refl; unused = λ k h. fresh k }) texts few in
        loop [] ∙ ap found (sym (Pairwise-eq same))

    routes_saved :
        (i : ℕ) (xs : List (Route g)) (f : g.KeyFile)
        → ((j : ℕ) → reader g (network_route i j) f ≡ nothing)
        → All (IsRouteText g) xs
        → length xs ≤ 100
        → load_while
            (λ j. route_from g (reader g (network_route i j) (save_each (save_route g i) 0 xs f)))
            100
            0
            []
          ≡ found xs
    routes_saved i xs f fresh texts few =
        let view = λ (f' : g.KeyFile) (j : ℕ). reader g (network_route i j) f' in
        let (m, same, loop) =
          load_while-save_each (save_route g i) view nothing (route_from g) (IsRouteText g) ◌≡◌
            (λ j k x f' other. reader-save_route laws (network_route i k) i j x f' (ground arith))
            (route_absent g)
            (λ j x f' fits v.
              (x, route_reads g laws inets i j x f' fits (λ key. ap (λ r. r key) v), refl))
            100 xs (record { shows = λ k h. refl; unused = λ k h. fresh k }) texts few in
        loop [] ∙ ap found (sym (Pairwise-eq same))

    pub network_reads :
        (i : ℕ) (n : Network g) (f : g.KeyFile)
        → IsNetworkText n
        → network_view f i ≡ network_void
        → from_network_view (network_view (save_config_network g i n f) i) ≡ found (unfiltered g n)
    unfolding save_config_network
    network_reads i n f t void =
        let f1 = save_each (save_address g i) 0 n.addrs f in
        let f2 = save_each (save_route g i) 0 n.routes f1 in
        let past_addrs = λ (b : Group) (h : (j : ℕ) → network_address i j ≢ b).
          save_each_keeps (save_address g i) (reader g b)
            (λ j x f'. reader-save_address laws b i j x f' (h j)) 0 n.addrs f in
        let past_routes = λ (b : Group) (h : (j : ℕ) → network_route i j ≢ b).
          save_each_keeps (save_route g i) (reader g b)
            (λ j x f'. reader-save_route laws b i j x f' (h j)) 0 n.routes f1 in
        let past_keys =
          λ (b : Group) (h : network i ≢ b). reader-save_network_keys laws b i n f2 h in
        let own = network_keys g laws i n f2 t.source_utf8 t.mac_utf8 (λ key.
          ap (λ r. r key)
            (past_routes (network i) (λ j. ground arith)
              ∙ past_addrs (network i) (λ j. ground arith)
              ∙ ap (λ (v : NetworkView). v.0) void)) in
        let xs =
          addresses_saved i n.addrs f (λ j. ap (λ (v : NetworkView). v.1 j) void) t.addrs_there
            t.addrs_few in
        let rs =
          routes_saved i n.routes f1
            (λ j.
              past_addrs (network_route i j) (λ k. ground arith)
              ∙ ap (λ (v : NetworkView). v.2 j) void)
            t.routes_there t.routes_few in
        network_from_found g _ _ _ n own
          (subst
            (λ (v : ℕ → Reader). load_while (λ j. address_from g (v j)) 100 0 [] ≡ found n.addrs)
            (sym (
              fun_ext (λ j.
                past_keys (network_address i j) (ground arith)
                ∙ past_routes (network_address i j) (λ k. ground arith))))
            xs)
          (subst
            (λ (v : ℕ → Reader). load_while (λ j. route_from g (v j)) 100 0 [] ≡ found n.routes)
            (sym (fun_ext (λ j. past_keys (network_route i j) (ground arith)))) rs)

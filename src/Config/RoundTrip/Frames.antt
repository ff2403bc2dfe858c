-- ===== src/Config/RoundTrip/Frames.antt =====
-- The groups that each function of the saving leaves alone.
use libvirt_sandbox.Base.{ℕ, ◌≡◌, ◌≢◌, ◌∙◌, Option, Bytes}
use libvirt_sandbox.Config.{
  Disk, Mount, Network, Address, Route, MountKind, host_bind, host_image, guest_bind, ram, Config,
}
use libvirt_sandbox.Config.External.{Glib, IsKeyFile}
use libvirt_sandbox.Config.Groups.{
  Group, core, identity, security, mount, env, disk, network, mount_include, network_address,
  network_route,
}
use libvirt_sandbox.Config.KeyFile.{reader, set_raw, set_optional}
use libvirt_sandbox.Config.KeyFile.Frame.{reader-set_raw_other, reader-set_optional_other}
use libvirt_sandbox.Config.RoundTrip.{save_each_keeps}
use libvirt_sandbox.Config.Save.{
  save_config_env, save_config_disk, save_kind, save_include, save_config_mount, save_address,
  save_route, save_network_keys, save_config_network, save_core, save_identity, save_security,
  save_flags,
}

module _ {g : Glib} (laws : IsKeyFile g) (b : Group) where
  module _ {a : Group} (other : a ≢ b) where
    raw : (key text : Bytes) (f : g.KeyFile) → reader g b (set_raw g a key text f) ≡ reader g b f
    raw key text f = reader-set_raw_other laws a b key text f other

    optional :
        (key : Bytes) (s : Option Bytes) (f : g.KeyFile)
        → reader g b (set_optional g a key s f) ≡ reader g b f
    optional key s f = reader-set_optional_other laws a b key s f other

  pub reader-save_config_env :
      (i : ℕ) (e : Bytes × Bytes) (f : g.KeyFile)
      → env i ≢ b
      → reader g b (save_config_env g i e f) ≡ reader g b f
  unfolding save_config_env
  reader-save_config_env i (k, v) f other = raw other _ _ _ ∙ raw other _ _ _

  pub reader-save_config_disk :
      (i : ℕ) (d : Disk) (f : g.KeyFile)
      → disk i ≢ b
      → reader g b (save_config_disk g i d f) ≡ reader g b f
  unfolding save_config_disk
  reader-save_config_disk i d f other =
      raw other _ _ _ ∙ raw other _ _ _ ∙ raw other _ _ _ ∙ raw other _ _ _

  pub reader-save_kind :
      {a : Group} (k : MountKind) (f : g.KeyFile)
      → a ≢ b
      → reader g b (save_kind g a k f) ≡ reader g b f
  unfolding save_kind
  reader-save_kind (ram usage) f other = raw other _ _ _
  reader-save_kind (host_image source format) f other = raw other _ _ _ ∙ raw other _ _ _
  reader-save_kind (host_bind source) f other = raw other _ _ _
  reader-save_kind (guest_bind source) f other = raw other _ _ _

  pub reader-save_include :
      (i j : ℕ) (e : Bytes × Bytes) (f : g.KeyFile)
      → mount_include i j ≢ b
      → reader g b (save_include g i j e f) ≡ reader g b f
  unfolding save_include
  reader-save_include i j (dst, src) f other = raw other _ _ _ ∙ raw other _ _ _

  pub reader-save_config_mount :
      (i : ℕ) (m : Mount g) (f : g.KeyFile)
      → mount i ≢ b
      → ((j : ℕ) → mount_include i j ≢ b)
      → reader g b (save_config_mount g i m f) ≡ reader g b f
  unfolding save_config_mount
  reader-save_config_mount i m f other others =
      save_each_keeps (save_include g i) (reader g b)
        (λ j e f'. reader-save_include i j e f' (others j)) 0 (g.entries m.includes) _
      ∙ reader-save_kind m.kind _ other
      ∙ raw other _ _ _
      ∙ raw other _ _ _

  pub reader-save_address :
      (i j : ℕ) (x : Address g) (f : g.KeyFile)
      → network_address i j ≢ b
      → reader g b (save_address g i j x f) ≡ reader g b f
  unfolding save_address
  reader-save_address i j x f other = raw other _ _ _ ∙ optional other _ _ _ ∙ optional other _ _ _

  pub reader-save_route :
      (i j : ℕ) (x : Route g) (f : g.KeyFile)
      → network_route i j ≢ b
      → reader g b (save_route g i j x f) ≡ reader g b f
  unfolding save_route
  reader-save_route i j x f other = optional other _ _ _ ∙ optional other _ _ _ ∙ raw other _ _ _

  pub reader-save_network_keys :
      (i : ℕ) (n : Network g) (f : g.KeyFile)
      → network i ≢ b
      → reader g b (save_network_keys g i n f) ≡ reader g b f
  unfolding save_network_keys
  reader-save_network_keys i n f other =
      raw other _ _ _
      ∙ raw other _ _ _
      ∙ optional other _ _ _
      ∙ optional other _ _ _
      ∙ raw other _ _ _

  pub reader-save_config_network :
      (i : ℕ) (n : Network g) (f : g.KeyFile)
      → network i ≢ b
      → ((j : ℕ) → network_address i j ≢ b)
      → ((j : ℕ) → network_route i j ≢ b)
      → reader g b (save_config_network g i n f) ≡ reader g b f
  unfolding save_config_network
  reader-save_config_network i n f other addrs routes =
      reader-save_network_keys i n _ other
      ∙ save_each_keeps (save_route g i) (reader g b)
          (λ j x f'. reader-save_route i j x f' (routes j)) 0 n.routes _
      ∙ save_each_keeps (save_address g i) (reader g b)
          (λ j x f'. reader-save_address i j x f' (addrs j)) 0 n.addrs f

  pub reader-save_core :
      (c : Config g) (f : g.KeyFile) → core ≢ b → reader g b (save_core g c f) ≡ reader g b f
  unfolding save_core
  reader-save_core c f other =
      raw other _ _ _
      ∙ optional other _ _ _
      ∙ optional other _ _ _
      ∙ optional other _ _ _
      ∙ raw other _ _ _
      ∙ raw other _ _ _
      ∙ optional other _ _ _
      ∙ raw other _ _ _

  pub reader-save_identity :
      (c : Config g) (f : g.KeyFile)
      → identity ≢ b
      → reader g b (save_identity g c f) ≡ reader g b f
  unfolding save_identity
  reader-save_identity c f other =
      raw other _ _ _ ∙ raw other _ _ _ ∙ raw other _ _ _ ∙ raw other _ _ _

  pub reader-save_security :
      (c : Config g) (f : g.KeyFile)
      → security ≢ b
      → reader g b (save_security g c f) ≡ reader g b f
  unfolding save_security
  reader-save_security c f other = raw other _ _ _ ∙ optional other _ _ _

  pub reader-save_flags :
      (c : Config g) (f : g.KeyFile) → core ≢ b → reader g b (save_flags g c f) ≡ reader g b f
  unfolding save_flags
  reader-save_flags c f other = raw other _ _ _ ∙ raw other _ _ _

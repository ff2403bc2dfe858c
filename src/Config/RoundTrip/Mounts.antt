-- ===== src/Config/RoundTrip/Mounts.antt =====
-- Mounts and their includes.
pub mod Keys
use libvirt_sandbox.Base.{
  ℕ, suc, ◌+◌, ◌^◌, ◌<◌, ◌≤◌, ◌≡◌, ◌≢◌, refl, ap, ap₂, subst, sym, ◌∙◌, true, false, some, List, [],
  ◌∷◌, ◌++◌, Bytes, arith, length,
}
use libvirt_sandbox.Config.{Mount, MountKind}
use libvirt_sandbox.Config.External.{Glib, IsKeyFile, IsTable, no_group}
use libvirt_sandbox.Config.Groups.{Group, mount, mount_include}
use libvirt_sandbox.Config.KeyFile.{Reader, reader}
use libvirt_sandbox.Config.KeyFile.Frame.{reader-set_raw_other}
use libvirt_sandbox.Config.Load.{
  Loaded, found, absent, include_from, mount_from, load_while, add_includes,
}
use libvirt_sandbox.Config.MountOptions.{mount_new}
use libvirt_sandbox.Config.RoundTrip.{
  All, Pairwise, nil, cons, Pairwise-eq, IsSaved, load_while-save_each, save_each_keeps,
}
use libvirt_sandbox.Config.RoundTrip.Envs.{IsEnvText, nothing}
use libvirt_sandbox.Config.RoundTrip.Frames.{
  reader-save_include, reader-save_kind, reader-save_config_mount,
}
use libvirt_sandbox.Config.RoundTrip.Mounts.Keys.{
  IsKindText, IsMountKeys, keys_saved, mount_keys, include_reads, include_absent, mount_from_found,
}
use libvirt_sandbox.Config.RoundTrip.Tables.{insert_all, lookup-rebuilt}
use libvirt_sandbox.Config.Save.{save_each, save_include, save_config_mount}
use mathlib.Core.Path.{fun_ext}

-- What the loading of the mount `i` reads of a file.
abbrev pub MountView : Type 0
MountView = Reader × (ℕ → Reader)

module _ (g : Glib) where
  abbrev pub mount_view : g.KeyFile → ℕ → MountView
  mount_view f i = (reader g (mount i) f, λ j. reader g (mount_include i j) f)

  abbrev pub mount_void : MountView
  mount_void = (nothing, λ j. nothing)

  abbrev pub from_view : MountView → Loaded (Mount g)
  from_view (r, is) = mount_from g r is

  -- The texts are UTF-8, and there are at most 1024 includes.
  pub record IsMountText (m : Mount g) : Type 0 where
    pub target_utf8 : g.is_utf8 m.target ≡ true
    pub kind_text : IsKindText g m.kind
    pub includes_utf8 : All (IsEnvText g) (g.entries m.includes)
    pub includes_few : length (g.entries m.includes) ≤ 1024

  -- The same mount, as far as its class, properties and target go and what its table holds.
  pub record IsSameMount (m n : Mount g) : Type 0 where
    pub same_kind : n.kind ≡ m.kind
    pub same_target : n.target ≡ m.target
    pub same_includes : (k : Bytes) → g.lookup k n.includes ≡ g.lookup k m.includes

  pub mount_absent : from_view mount_void ≡ absent
  unfolding mount_from
  mount_absent = refl

  add_includes-insert_all :
      (es : List (Bytes × Bytes)) (m : Mount g)
      → add_includes g es m ≡ record m { includes = insert_all g es m.includes }
  unfolding add_includes
  add_includes-insert_all [] m = refl
  add_includes-insert_all ((dst, src) ∷ es) m = add_includes-insert_all es _

  module _ (laws : IsKeyFile g) (tables : IsTable g) where
    pub mount_other :
        (i j : ℕ) (m : Mount g) (f : g.KeyFile)
        → i ≢ j
        → mount_view (save_config_mount g i m f) j ≡ mount_view f j
    mount_other i j m f other =
        ap₂ (λ (r : Reader) (is : ℕ → Reader). (r, is))
          (reader-save_config_mount laws (mount j) i m f (ground arith) (λ k. ground arith))
          (fun_ext (λ k.
            reader-save_config_mount laws (mount_include j k) i m f (ground arith)
              (λ l. ground arith)))

    reader-keys_saved :
        (b a : Group) (k : MountKind) (target : Bytes) (f : g.KeyFile)
        → a ≢ b
        → reader g b (keys_saved g a k target f) ≡ reader g b f
    reader-keys_saved b a k target f other =
        reader-save_kind laws b k _ other
        ∙ reader-set_raw_other laws a b _ _ _ other
        ∙ reader-set_raw_other laws a b _ _ _ other

    includes_saved :
        (i : ℕ) (es : List (Bytes × Bytes)) (f : g.KeyFile)
        → ((j : ℕ) → reader g (mount_include i j) f ≡ nothing)
        → All (IsEnvText g) es
        → length es ≤ 1024
        → load_while
            (λ j.
              include_from g (reader g (mount_include i j) (save_each (save_include g i) 0 es f)))
            1024
            0
            []
          ≡ found es
    includes_saved i es f fresh texts few =
        let view = λ (f' : g.KeyFile) (j : ℕ). reader g (mount_include i j) f' in
        let (m, same, loop) =
          load_while-save_each (save_include g i) view nothing (include_from g) (IsEnvText g) ◌≡◌
            (λ j k e f' other. reader-save_include laws (mount_include i k) i j e f' (ground arith))
            (include_absent g) (λ j e f' fits _. (e, include_reads g laws i j e f' fits, refl)) 1024
            es (record { shows = λ k h. refl; unused = λ k h. fresh k }) texts few in
        loop [] ∙ ap found (sym (Pairwise-eq same))

    rebuilt :
        (m : Mount g)
        → IsSameMount m (add_includes g (g.entries m.includes) (mount_new g m.kind m.target))
    rebuilt m =
        subst (IsSameMount m)
          (sym (add_includes-insert_all (g.entries m.includes) (mount_new g m.kind m.target)))
          (record {
            same_kind = refl;
            same_target = refl;
            same_includes = lookup-rebuilt g tables m.includes;
          })

    pub mount_reads :
        (i : ℕ) (m : Mount g) (f : g.KeyFile)
        → IsMountText m
        → mount_view f i ≡ mount_void
        → (n : Mount g) × (from_view (mount_view (save_config_mount g i m f) i) ≡ found n)
          × IsSameMount m n
    unfolding save_config_mount
    mount_reads i m f t void =
        let es = g.entries m.includes in
        let f3 = keys_saved g (mount i) m.kind m.target f in
        let own : reader g (mount i) (save_each (save_include g i) 0 es f3)
            ≡ reader g (mount i) f3 =
          save_each_keeps (save_include g i) (reader g (mount i))
            (λ j e f'. reader-save_include laws (mount i) i j e f' (ground arith)) 0 es f3 in
        let loop =
          includes_saved i es f3
            (λ j.
              reader-keys_saved (mount_include i j) (mount i) m.kind m.target f (ground arith)
              ∙ ap (λ (v : MountView). v.1 j) void)
            t.includes_utf8 t.includes_few in
        let keys = mount_keys g laws (mount i) m.kind m.target f t.target_utf8 t.kind_text in
        (
          add_includes g es (mount_new g m.kind m.target),
          mount_from_found g _ _ m.kind m.target es
              (subst (λ r. IsMountKeys g r m.kind m.target) (sym own) keys) loop,
          rebuilt m,
        )

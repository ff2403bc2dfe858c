-- ===== src/Config/RoundTrip/Tables.antt =====
-- A table filled again with the entries that its iterator gives.
use libvirt_sandbox.Base.{
  ◌≡◌, refl, ◌∙◌, true, Option, none, some, List, [], ◌∷◌, Bytes, arith, Bool-cases, inl, inr,
}
use libvirt_sandbox.Config.External.{Glib, IsTable, assoc, once}
use libvirt_sandbox.Config.Text.{equal}
use libvirt_sandbox.Config.Text.Laws.{equal→eq}

abbrev pub or_old : Option Bytes → Option Bytes → Option Bytes
or_old (some v) old = some v
or_old none old = old

module _ (g : Glib) where
  abbrev pub insert_all : List (Bytes × Bytes) → g.Table → g.Table
  insert_all [] t = t
  insert_all ((k, v) ∷ es) t = insert_all es (g.insert k v t)

  module _ (laws : IsTable g) where
    lookup-insert_all :
        (es : List (Bytes × Bytes)) (t : g.Table) (k : Bytes)
        → once es ≡ true
        → g.lookup k (insert_all es t) ≡ or_old (assoc k es) (g.lookup k t)
    unfolding once assoc
    lookup-insert_all [] t k h = refl
    lookup-insert_all ((j, v) ∷ es) t k h = elim (Bool-cases (equal j k)) [
      | inl same ↦ ground (
        arith,
        lookup-insert_all es (g.insert j v t) k,
        laws.lookup-insert j k v t,
        equal→eq j k same,
      )
      | inr other ↦
          ground (arith, lookup-insert_all es (g.insert j v t) k, laws.lookup-insert j k v t)
    ]

    -- The new table has the entries of the old one.
    pub lookup-rebuilt :
        (t : g.Table) (k : Bytes) → g.lookup k (insert_all (g.entries t) g.table_new) ≡ g.lookup k t
    lookup-rebuilt t k =
        lookup-insert_all (g.entries t) g.table_new k (laws.once-entries t)
        ∙ ground (arith, laws.assoc-entries k t, laws.lookup-new k)

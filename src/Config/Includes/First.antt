-- ===== src/Config/Includes/First.antt =====
-- Which mount an include goes to.
use libvirt_sandbox.Base.{
  ◌≡◌, refl, ap, ◌∙◌, ◌≢◌, ◌⊎◌, inl, inr, none, some, List, [], ◌∷◌, ◌++◌, Bytes, Option-cases,
  arith,
}
use libvirt_sandbox.Result.{ok, err, no_mount_with_prefix}
use libvirt_sandbox.Config.{Config, Mount}
use libvirt_sandbox.Config.External.{Glib}
use libvirt_sandbox.Config.Includes.{add_include, include_into, include_at}
use libvirt_sandbox.Config.Text.{strip_prefix}
use libvirt_sandbox.Config.Text.Laws.{strip_prefix-append, strip_prefix-some}

module _ (g : Glib) (guest host : Bytes) where
  -- No target of the mounts is a prefix of the path.
  abbrev pub Misses : List (Mount g) → Type 0
  Misses [] = Unit
  Misses (m ∷ ms) = ((rel : Bytes) → guest ≢ m.target ++ rel) × Misses ms

  pub record IsFirst (ms new : List (Mount g)) : Type 0 where
    pub ahead : List (Mount g)
    pub mount : Mount g
    pub behind : List (Mount g)
    pub rel : Bytes
    pub split : ms ≡ ahead ++ (mount ∷ behind)
    pub missed : Misses ahead
    pub under : guest ≡ mount.target ++ rel
    pub changed : new ≡ ahead ++ (add_include g host rel mount ∷ behind)

  misses_one :
      (m : Mount g) → strip_prefix m.target guest ≡ none → (rel : Bytes) → guest ≢ m.target ++ rel
  misses_one m e rel same =
      let found = ap (strip_prefix m.target) same ∙ strip_prefix-append m.target rel in
      ground (arith, e, found)

  abbrev Outcome : List (Mount g) → Type 0
  Outcome ms =
      ((include_into g guest host ms ≡ none) × Misses ms)
      ⊎ ((new : List (Mount g)) × (include_into g guest host ms ≡ some new) × IsFirst ms new)

  further :
      (m : Mount g) (ms : List (Mount g))
      → strip_prefix m.target guest ≡ none
      → Outcome ms
      → Outcome (m ∷ ms)
  unfolding include_into
  further m ms e (inl (stuck, miss)) =
      inl (rw (e, stuck, include_into) refl, (misses_one m e, miss))
  further m ms e (inr (new, found, f)) = inr (
    m ∷ new,
    rw (e, found, include_into) refl,
    record {
      ahead = m ∷ f.ahead;
      mount = f.mount;
      behind = f.behind;
      rel = f.rel;
      split = ap (◌∷◌ m) f.split;
      missed = (misses_one m e, f.missed);
      under = f.under;
      changed = ap (◌∷◌ m) f.changed;
    },
  )

  include_into-cases : (ms : List (Mount g)) → Outcome ms
  unfolding include_into
  include_into-cases [] = inl (refl, tt)
  include_into-cases (m ∷ ms) = elim (Option-cases (strip_prefix m.target guest)) [
    | inl e ↦ further m ms e (include_into-cases ms)
    | inr (rel, e) ↦ inr (
      add_include g host rel m ∷ ms,
      rw (e, include_into) refl,
      record {
        ahead = [];
        mount = m;
        behind = ms;
        rel = rel;
        split = refl;
        missed = tt;
        under = strip_prefix-some m.target guest e;
        changed = refl;
      },
    )
  ]

  -- The include of a host's file under a guest's path is refused, with nothing changed, if no
  -- target of a mount is a prefix of the path. Otherwise it is added to the first mount whose target
  -- is one, under what is left of the path, and nothing else is changed.
  pub include_at-IsFirst :
      (c : Config g)
      → ((include_at g (guest, host) c ≡ err (no_mount_with_prefix guest) c) × Misses c.mounts)
        ⊎ ((new : List (Mount g)) × (include_at g (guest, host) c ≡ ok (record c { mounts = new }))
            × IsFirst c.mounts new)
  unfolding include_at
  include_at-IsFirst c = elim (include_into-cases c.mounts) [
    | inl (e, miss) ↦ inl (rw (e, include_at) refl, miss)
    | inr (new, e, f) ↦ inr (new, rw (e, include_at) refl, f)
  ]

-- ===== src/Boot/Entries.antt =====
-- The lines of mounts.cfg, and the entries that libvirt-sandbox-builder-machine.c makes of mounts.
use libvirt_sandbox.Base.{
  ℕ, zero, suc, ◌+◌, ◌/◌, ◌%◌, ◌<◌, ◌≤◌, ◌≡◌, refl, ap, some, List, [], ◌∷◌, ◌++◌, map, Bytes,
  length, arith, length-append, Bool-cases, inl, inr, ltb,
}
use libvirt_sandbox.Boot.{parse_entry, after_cut}
use libvirt_sandbox.Boot.Lines.{AreLines, IsLine, append-Lacks}
use libvirt_sandbox.Config.{Mount, MountKind, host_bind, host_image, guest_bind, ram}
use libvirt_sandbox.Config.External.{Glib}
use libvirt_sandbox.Config.Text.{codes, digits, print}
use libvirt_sandbox.Config.Text.Laws.{Lacks, cut-append}
use libvirt_sandbox.Machine.{Entry, entry_line, mount_entries, virtio_name, bind_name}
use mathlib.Core.List.{append_assoc}

-- A text that ends neither its field nor its line.
abbrev pub IsField : Bytes → Type 0
IsField s = Lacks b'\t' s × Lacks b'\n' s

pub record IsEntry (e : Entry) : Type 0 where
  pub source : IsField e.source
  pub target : IsField e.target
  pub type : IsField e.type
  pub opts : IsField e.opts

pub parse_entry-entry_line : (e : Entry) → IsEntry e → parse_entry (entry_line e) ≡ some e
unfolding parse_entry entry_line
parse_entry-entry_line e h =
    rw
      (
        cut-append b'\t' e.source
            (e.target ++ (b'\t' ∷ (e.type ++ (b'\t' ∷ (e.opts ++ (b'\n' ∷ [])))))) h.source.0,
        after_cut,
        cut-append b'\t' e.target (e.type ++ (b'\t' ∷ (e.opts ++ (b'\n' ∷ [])))) h.target.0,
        after_cut,
        cut-append b'\t' e.type (e.opts ++ (b'\n' ∷ [])) h.type.0,
        after_cut,
        cut-append b'\n' e.opts [] h.opts.1,
        after_cut,
      )
      refl

entry_line-IsLine : (e : Entry) → IsEntry e → length (entry_line e) < 1024 → IsLine (entry_line e)
unfolding entry_line
entry_line-IsLine e h few =
    let body = e.source ++ (b'\t' ∷ (e.target ++ (b'\t' ∷ (e.type ++ (b'\t' ∷ e.opts))))) in
    let ended : entry_line e ≡ body ++ (b'\n' ∷ []) = ground (
      arith,
      append_assoc e.source (b'\t' ∷ (e.target ++ (b'\t' ∷ (e.type ++ (b'\t' ∷ e.opts)))))
          (b'\n' ∷ []),
      append_assoc e.target (b'\t' ∷ (e.type ++ (b'\t' ∷ e.opts))) (b'\n' ∷ []),
      append_assoc e.type (b'\t' ∷ e.opts) (b'\n' ∷ []),
    ) in
    record {
      body = body;
      ended = ended;
      no_newline =
          append-Lacks b'\n' e.source (b'\t' ∷ (e.target ++ (b'\t' ∷ (e.type ++ (b'\t' ∷ e.opts)))))
            h.source.1
            (
              ground arith,
              append-Lacks b'\n' e.target (b'\t' ∷ (e.type ++ (b'\t' ∷ e.opts))) h.target.1 (
                ground arith,
                append-Lacks b'\n' e.type (b'\t' ∷ e.opts) h.type.1 (ground arith, h.opts.1),
              ),
            );
      fits = ground (arith, ended, few, ap length ended, length-append body (b'\n' ∷ []));
    }

digits-Lacks : (b fuel n : ℕ) (out : Bytes) → b < 48 → Lacks b out → Lacks b (digits fuel n out)
unfolding digits
digits-Lacks b zero n out few h = h
digits-Lacks b (suc fuel) n out few h = elim (Bool-cases (ltb n 10)) [
  | inl small ↦ rw small (ground arith, h)
  | inr large ↦
      rw large (digits-Lacks b fuel (n / 10) ((b'0' + n % 10) ∷ out) few (ground arith, h))
]

print-IsField : (n : ℕ) (out : Bytes) → IsField out → IsField (print n out)
unfolding print
print-IsField n out h = (
  digits-Lacks b'\t' (suc n) n out (ground arith) h.0,
  digits-Lacks b'\n' (suc n) n out (ground arith) h.1,
)

abbrev pub AreEntries : List Entry → Type 0
AreEntries [] = Unit
AreEntries (e ∷ es) = IsEntry e × AreEntries es

-- Each line fits the buffer of 1024 bytes with its NUL.
abbrev pub AreShort : List Entry → Type 0
AreShort [] = Unit
AreShort (e ∷ es) = (length (entry_line e) < 1024) × AreShort es

abbrev KindHasFields : MountKind → Type 0
KindHasFields (host_bind source) = Unit
KindHasFields (host_image source format) = Unit
KindHasFields (guest_bind source) = IsField source
KindHasFields (ram usage) = Unit

virtio_name-IsField : (n : ℕ) → n < 26 → IsField (codes "/dev/" ++ virtio_name n)
unfolding virtio_name
virtio_name-IsField n h = (ground arith, ground arith)

bind_name-IsField : (n : ℕ) → IsField (bind_name n)
unfolding bind_name
bind_name-IsField n =
    let (tabs, newlines) = print-IsField n [] (tt, tt) in
    (
      append-Lacks b'\t' (codes "sandbox:mount") (print n []) (ground arith) tabs,
      append-Lacks b'\n' (codes "sandbox:mount") (print n []) (ground arith) newlines,
    )

size-IsField : (usage : ℕ) → IsField (codes "size=" ++ print (usage / 1024) (codes "k"))
size-IsField usage =
    let (tabs, newlines) = print-IsField (usage / 1024) (codes "k") (ground arith, ground arith) in
    (
      append-Lacks b'\t' (codes "size=") (print (usage / 1024) (codes "k")) (ground arith) tabs,
      append-Lacks b'\n' (codes "size=") (print (usage / 1024) (codes "k")) (ground arith) newlines,
    )

pub entry_lines-AreLines :
    (es : List Entry) → AreEntries es → AreShort es → AreLines (map entry_line es)
entry_lines-AreLines [] h few = tt
entry_lines-AreLines (e ∷ es) h few =
    (entry_line-IsLine e h.0 few.0, entry_lines-AreLines es h.1 few.1)

module _ (g : Glib) where
  abbrev pub AreFields : List (Mount g) → Type 0
  AreFields [] = Unit
  AreFields (m ∷ ms) = IsField m.target × (KindHasFields m.kind × AreFields ms)

  pub mount_entries-AreEntries :
      (bind dev : ℕ) (ms : List (Mount g))
      → dev + length ms ≤ 26
      → AreFields ms
      → AreEntries (mount_entries g bind dev ms)
  unfolding mount_entries
  mount_entries-AreEntries bind dev [] few h = tt
  mount_entries-AreEntries bind dev (m ∷ ms) few h =
      elim m.kind
          as (λ k.
            KindHasFields k → AreEntries (mount_entries g bind dev (record m { kind = k } ∷ ms))) [
              | host_bind source ↦ λ f. (
                record {
                  source = bind_name-IsField bind;
                  target = h.0;
                  type = (ground arith, ground arith);
                  opts = (ground arith, ground arith);
                },
                mount_entries-AreEntries (suc bind) dev ms (ground arith) h.1.1,
              )
              | host_image source format ↦ λ f. (
                record {
                  source = virtio_name-IsField dev (ground arith);
                  target = h.0;
                  type = (ground arith, ground arith);
                  opts = (tt, tt);
                },
                mount_entries-AreEntries bind (suc dev) ms (ground arith) h.1.1,
              )
              | guest_bind source ↦ λ f. (
                record { source = f; target = h.0; type = (tt, tt); opts = (tt, tt) },
                mount_entries-AreEntries bind dev ms (ground arith) h.1.1,
              )
              | ram usage ↦ λ f. (
                record {
                  source = (ground arith, ground arith);
                  target = h.0;
                  type = (ground arith, ground arith);
                  opts = size-IsField usage;
                },
                mount_entries-AreEntries bind dev ms (ground arith) h.1.1,
              )
            ]
        h.1.0

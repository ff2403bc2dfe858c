-- ===== src/Boot/Mounts.antt =====
-- What libvirt-sandbox-init-qemu.c does with the mounts.cfg of libvirt-sandbox-builder-machine.c.
use libvirt_sandbox.Base.{
  ℕ, suc, ◌+◌, ◌≤◌, ◌≡◌, refl, ap, ◌∙◌, Bool, true, false, ◌||◌, Option, List, [], ◌∷◌, ◌++◌, map,
  Bytes, length, Bool-cases, inl, inr, if◌then◌else◌,
}
use libvirt_sandbox.Boot.{
  Call, Root, root_entry, no_root, step_root, find_root, mount_all, entry_calls, mount_entry, lines,
}
use libvirt_sandbox.Boot.Lines.{lines-file_of}
use libvirt_sandbox.Config.{Config, Mount, host_bind, host_image, guest_bind, ram}
use libvirt_sandbox.Config.External.{Glib}
use libvirt_sandbox.Config.MountOptions.{has_root_mount, root_among}
use libvirt_sandbox.Config.Text.{codes, equal}
use libvirt_sandbox.Config.Text.Laws.{equal→eq}
use libvirt_sandbox.Machine.{Entry, entry_line, mount_entries, write_mount_cfg}
use libvirt_sandbox.Boot.Entries.{
  IsEntry, AreEntries, AreShort, AreFields, parse_entry-entry_line, entry_lines-AreLines,
  mount_entries-AreEntries,
}

-- The calls of main for the entries: those for `/` are left to mount_root.
pub calls_for : (Bytes → Option Bool) → List Entry → List Call
calls_for is_dir [] = []
calls_for is_dir (e ∷ es) =
    let rest = calls_for is_dir es in
    if equal e.target (codes "/") then rest else mount_entry is_dir e ++ rest

mount_all-entries :
    (is_dir : Bytes → Option Bool) (es : List Entry)
    → AreEntries es
    → mount_all is_dir (map entry_line es) ≡ calls_for is_dir es
unfolding mount_all calls_for
mount_all-entries is_dir [] h = refl
mount_all-entries is_dir (e ∷ es) h =
    ap (λ x. entry_calls is_dir x (mount_all is_dir (map entry_line es)))
      (parse_entry-entry_line e h.0)
    ∙ ap (λ x. if equal e.target (codes "/") then x else mount_entry is_dir e ++ x)
        (mount_all-entries is_dir es h.1)

-- The answer of has_root_mount and what the guest finds.
abbrev pub AgreeOnRoot : Bool → Root → Type 0
AgreeOnRoot true (root_entry e) = e.target ≡ codes "/"
AgreeOnRoot false no_root = Unit
AgreeOnRoot _ _ = ⊥

root_step :
    (e : Entry) (es : List Entry) (b : Bool)
    → IsEntry e
    → AgreeOnRoot b (find_root (map entry_line es))
    → AgreeOnRoot (equal e.target (codes "/") || b) (find_root (map entry_line (e ∷ es)))
unfolding find_root
root_step e es b h rest =
    rw (parse_entry-entry_line e h, step_root)
      elim (Bool-cases (equal e.target (codes "/"))) [
        | inl same ↦ rw same (equal→eq e.target (codes "/") same)
        | inr other ↦ rw other rest
      ]

module _ (g : Glib) where
  find_root-entries :
      (bind dev : ℕ) (ms : List (Mount g))
      → AreEntries (mount_entries g bind dev ms)
      → AgreeOnRoot (root_among g ms) (find_root (map entry_line (mount_entries g bind dev ms)))
  unfolding find_root root_among mount_entries
  find_root-entries bind dev [] h = tt
  find_root-entries bind dev (m ∷ ms) h =
      elim m.kind
          as (λ k.
            AreEntries (mount_entries g bind dev (record m { kind = k } ∷ ms))
            → AgreeOnRoot (equal m.target (codes "/") || root_among g ms) (
                find_root
                  (map entry_line (mount_entries g bind dev (record m { kind = k } ∷ ms))))) [
                    | host_bind source ↦ λ h.
                        root_step _ (mount_entries g (suc bind) dev ms) (root_among g ms) h.0
                          (find_root-entries (suc bind) dev ms h.1)
                    | host_image source format ↦ λ h.
                        root_step _ (mount_entries g bind (suc dev) ms) (root_among g ms) h.0
                          (find_root-entries bind (suc dev) ms h.1)
                    | guest_bind source ↦ λ h.
                        root_step _ (mount_entries g bind dev ms) (root_among g ms) h.0
                          (find_root-entries bind dev ms h.1)
                    | ram usage ↦ λ h.
                        root_step _ (mount_entries g bind dev ms) (root_among g ms) h.0
                          (find_root-entries bind dev ms h.1)
                  ]
        h

  pub lines-write_mount_cfg :
      (c : Config g)
      → AreEntries (mount_entries g 0 (length c.disks) c.mounts)
      → AreShort (mount_entries g 0 (length c.disks) c.mounts)
      → lines (write_mount_cfg g c) ≡ map entry_line (mount_entries g 0 (length c.disks) c.mounts)
  unfolding write_mount_cfg
  lines-write_mount_cfg c h short =
      let es = mount_entries g 0 (length c.disks) c.mounts in
      lines-file_of (map entry_line es) (entry_lines-AreLines es h short)

  -- For a configuration with at most 26 disks and mounts together, whose targets and guest-bind
  -- sources have neither a tab nor a newline, and whose lines of mounts.cfg are shorter than 1024
  -- bytes: the loop of main in the guest reads back from the file that the builder writes exactly
  -- the builder's entries, and makes the calls of mount_entry for each but those for `/`, in the
  -- order of the mounts.
  pub mount_all-write_mount_cfg :
      (is_dir : Bytes → Option Bool) (c : Config g)
      → length c.disks + length c.mounts ≤ 26
      → AreFields g c.mounts
      → AreShort (mount_entries g 0 (length c.disks) c.mounts)
      → mount_all is_dir (lines (write_mount_cfg g c))
        ≡ calls_for is_dir (mount_entries g 0 (length c.disks) c.mounts)
  mount_all-write_mount_cfg is_dir c few fields short =
      let h = mount_entries-AreEntries g 0 (length c.disks) c.mounts few fields in
      ap (mount_all is_dir) (lines-write_mount_cfg c h short)
      ∙ mount_all-entries is_dir (mount_entries g 0 (length c.disks) c.mounts) h

  -- For a configuration with at most 26 disks and mounts together, whose targets and guest-
  -- bind sources have neither a tab nor a newline, and whose lines of mounts.cfg are shorter
  -- than 1024 bytes: the search of mount_root in the guest agrees with has_root_mount on the
  -- host, by which the builder leaves out the device sandbox:root. Where it is true the guest
  -- finds an entry for `/`, where it is false it finds none, and in neither case does a line
  -- break the search.
  pub find_root-has_root_mount :
      (c : Config g)
      → length c.disks + length c.mounts ≤ 26
      → AreFields g c.mounts
      → AreShort (mount_entries g 0 (length c.disks) c.mounts)
      → AgreeOnRoot (has_root_mount g c) (find_root (lines (write_mount_cfg g c)))
  unfolding has_root_mount
  find_root-has_root_mount c few fields short =
      let h = mount_entries-AreEntries g 0 (length c.disks) c.mounts few fields in
      rw (lines-write_mount_cfg c h short) (find_root-entries 0 (length c.disks) c.mounts h)

-- ===== src/Config/RoundTrip/Disks.antt =====
-- Disks.
use libvirt_sandbox.Base.{ℕ, ◌≡◌, refl, true, some, Bytes, arith, if◌then◌else◌}
use libvirt_sandbox.Config.{Disk}
use libvirt_sandbox.Config.External.{Glib, value, in_group, IsKeyFile}
use libvirt_sandbox.Config.Groups.{disk}
use libvirt_sandbox.Config.KeyFile.{Reader, reader, string_in}
use libvirt_sandbox.Config.KeyFile.Frame.{reader-set_raw, string_own}
use libvirt_sandbox.Config.Load.{found, absent, disk_from}
use libvirt_sandbox.Config.RoundTrip.Envs.{nothing}
use libvirt_sandbox.Config.Save.{save_config_disk}
use libvirt_sandbox.Config.Text.{codes, equal}

module _ (g : Glib) where
  -- The texts of the disk are UTF-8, and its enumerations are read back from their nicks.
  pub record IsDiskText (d : Disk) : Type 0 where
    pub tag_utf8 : g.is_utf8 d.tag ≡ true
    pub source_utf8 : g.is_utf8 d.source ≡ true
    pub type_utf8 : g.is_utf8 (g.disk_type_nick d.type) ≡ true
    pub format_utf8 : g.is_utf8 (g.disk_format_nick d.format) ≡ true
    pub type_known : g.disk_type (g.disk_type_nick d.type) ≡ some d.type
    pub format_known : g.disk_format (g.disk_format_nick d.format) ≡ some d.format

  disk_from_found :
      (r : Reader) (d : Disk)
      → IsDiskText d
      → string_in g r (codes "tag") ≡ value d.tag
      → string_in g r (codes "source") ≡ value d.source
      → string_in g r (codes "type") ≡ value (g.disk_type_nick d.type)
      → string_in g r (codes "format") ≡ value (g.disk_format_nick d.format)
      → disk_from g r ≡ found d
  unfolding disk_from
  disk_from_found r d t e1 e2 e3 e4 = ground (arith, e1, e2, e3, e4)

  pub disk_absent : disk_from g nothing ≡ absent
  unfolding disk_from
  disk_absent = refl

  module _ (laws : IsKeyFile g) where
    disk_shows :
        (i : ℕ) (d : Disk) (f : g.KeyFile) (key : Bytes)
        → reader g (disk i) (save_config_disk g i d f) key ≡ (
            if equal (codes "format") key
            then value (g.of_string (g.disk_format_nick d.format))
            else in_group (
                if equal (codes "tag") key
                then value (g.of_string d.tag)
                else in_group (
                    if equal (codes "source") key
                    then value (g.of_string d.source)
                    else in_group (
                        if equal (codes "type") key
                        then value (g.of_string (g.disk_type_nick d.type))
                        else in_group (reader g (disk i) f key)))))
    unfolding save_config_disk
    disk_shows i d f key = simp (reader-set_raw laws)

    pub disk_reads :
        (i : ℕ) (d : Disk) (f : g.KeyFile)
        → IsDiskText d
        → disk_from g (reader g (disk i) (save_config_disk g i d f)) ≡ found d
    unfolding equal
    disk_reads i d f t =
        let r = reader g (disk i) (save_config_disk g i d f) in
        let at = disk_shows i d f in
        disk_from_found r d t (string_own laws r (codes "tag") d.tag t.tag_utf8 (at (codes "tag")))
          (string_own laws r (codes "source") d.source t.source_utf8 (at (codes "source")))
          (string_own laws r (codes "type") (g.disk_type_nick d.type) t.type_utf8
            (at (codes "type")))
          (string_own laws r (codes "format") (g.disk_format_nick d.format) t.format_utf8
            (at (codes "format")))

-- ===== src/Config/DiskOptions/Format.antt =====
-- Disk options in the documented form, and the length of the text behind the comma.
use libvirt_sandbox.Base.{ℕ, ◌≡◌, refl, ◌∙◌, some, [], ◌∷◌, ◌++◌, Bytes, arith, ◌==◌, true}
use libvirt_sandbox.Result.{ok}
use libvirt_sandbox.Config.{Config}
use libvirt_sandbox.Config.DiskOptions.{
  disk_with_format, disk_source, disk_of_type, add_disk_opts, add_disk,
}
use libvirt_sandbox.Config.External.{Glib}
use libvirt_sandbox.Config.Text.{codes, strip_prefix, cut}
use libvirt_sandbox.Config.Text.Laws.{Lacks, cut-append, strip_prefix-append}

-- The text TYPE:TAG=SOURCE.
abbrev pub disk_text : Bytes → Bytes → Bytes → Bytes
disk_text nick tag source = nick ++ (b':' ∷ (tag ++ (b'=' ∷ source)))

==_refl : (n : ℕ) → (n == n) ≡ true
==_refl n = ground arith

module _ (g : Glib) where
  -- Up to the source, which may go on with a format.
  known_type :
      (whole s tag source : Bytes) (c : Config g)
      → cut b'=' s ≡ some (tag, source)
      → disk_of_type g whole (some g.disk_file) s c ≡ disk_source g tag source c
  unfolding disk_of_type
  known_type whole s tag source c e = rw (==_refl g.disk_file, e, disk_of_type) refl

  -- Up to the source, which may go on with a format.
  add_disk_opts-disk_source :
      (nick tag source : Bytes) (c : Config g)
      → Lacks b':' nick
      → Lacks b'=' tag
      → g.disk_type nick ≡ some g.disk_file
      → add_disk_opts g (disk_text nick tag source) c ≡ disk_source g tag source c
  unfolding add_disk_opts
  add_disk_opts-disk_source nick tag source c hn ht known =
      rw (cut-append b':' nick (tag ++ (b'=' ∷ source)) hn, add_disk_opts, known)
        (known_type (disk_text nick tag source) (tag ++ (b'=' ∷ source)) tag source c
          (cut-append b'=' tag source ht))

  with_text :
      (tag path text : Bytes) (c : Config g)
      → Lacks b',' path
      → disk_source g tag (path ++ (b',' ∷ text)) c ≡ disk_with_format g tag path text c
  unfolding disk_source
  with_text tag path text c h = rw (cut-append b',' path text h, disk_source) refl

  known_format :
      (tag path text nick : Bytes) (n : ℕ) (c : Config g)
      → strip_prefix (codes "format=") text ≡ some nick
      → g.disk_format nick ≡ some n
      → disk_with_format g tag path text c
        ≡ ok (add_disk g (record { type = g.disk_file; tag = tag; source = path; format = n }) c)
  unfolding disk_with_format
  known_format tag path text nick n c e e' = rw (e, e', disk_with_format) refl

  module _ (nick tag path : Bytes) (c : Config g) (hn : Lacks b':' nick) (ht : Lacks b'=' tag)
      (hp : Lacks b',' path) (known : g.disk_type nick ≡ some g.disk_file) where
    -- TYPE:TAG=SOURCE,format=FORMAT, of the type of files and a format that is known, adds the disk
    -- with these parts behind the others, if the type has no `:`, the tag no `=` and the source no
    -- `,`.
    pub add_disk_opts_reads_back :
        (format : Bytes) (n : ℕ)
        → g.disk_format format ≡ some n
        → add_disk_opts g (disk_text nick tag (path ++ (b',' ∷ (codes "format=" ++ format)))) c
          ≡ ok (record c {
            disks =
                c.disks
                ++ (record { type = g.disk_file; tag = tag; source = path; format = n } ∷ []);
          })
    add_disk_opts_reads_back format n e =
        add_disk_opts-disk_source nick tag (path ++ (b',' ∷ (codes "format=" ++ format))) c hn ht
          known
        ∙ with_text tag path (codes "format=" ++ format) c hp
        ∙ known_format tag path (codes "format=" ++ format) format n c
            (strip_prefix-append (codes "format=") format) e

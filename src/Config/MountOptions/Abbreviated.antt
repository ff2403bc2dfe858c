-- ===== src/Config/MountOptions/Abbreviated.antt =====
-- The types of mounts by their names, and by what the names begin with.
use libvirt_sandbox.Base.{
  ℕ, ◌≡◌, refl, ap, sym, ◌∙◌, ◌⊎◌, inl, inr, arith, Option-cases, Bool, true, false, ◌&&◌, ◌==◌,
  Option, none, some, [], ◌∷◌, ◌++◌, Bytes, length, if◌then◌else◌,
}
use libvirt_sandbox.Result.{Result, ok, err, unknown_image_format}
use libvirt_sandbox.Config.{Config, MountKind, host_bind, host_image, guest_bind, ram}
use libvirt_sandbox.Config.DiskOptions.{guess_image_format, or_raw}
use libvirt_sandbox.Config.External.{Glib}
use libvirt_sandbox.Config.MountOptions.{
  MountType, bind_type, image_type, guest_type, ram_type, mount_type, mount_of_type, add_typed,
  add_image, image_format, scaled, add_mount_opts,
}
use libvirt_sandbox.Config.Text.{codes, same_start, cut, strip_prefix, strtol, extend}
use libvirt_sandbox.Config.Text.Laws.{Lacks, cut-append, strip_prefix-some}

-- The text TYPE:TARGET=SOURCE.
abbrev pub mount_text : Bytes → Bytes → Bytes → Bytes
mount_text name target source = name ++ (b':' ∷ (target ++ (b'=' ∷ source)))

pub is_prefix : Bytes → Bytes → Bool
is_prefix [] s = true
is_prefix (c ∷ p) [] = false
is_prefix (c ∷ p) (d ∷ s) = c == d && is_prefix p s

-- The first of the four names that begins with the text.
pub named : Bytes → Option MountType
unfolding is_prefix
named s =
    if is_prefix s (codes "host-bind")
    then some bind_type
    else if is_prefix s (codes "host-image")
    then some image_type
    else if is_prefix s (codes "guest-bind")
    then some guest_type
    else if is_prefix s (codes "ram")
    then some ram_type
    else none

-- strncmp up to the colon passes exactly the prefixes.
same_start-is_prefix :
    (pre rest name : Bytes) → same_start (length pre) (pre ++ rest) name ≡ is_prefix pre name
unfolding same_start is_prefix
same_start-is_prefix [] rest name = refl
same_start-is_prefix (c ∷ pre) rest [] = refl
same_start-is_prefix (c ∷ pre) rest (d ∷ name) = rw (same_start-is_prefix pre rest name) refl

mount_type-named : (pre rest : Bytes) → mount_type (length pre) (pre ++ rest) ≡ named pre
unfolding mount_type named
mount_type-named pre rest =
    rw
      (
        same_start-is_prefix pre rest (codes "host-bind"),
        same_start-is_prefix pre rest (codes "host-image"),
        same_start-is_prefix pre rest (codes "guest-bind"),
        same_start-is_prefix pre rest (codes "ram"),
      )
      refl

pub ahead_of_comma : Bytes → Bytes
ahead_of_comma [] = []
ahead_of_comma (c ∷ s) = let rest = c ∷ ahead_of_comma s in if c == b',' then [] else rest

ahead_of_comma_lacking : (s : Bytes) → cut b',' s ≡ none → ahead_of_comma s ≡ s
unfolding ahead_of_comma cut
ahead_of_comma_lacking [] e = refl
ahead_of_comma_lacking (c ∷ s) e = elim (Option-cases (cut b',' s)) [
  | inl k ↦ ground (arith, e, k, ahead_of_comma_lacking s k)
  | inr (p, k) ↦ ground (arith, e, k)
]

ahead_of_comma-cut :
    (s a b : Bytes) → cut b',' s ≡ some (a, b) → (ahead_of_comma s ≡ a) × (s ≡ a ++ (b',' ∷ b))
unfolding ahead_of_comma cut
ahead_of_comma-cut [] a b e = ground (arith, e)
ahead_of_comma-cut (c ∷ s) a b e = elim (Option-cases (cut b',' s)) [
  | inl k ↦ ground (arith, e, k)
  | inr ((a', b'), k) ↦ ground (arith, e, k, ahead_of_comma-cut s a' b' k)
]

pub named_empty : named [] ≡ some bind_type
unfolding named is_prefix
named_empty = refl

pub ram_named : named (codes "ram") ≡ some ram_type
unfolding named is_prefix
ram_named = refl

module _ (g : Glib) where
  found_type :
      (whole rest target source : Bytes) (o : Option MountType) (t : MountType) (c : Config g)
      → o ≡ some t
      → cut b'=' rest ≡ some (target, source)
      → mount_of_type g whole rest o c ≡ add_typed g t target source c
  unfolding mount_of_type
  found_type whole rest target source o t c e e' = rw (e, e', mount_of_type) refl

  -- The configuration with one more mount, behind the others, which has no includes.
  abbrev pub with_mount : MountKind → Bytes → Config g → Config g
  with_mount kind target c = record c {
    mounts = c.mounts ++ (record { kind = kind; target = target; includes = g.table_new } ∷ []);
  }

  -- A mount with the image that the path names, or the error about a format behind the comma that
  -- is unknown.
  abbrev ImageAdded : Bytes → Bytes → Config g → Result (Config g) → Type 0
  ImageAdded target source c r =
      ((format : ℕ) × (r ≡ ok (with_mount (host_image (ahead_of_comma source) format) target c)))
      ⊎ ((nick : Bytes) × ((source ≡ ahead_of_comma source ++ (b',' ∷ (codes "format=" ++ nick)))
            × ((g.disk_format nick ≡ none) × (r ≡ err (unknown_image_format nick) c))))

  abbrev pub IsAdded : MountType → Bytes → Bytes → Config g → Result (Config g) → Type 0
  IsAdded bind_type target source c r = r ≡ ok (with_mount (host_bind source) target c)
  IsAdded guest_type target source c r = r ≡ ok (with_mount (guest_bind source) target c)
  IsAdded image_type target source c r = ImageAdded target source c r
  IsAdded ram_type target source c r = (usage : ℕ) × (r ≡ ok (with_mount (ram usage) target c))

  image_format-ImageAdded :
      (target path text source : Bytes) (c : Config g)
      → ahead_of_comma source ≡ path
      → source ≡ path ++ (b',' ∷ text)
      → let add = λ (n : ℕ). ok (with_mount (host_image path n) target c) in
        ImageAdded target source c (image_format g text c (add g.disk_raw) add)
  unfolding image_format
  image_format-ImageAdded target path text source c ahead whole =
      let added = λ (n : ℕ). ap (λ s. ok (with_mount (host_image s n) target c)) (sym ahead) in
      elim (Option-cases (strip_prefix (codes "format=") text)) [
        | inl e ↦ rw (e, image_format) (inl (g.disk_raw, added g.disk_raw))
        | inr (nick, e) ↦ elim (Option-cases (g.disk_format nick)) [
          | inr (n, k) ↦ rw (e, image_format, k) (inl (n, added n))
          | inl k ↦
              let text_is = strip_prefix-some (codes "format=") text e in
              let named_so : source ≡ ahead_of_comma source ++ (b',' ∷ (codes "format=" ++ nick)) =
                whole
                ∙ ap (λ s. path ++ (b',' ∷ s)) text_is
                ∙ ap (λ s. s ++ (b',' ∷ (codes "format=" ++ nick))) (sym ahead) in
              rw (e, image_format, k) (inr (nick, (named_so, (k, refl))))
        ]
      ]

  add_image-ImageAdded :
      (target source : Bytes) (c : Config g)
      → ImageAdded target source c (add_image g target source c)
  unfolding add_image
  add_image-ImageAdded target source c = elim (Option-cases (cut b',' source)) [
    | inl e ↦
        let format = or_raw g (guess_image_format g source) in
        rw (e, add_image)
          (inl (
            format,
            ap (λ s. ok (with_mount (host_image s format) target c))
                (sym (ahead_of_comma_lacking source e)),
          ))
    | inr ((path, text), e) ↦
        let (ahead, whole) = ahead_of_comma-cut source path text e in
        rw (e, add_image) (image_format-ImageAdded target path text source c ahead whole)
  ]

  add_typed-IsAdded :
      (t : MountType) (target source : Bytes) (c : Config g)
      → IsAdded t target source c (add_typed g t target source c)
  unfolding add_typed
  add_typed-IsAdded bind_type target source c = refl
  add_typed-IsAdded image_type target source c = add_image-ImageAdded target source c
  add_typed-IsAdded guest_type target source c = refl
  add_typed-IsAdded ram_type target source c = (extend (scaled (strtol source)), refl)

  pub add_mount_opts-add_typed :
      (name target source : Bytes) (t : MountType) (c : Config g)
      → Lacks b':' name
      → Lacks b'=' target
      → named name ≡ some t
      → add_mount_opts g (mount_text name target source) c ≡ add_typed g t target source c
  unfolding add_mount_opts
  add_mount_opts-add_typed name target source t c hn ht e =
      let rest = target ++ (b'=' ∷ source) in
      rw (cut-append b':' name rest hn, add_mount_opts)
        (found_type (mount_text name target source) rest target source _ t c
          (mount_type-named name (b':' ∷ rest) ∙ e) (cut-append b'=' target source ht))

  -- A text NAME:TARGET=SOURCE, where the name has no `:` and the target no `=`, is taken as the first
  -- type whose name begins with NAME: an abbreviation is enough, also one that two names share and
  -- the empty one. It adds a mount at TARGET behind the others and changes nothing else: for
  -- host-bind and guest-bind of the directory SOURCE, for ram one with a size, and for host-image the
  -- image at SOURCE up to its first comma, or the call fails because SOURCE ends in
  -- `,format=FORMAT` with an unknown FORMAT.
  pub add_mount_opts_abbreviated :
      (name target source : Bytes) (t : MountType) (c : Config g)
      → Lacks b':' name
      → Lacks b'=' target
      → named name ≡ some t
      → IsAdded t target source c (add_mount_opts g (mount_text name target source) c)
  add_mount_opts_abbreviated name target source t c hn ht e =
      rw (add_mount_opts-add_typed name target source t c hn ht e)
        (add_typed-IsAdded t target source c)

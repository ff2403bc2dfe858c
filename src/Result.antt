-- ===== src/Result.antt =====
-- Results of the fallible functions: a gboolean with a GError and the object as the call leaves it.
use libvirt_sandbox.Base.{
  ◌∙◌, ℕ, ap, subst, arith, Bytes, List, [], ◌∷◌, ◌++◌, ◌≡◌, refl, ◌⊎◌, inl, inr,
}

-- One constructor for each `g_set_error`, with the values that its message prints.
pub data Error : Type 0 where
  -- libvirt-sandbox-rpcpacket.c
  decode_length_failed decode_header_failed decode_payload_failed : Error
  encode_length_failed encode_header_failed reencode_length_failed encode_payload_failed : Error
  too_small too_large : ℕ → Error
  raw_too_long : ℕ → ℕ → Error
  -- libvirt-sandbox-console-rpc.c
  unexpected_status unexpected_proc unexpected_rx unexpected_tx : ℕ → Error
  already_attached query_terminal_failed update_terminal_failed restore_terminal_failed : Error
  -- errors that the stream and the local files report
  open_console_failed stream_failed local_io_failed : Error
  -- libvirt-sandbox-init-common.c, where a failure is a `goto cleanup`
  unexpected_byte : ℕ → Error
  signal_pipe_failed pty_failed pty_owner_failed pipe_failed fork_failed : Error
  -- libvirt-sandbox-config.c
  dhcp_with_static addresses_with_dhcp routes_with_dhcp no_filter_assignment : Error
  routes_without_addresses selinux_context_failed read_failed : Error
  unable_to_parse_address missing_gateway unknown_parameter wrong_environment_format : Bytes → Error
  no_disk_type unknown_disk_type unimplemented_disk_type missing_disk_source : Bytes → Error
  unknown_image_format no_mount_type unknown_mount_type missing_mount_source : Bytes → Error
  no_mount_with_prefix unknown_security_option : Bytes → Error
  mount_target_missing mount_type_missing mount_usage_missing mount_source_missing : Error
  image_format_missing env_key_missing env_value_missing : Error
  disk_tag_missing disk_source_missing disk_type_missing disk_format_missing : Error
  mount_type_unknown image_format_unknown disk_type_unknown disk_format_unknown : Bytes → Error
  class_missing : Error
  class_unknown class_unrelated : Bytes → Error
  -- a GError of GKeyFile that is passed on
  key_file_failed : Error

-- `fault` is no result of the C code: an access outside the packet's buffer, outside a string or
-- through a null pointer was about to be made.
pub data Result {ℓ} (A : Type ℓ) : Type ℓ where
  ok : A → Result A
  err : Error → A → Result A
  fault : Result A

infixl 5 ◌>>=◌
abbrev pub ◌>>=◌ {ℓ} : {A : Type ℓ} → Result A → (A → Result A) → Result A
ok a >>= f = f a
err e a >>= f = err e a
fault >>= f = fault

-- A `while (items[i])` loop that ends at the first failure.
unfoldable pub each {ℓ κ} : {A : Type ℓ} {B : Type κ} → (B → A → Result A) → List B → A → Result A
each f [] a = ok a
each f (b ∷ bs) a = f b a >>= each f bs

-- The call did not touch memory outside the buffer, and what it leaves satisfies `P`.
abbrev pub Leaves {ℓ} : {A : Type ℓ} → (A → Type 0) → Result A → Type 0
Leaves P (ok a) = P a
Leaves P (err e a) = P a
Leaves P fault = ⊥

pub Leaves-cases {ℓ} :
    {A : Type ℓ} {P : A → Type 0} (r : Result A)
    → Leaves P r
    → ((a : A) × (r ≡ ok a) × P a) ⊎ ((e : Error) × (a : A) × (r ≡ err e a) × P a)
Leaves-cases (ok a) p = inl (a, refl, p)
Leaves-cases (err e a) p = inr (e, a, refl, p)
Leaves-cases fault p = absurd p

abbrev value_or {ℓ} : {A : Type ℓ} → A → Result A → A
value_or d (ok a) = a
value_or d _ = d

ok_inj {ℓ} : {A : Type ℓ} {a b : A} → ok a ≡ ok b → a ≡ b
ok_inj {a} e = ap (value_or a) e

pub bind-ok {ℓ} :
    {A : Type ℓ} {f : A → Result A} {z : A} (r : Result A)
    → (r >>= f) ≡ ok z
    → (y : A) × (r ≡ ok y) × (f y ≡ ok z)
bind-ok (ok a) e = (a, refl, e)
bind-ok (err x a) e = ground arith
bind-ok fault e = ground arith

-- What every round that succeeds keeps is kept by a loop that succeeds.
pub each-ok {ℓ κ} :
    {A : Type ℓ} {B : Type κ} (P : A → Type 0) (f : B → A → Result A)
    → ((b : B) (a z : A) → P a → f b a ≡ ok z → P z)
    → (bs : List B) (a : A) {z : A} → P a
    → each f bs a ≡ ok z
    → P z
unfolding each
each-ok P f step [] a p e = subst P (ok_inj e) p
each-ok P f step (b ∷ bs) a p e =
    let (y, e1, e2) = bind-ok (f b a) e in each-ok P f step bs y (step b a y p e1) e2

pub bind_eq {ℓ} :
    {A : Type ℓ} {r : Result A} {a : A} {z : Result A} (f : A → Result A)
    → r ≡ ok a
    → f a ≡ z
    → (r >>= f) ≡ z
bind_eq f e e' = ap (λ r. r >>= f) e ∙ e'

pub bind_step {ℓ} :
    {A : Type ℓ} (r : Result A) (f h k : A → Result A)
    → ((a : A) → h a ≡ (f a >>= k))
    → (r >>= h) ≡ (r >>= f >>= k)
bind_step (ok a) f h k e = e a
bind_step (err x a) f h k e = refl
bind_step fault f h k e = refl

pub each-append {ℓ κ} :
    {A : Type ℓ} {B : Type κ} (f : B → A → Result A) (bs more : List B) (a : A)
    → each f (bs ++ more) a ≡ (each f bs a >>= each f more)
unfolding each
each-append f [] more a = refl
each-append f (b ∷ bs) more a =
    bind_step (f b a) (each f bs) (each f (bs ++ more)) (each f more) (each-append f bs more)

-- ===== src/Buffer.antt =====
-- The memory of a packet, `char buffer[...]`, as a function from positions to bytes, with `memcpy`
-- into it and the bytes of a region of it.
use libvirt_sandbox.Base.{
  ℕ, zero, suc, ◌+◌, ◌≤◌, ◌<◌, ◌≡◌, refl, ap, ap₂, ◌∙◌, arith, [], ◌∷◌, ◌++◌, Bytes, length, ◌==◌,
  if◌then◌else◌,
}

abbrev pub Buffer : Type 0
Buffer = ℕ → ℕ

update : Buffer → ℕ → ℕ → Buffer
update b i v j = if j == i then v else b j

-- `memcpy(buffer + at, bytes, length bytes)`
unfoldable pub store : Buffer → ℕ → Bytes → Buffer
unfolding update
store b at [] = b
store b at (x ∷ xs) = store (update b at x) (at + 1) xs

-- The `n` bytes from `at` on.
unfoldable pub read_at : Buffer → ℕ → ℕ → Bytes
read_at b at zero = []
read_at b at (suc n) = b at ∷ read_at b (at + 1) n

pub length-read_at : (b : Buffer) (at n : ℕ) → length (read_at b at n) ≡ n
unfolding read_at
length-read_at b at zero = refl
length-read_at b at (suc n) = ap suc (length-read_at b (at + 1) n)

pub read_at_split :
    (b : Buffer) (at m n : ℕ) → read_at b at (m + n) ≡ read_at b at m ++ read_at b (at + m) n
unfolding read_at
read_at_split b at zero n =
    let e : at ≡ at + 0 = omega arith in let e' : 0 + n ≡ n = omega arith in ap₂ (read_at b) e e'
read_at_split b at (suc m) n =
    let e : suc m + n ≡ suc (m + n) = omega arith in
    let e' : at + 1 + m ≡ at + suc m = omega arith in
    rw e (
      ap (◌∷◌ (b at))
        (read_at_split b (at + 1) m n ∙ ap (λ k. read_at b (at + 1) m ++ read_at b k n) e'))

store_below : (b : Buffer) (at i : ℕ) (xs : Bytes) → i < at → store b at xs i ≡ b i
unfolding store
store_below b at i [] h = refl
store_below b at i (x ∷ xs) h =
    store_below (update b at x) (at + 1) i xs (omega arith) ∙ ground arith

store_above : (b : Buffer) (at i : ℕ) (xs : Bytes) → at + length xs ≤ i → store b at xs i ≡ b i
unfolding store
store_above b at i [] h = refl
store_above b at i (x ∷ xs) h =
    store_above (update b at x) (at + 1) i xs (omega arith) ∙ ground arith

-- What `memcpy` wrote is read back.
pub read_at-store_self :
    (b : Buffer) (at : ℕ) (xs : Bytes) → read_at (store b at xs) at (length xs) ≡ xs
unfolding read_at store
read_at-store_self b at [] = refl
read_at-store_self b at (x ∷ xs) =
    ap₂ ◌∷◌ (store_below (update b at x) (at + 1) at xs (omega arith) ∙ ground arith)
      (read_at-store_self (update b at x) (at + 1) xs)

-- A region before or behind the written one keeps its bytes.
pub read_at-store_before :
    (b : Buffer) (at : ℕ) (xs : Bytes) (from n : ℕ)
    → from + n ≤ at
    → read_at (store b at xs) from n ≡ read_at b from n
unfolding read_at
read_at-store_before b at xs from zero h = refl
read_at-store_before b at xs from (suc n) h =
    ap₂ ◌∷◌ (store_below b at from xs (omega arith))
      (read_at-store_before b at xs (from + 1) n (omega arith))

pub read_at-store_after :
    (b : Buffer) (at : ℕ) (xs : Bytes) (from n : ℕ)
    → at + length xs ≤ from
    → read_at (store b at xs) from n ≡ read_at b from n
unfolding read_at
read_at-store_after b at xs from zero h = refl
read_at-store_after b at xs from (suc n) h =
    ap₂ ◌∷◌ (store_above b at from xs h) (read_at-store_after b at xs (from + 1) n (omega arith))

-- Two writes in a row are one write of both.
pub store-append :
    (b : Buffer) (at : ℕ) (xs ys : Bytes)
    → store (store b at xs) (at + length xs) ys ≡ store b at (xs ++ ys)
unfolding store
store-append b at [] ys = let e : at + 0 ≡ at = omega arith in ap (λ k. store b k ys) e
store-append b at (x ∷ xs) ys =
    let e : at + suc (length xs) ≡ at + 1 + length xs = omega arith in
    ap (λ k. store (store (update b at x) (at + 1) xs) k ys) e
    ∙ store-append (update b at x) (at + 1) xs ys

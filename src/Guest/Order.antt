-- ===== src/Guest/Order.antt =====
-- The bytes for the application's stdin.
use Prim.Native.Nat.{min}
use mathlib.Core.List.{append_assoc}
use libvirt_sandbox.Base.{
  ℕ, ◌+◌, ◌-◌, ◌≤◌, ◌<◌, ◌≡◌, refl, sym, ap, ◌∙◌, arith, true, Bool-cases, ◌==◌, Option, none, some,
  [], Bytes, ◌++◌, length, take, drop, leb, if◌then◌else◌, add64, sub64, inl, inr, ◌⊎◌, length-drop,
  take-append-drop, drop_all, drop-drop,
}
use native.Mathlib.Decide.{dec_lt}
use libvirt_sandbox.Result.{Result, ok, fault}
use libvirt_sandbox.Packet.{new}
use libvirt_sandbox.Guest.{Guest}
use libvirt_sandbox.Guest.Calls.{wrote, write_data}
use libvirt_sandbox.Guest.Stdin.{stdin_wrote, write_stdin}
use libvirt_sandbox.Guest.Invariant.{Inv, StdinOk}

-- What the application has still to be given.
abbrev pub rest_of : Option Bytes → ℕ → Bytes
rest_of none at = []
rest_of (some bytes) at = drop at bytes

abbrev pub stdin_total : Guest → Bytes
stdin_total g = g.stdin_written ++ rest_of g.to_stdin g.to_stdin_offset

module _ (bytes : Bytes) (g : Guest) (some_bytes : g.to_stdin ≡ some bytes) (v : Inv g) where
  abbrev left : Bytes
  left = drop g.to_stdin_offset bytes

  kept : StdinOk (some bytes) g.to_stdin_length g.to_stdin_offset
  kept = rw some_bytes at v.stdin_ok

  length-left : length left ≡ g.to_stdin_length - g.to_stdin_offset
  length-left = omega (arith, length-drop g.to_stdin_offset bytes, kept)

  total_is : stdin_total g ≡ g.stdin_written ++ left
  total_is = ap (λ b. g.stdin_written ++ rest_of b g.to_stdin_offset) some_bytes

  -- What a write of the `k` bytes next in turn has led to.
  record Moved (k : ℕ) (g' : Guest) : Type 0 where
    written : g'.stdin_written ≡ g.stdin_written ++ take k left
    same : stdin_total g' ≡ stdin_total g
    ready : length left ≤ k → (g'.to_stdin ≡ none) × (g'.rx ≡ some (new true))
    holds_back : k < length left → (g'.to_stdin ≡ some bytes) × (g'.rx ≡ g.rx)

  stdin_wrote-Moved : (k : ℕ) → k ≤ length left → Moved k (stdin_wrote k bytes g)
  unfolding stdin_wrote
  stdin_wrote-Moved k le =
      let n = length-left in
      let s = kept in
      let at : add64 g.to_stdin_offset k ≡ g.to_stdin_offset + k = omega (arith, n, s) in
      let joined : (g.stdin_written ++ take k left) ++ drop k left ≡ stdin_total g =
        append_assoc g.stdin_written (take k left) (drop k left)
        ∙ ap (◌++◌ g.stdin_written) (take-append-drop k left)
        ∙ sym total_is in
      elim (Bool-cases (add64 g.to_stdin_offset k == g.to_stdin_length)) [
        | inl all ↦
            let whole : length left ≤ k = ground (arith, n, all) in
            let ended : (g.stdin_written ++ take k left) ++ [] ≡ stdin_total g =
              ap (◌++◌ (g.stdin_written ++ take k left)) (sym (drop_all k left whole)) ∙ joined in
            rw all (record {
              written = refl;
              same = ended;
              ready = λ _. (refl, refl);
              holds_back = λ lt. absurd (omega (arith, whole));
            })
        | inr part ↦
            let more : k < length left = ground (arith, n, s, part) in
            let rest : rest_of g.to_stdin (add64 g.to_stdin_offset k) ≡ drop k left =
              ap (λ b. rest_of b (add64 g.to_stdin_offset k)) some_bytes
              ∙ ap (λ i. drop i bytes) at
              ∙ sym (drop-drop g.to_stdin_offset k bytes) in
            rw part (record {
              written = refl;
              same = ap (◌++◌ (g.stdin_written ++ take k left)) rest ∙ joined;
              ready = λ ge. absurd (omega (arith, more));
              holds_back = λ _. (some_bytes, refl);
            })
      ]

  starts : (n : ℕ) → write_stdin (wrote n) g ≡ ok (stdin_wrote (min n (length left)) bytes g)
  unfolding write_stdin write_data
  starts n =
      let s = kept in
      let size : sub64 g.to_stdin_length g.to_stdin_offset ≡ length left =
        omega (arith, length-left, s) in
      let fits : leb (g.to_stdin_offset + sub64 g.to_stdin_length g.to_stdin_offset) (length bytes)
          ≡ true =
        ground (arith, s) in
      let m = sub64 g.to_stdin_length g.to_stdin_offset in
      let found : write_stdin (wrote n) g ≡ (
          if leb (g.to_stdin_offset + m) (length bytes)
          then ok (stdin_wrote (min n m) bytes g)
          else fault) =
        ap {A = Option Bytes} {B = Result Guest}
          (λ o. elim o [
            | none ↦ ok g
            | some b ↦
                if leb (g.to_stdin_offset + m) (length b)
                then ok (stdin_wrote (min n m) b g)
                else fault
          ])
          some_bytes in
      found ∙ rw fits (ap (λ k. ok (stdin_wrote (min n k) bytes g)) size)

  -- A write that takes `n` bytes at most moves as many bytes as are left, up to `n`, from the front
  -- of what the host sent to the application, so that what was written and what is left stay one and
  -- the same sequence; the guest is ready for the next packet exactly when nothing is left.
  pub write_stdin_moves :
      (n : ℕ)
      → let k = min n (length left) in
        (g' : Guest) × (write_stdin (wrote n) g ≡ ok g')
        × (g'.stdin_written ≡ g.stdin_written ++ take k left)
        × (stdin_total g' ≡ stdin_total g)
        × (((length left ≤ n) × (g'.to_stdin ≡ none) × (g'.rx ≡ some (new true)))
            ⊎ ((n < length left) × (g'.to_stdin ≡ some bytes) × (g'.rx ≡ g.rx)))
  write_stdin_moves n =
      let k = min n (length left) in
      let m = stdin_wrote-Moved k (omega arith) in
      (
        stdin_wrote k bytes g,
        starts n,
        m.written,
        m.same,
        elim (dec_lt n (length left)) [
          | yes part ↦ let (b, r) = m.holds_back (omega (arith, part)) in inr (part, b, r)
          | no all ↦ let (b, r) = m.ready (omega (arith, all)) in inl (omega (arith, all), b, r)
        ],
      )

-- ===== src/Base/Masks.antt =====
-- A mask of eight bits: setting a bit and testing one.
use Prim.Native.Nat.{ℕ, zero, suc, ◌^◌, ◌<◌, bit_and, bit_or}
use mathlib.Core.Path.{◌≡◌, refl, sym, subst}
use mathlib.Core.Logic.{inl, inr}
use mathlib.Core.Bool.{Bool, true, false, not, ◌||◌}
use native.Mathlib.Omega.{arith}
use rokid_openvoice_sdk.Base.Tests.{ltb, ◌==◌, if◌then◌else◌, Bool-cases}

-- `mask & bit`, as a condition.
unfoldable pub has_bit : ℕ → ℕ → Bool
has_bit mask bit = not (bit_and mask bit == 0)

-- A test passes at every number under the bound.
passes : (ℕ → Bool) → ℕ → Bool
passes test zero = true
passes test (suc top) = if test top then passes test top else false

passes_at : (test : ℕ → Bool) (top n : ℕ) → passes test top ≡ true → n < top → test n ≡ true
unfolding passes
passes_at test zero n h l = absurd (omega arith)
passes_at test (suc top) n h l = elim (Bool-cases (test top)) [
  | inl e ↦ elim (Bool-cases (n == top)) [
    | inl same ↦ let k : n ≡ top = ground arith in subst (λ i. test i ≡ true) (sym k) e
    | inr other ↦ passes_at test top n (ground arith) (ground arith)
  ]
  | inr e ↦ absurd (ground arith)
]

same : Bool → Bool → Bool
same a b = if a then b else not b

same_sound : (a b : Bool) → same a b ≡ true → a ≡ b
unfolding same
same_sound true true h = refl
same_sound true false h = cc
same_sound false true h = cc
same_sound false false h = refl

sets : ℕ → ℕ → ℕ → Bool
sets m k j = same (has_bit (bit_or m (2 ^ k)) (2 ^ j)) (k == j || has_bit m (2 ^ j))

sets_table : passes (λ m. passes (λ k. passes (sets m k) 8) 8) 256 ≡ true
unfolding passes sets same has_bit
sets_table = refl

stays_table : passes (λ m. passes (λ k. ltb (bit_or m (2 ^ k)) 256) 8) 256 ≡ true
unfolding passes
stays_table = refl

-- Of eight bits, setting one leaves the others.
pub has_bit-bit_or :
    (m k j : ℕ)
    → m < 256
    → k < 8
    → j < 8
    → has_bit (bit_or m (2 ^ k)) (2 ^ j) ≡ (k == j || has_bit m (2 ^ j))
unfolding sets
has_bit-bit_or m k j a b c =
    let row = passes_at (λ n. passes (λ l. passes (sets n l) 8) 8) 256 m sets_table a in
    same_sound _ _ (passes_at (sets m k) 8 j (passes_at (λ l. passes (sets m l) 8) 8 k row b) c)

pub bit_or-lt : (m k : ℕ) → m < 256 → k < 8 → bit_or m (2 ^ k) < 256
bit_or-lt m k a b =
    let row = passes_at (λ n. passes (λ l. ltb (bit_or n (2 ^ l)) 256) 8) 256 m stays_table a in
    let t = passes_at (λ l. ltb (bit_or m (2 ^ l)) 256) 8 k row b in ground arith

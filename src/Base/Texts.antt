-- ===== src/Base/Texts.antt =====
-- Text as the source's `char` arrays hold it: a list of bytes; in a C string none of them is 0.
-- Literals, `%u`, and `snprintf`.
use Prim.Native.Nat.{ℕ, zero, suc, ◌+◌, ◌-◌, ◌/◌, ◌%◌, ◌≤◌, ◌<◌}
use Prim.Native.Char.{code}
use Prim.Native.String.{String}
use mathlib.Core.Path.{◌≡◌, refl, ap}
use mathlib.Core.List.{List, [], ◌∷◌, ◌++◌}
use native.Mathlib.Omega.{arith}
use rokid_openvoice_sdk.Base.Tests.{ltb, if◌then◌else◌}
use rokid_openvoice_sdk.Base.Lists.{length, take}

abbrev pub Text : Type 0
Text = List ℕ

-- The bytes of a literal in ASCII.
abbrev pub codes : String → Text
codes String.[] = []
codes (String.◌∷◌ c s) = code c ∷ codes s

-- The decimal digits of a number that has at most so many of them.
unfoldable pub digits : ℕ → ℕ → Text
digits zero n = []
digits (suc k) n =
    let high = digits k (n / 10) in if ltb n 10 then (n + 48) ∷ [] else high ++ (n % 10 + 48) ∷ []

-- `%u` and `%" PRIu64 "`.
unfoldable pub decimal : ℕ → Text
unfolding digits
decimal n = digits 20 n

-- What `snprintf` leaves in a buffer of this size: the end that does not fit is cut off.
unfoldable pub snprintf : ℕ → Text → Text
snprintf size t = take (size - 1) t

pub snprintf-fits : (size : ℕ) (t : Text) → length t < size → snprintf size t ≡ t
unfolding snprintf
snprintf-fits zero t h = absurd (omega arith)
snprintf-fits (suc size) t h =
    let e : suc size - 1 ≡ size = omega arith in rw e (go size t (omega arith))
  where
    go : (n : ℕ) (xs : Text) → length xs ≤ n → take n xs ≡ xs
    go zero [] h = refl
    go zero (x ∷ xs) h = absurd (omega arith)
    go (suc n) [] h = refl
    go (suc n) (x ∷ xs) h = ap (λ r. x ∷ r) (go n xs (omega arith))

pub length-snprintf-le : (size : ℕ) (t : Text) → length (snprintf size t) ≤ size - 1
unfolding snprintf
length-snprintf-le size t = go (size - 1) t
  where
    go : (n : ℕ) (xs : Text) → length (take n xs) ≤ n
    go zero xs = omega arith
    go (suc n) [] = omega arith
    go (suc n) (x ∷ xs) = omega (arith, go n xs)

-- `take` of a prefix and what follows it.
pub take-prefix : (n : ℕ) (p xs : Text) → take (length p + n) (p ++ xs) ≡ p ++ take n xs
take-prefix n [] xs = let e : 0 + n ≡ n = omega arith in rw e refl
take-prefix n (x ∷ p) xs =
    let e : suc (length p) + n ≡ suc (length p + n) = omega arith in
    rw e (ap (λ r. x ∷ r) (take-prefix n p xs))

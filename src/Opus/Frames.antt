-- ===== src/Opus/Frames.antt =====
-- How `RKOpusEncoder::encode` (src/codec/rkcodec.cc) cuts samples into frames, apart from
-- how the calls divide them.
use rokid_openvoice_sdk.Base.{
  ℕ, zero, suc, ◌≤◌, ◌<◌, ◌≡◌, refl, ap, sym, ◌∙◌, inl, inr, true, false, List, [], ◌∷◌, ◌++◌, leb,
  length, take, drop, arith, Bool-cases, length-append, length-drop,
}
use mathlib.Core.List.{append_assoc}
use rokid_openvoice_sdk.Opus.{packet}

-- A frame that has its samples is cut from any longer list the same way.
take-append : (n : ℕ) (xs ys : List ℕ) → n ≤ length xs → take n (xs ++ ys) ≡ take n xs
take-append zero xs ys h = refl
take-append (suc n) [] ys h = absurd (omega arith)
take-append (suc n) (x ∷ xs) ys h = ap (◌∷◌ x) (take-append n xs ys (omega arith))

drop-append : (n : ℕ) (xs ys : List ℕ) → n ≤ length xs → drop n (xs ++ ys) ≡ drop n xs ++ ys
drop-append zero xs ys h = refl
drop-append (suc n) [] ys h = absurd (omega arith)
drop-append (suc n) (x ∷ xs) ys h = drop-append n xs ys (omega arith)

-- The packets of all whole frames, the state after them and the samples left over.
pub record Cut {ℓ} (S : Type ℓ) : Type ℓ where
  pub state : S
  pub bytes : List ℕ
  pub rest : List ℕ

abbrev pub prefixed {ℓ} : {S : Type ℓ} → List ℕ → Cut S → Cut S
prefixed b c = record c { bytes = b ++ c.bytes }

-- `advance` and `payload` are the state and the packet that libopus makes of a state and a frame.
module _ {ℓ} {S : Type ℓ} (advance : S → List ℕ → S) (payload : S → List ℕ → List ℕ) where
  -- Cutting; the fuel bounds the number of frames.
  unfoldable pub cut : ℕ → ℕ → S → List ℕ → Cut S
  cut zero size s pcm = record { state = s; bytes = []; rest = pcm }
  cut (suc n) size s pcm =
      let later = cut n size (advance s (take size pcm)) (drop size pcm) in
      let here : Cut S = record { state = s; bytes = []; rest = pcm } in
      elim (leb size (length pcm)) [
        | true ↦ prefixed (packet (payload s (take size pcm))) later
        | false ↦ here
      ]

  -- More fuel than samples changes nothing.
  pub cut-fuel :
      (n m size : ℕ) (s : S) (pcm : List ℕ)
      → 0 < size
      → length pcm ≤ n
      → length pcm ≤ m
      → cut n size s pcm ≡ cut m size s pcm
  unfolding cut
  cut-fuel zero zero size s pcm p h k = refl
  cut-fuel zero (suc m) size s pcm p h k =
      let e : leb size (length pcm) ≡ false = ground arith in rw (e, cut)
  cut-fuel (suc n) zero size s pcm p h k =
      let e : leb size (length pcm) ≡ false = ground arith in rw (e, cut)
  cut-fuel (suc n) (suc m) size s pcm p h k = elim (Bool-cases (leb size (length pcm))) [
    | inl e ↦
        rw (e, cut)
          (ap (prefixed (packet (payload s (take size pcm)))) (
            cut-fuel n m size (advance s (take size pcm)) (drop size pcm) p
              (ground (arith, length-drop size pcm)) (ground (arith, length-drop size pcm))))
    | inr e ↦ rw (e, cut)
  ]

  pub cut_whole :
      (n size : ℕ) (s : S) (pcm : List ℕ)
      → leb size (length pcm) ≡ true
      → cut (suc n) size s pcm
        ≡ prefixed
            (packet (payload s (take size pcm)))
            (cut n size (advance s (take size pcm)) (drop size pcm))
  unfolding cut
  cut_whole n size s pcm e = rw (e, cut)

  pub cut_short :
      (n size : ℕ) (s : S) (pcm : List ℕ)
      → leb size (length pcm) ≡ false
      → cut n size s pcm ≡ record { state = s; bytes = []; rest = pcm }
  unfolding cut
  cut_short zero size s pcm e = refl
  cut_short (suc n) size s pcm e = rw (e, cut)

  -- Cutting a list in two parts, the second behind what the first leaves over.
  abbrev pub joined : ℕ → ℕ → Cut S → List ℕ → Cut S
  joined m size c ys = prefixed c.bytes (cut m size c.state (c.rest ++ ys))

  prefixed_twice : (a b : List ℕ) (c : Cut S) → prefixed a (prefixed b c) ≡ prefixed (a ++ b) c
  prefixed_twice a b c = λ j. record c { bytes = sym (append_assoc a b c.bytes) j }

  pub cut-append :
      (n m size : ℕ) (s : S) (xs ys : List ℕ)
      → 0 < size
      → length (xs ++ ys) ≤ n
      → length (xs ++ ys) ≤ m
      → cut n size s (xs ++ ys) ≡ joined m size (cut n size s xs) ys
  cut-append zero m size s xs ys p h k =
      let e : leb size (length xs) ≡ false = ground (arith, length-append xs ys) in
      cut-fuel zero m size s (xs ++ ys) p h k
      ∙ ap (λ c. joined m size c ys) (sym (cut_short zero size s xs e))
  cut-append (suc n) m size s xs ys p h k = elim (Bool-cases (leb size (length xs))) [
    | inl e ↦
        let long : leb size (length (xs ++ ys)) ≡ true = ground (arith, length-append xs ys) in
        let fits : size ≤ length xs = ground arith in
        let first = take size xs in
        let middle = cut n size (advance s first) (drop size xs) in
        let less : length (drop size xs ++ ys) ≤ n =
          omega
            (arith, length-append xs ys, length-append (drop size xs) ys, length-drop size xs) in
        cut_whole n size s (xs ++ ys) long
        ∙ rw (take-append size xs ys fits, drop-append size xs ys fits)
            (ap (prefixed (packet (payload s first))) (
                cut-append n m size (advance s first) (drop size xs) ys p less (
                  omega (
                    arith,
                    length-append xs ys,
                    length-append (drop size xs) ys,
                    length-drop size xs,
                  )))
              ∙ prefixed_twice (packet (payload s first)) middle.bytes
                  (cut m size middle.state (middle.rest ++ ys))
              ∙ ap (λ c. joined m size c ys) (sym (cut_whole n size s xs e)))
    | inr e ↦
        cut-fuel (suc n) m size s (xs ++ ys) p h k
        ∙ ap (λ c. joined m size c ys) (sym (cut_short (suc n) size s xs e))
  ]

  -- What is left over is less than a frame.
  pub cut-rest :
      (n size : ℕ) (s : S) (pcm : List ℕ)
      → 0 < size
      → length pcm ≤ n
      → length (cut n size s pcm).rest < size
  unfolding cut
  cut-rest zero size s pcm p h = omega arith
  cut-rest (suc n) size s pcm p h = elim (Bool-cases (leb size (length pcm))) [
    | inl e ↦
        rw (e, cut)
          (cut-rest n size (advance s (take size pcm)) (drop size pcm) p
            (ground (arith, length-drop size pcm)))
    | inr e ↦ rw (e, cut) (ground arith)
  ]

  cut-rest-le : (n size : ℕ) (s : S) (pcm : List ℕ) → length (cut n size s pcm).rest ≤ length pcm
  unfolding cut
  cut-rest-le zero size s pcm = omega arith
  cut-rest-le (suc n) size s pcm = elim (Bool-cases (leb size (length pcm))) [
    | inl e ↦
        rw (e, cut)
          (omega (
            arith,
            cut-rest-le n size (advance s (take size pcm)) (drop size pcm),
            length-drop size pcm,
          ))
    | inr e ↦ rw (e, cut) (omega arith)
  ]

  -- Fuel enough for every frame.
  abbrev pub frames : ℕ → S → List ℕ → Cut S
  frames size s pcm = cut (length pcm) size s pcm

  pub frames-append :
      (size : ℕ) (s : S) (xs ys : List ℕ)
      → 0 < size
      → frames size s (xs ++ ys)
        ≡ (let c = frames size s xs in prefixed c.bytes (frames size c.state (c.rest ++ ys)))
  frames-append size s xs ys p =
      let n = length (xs ++ ys) in
      let c = frames size s xs in
      cut-append n n size s xs ys p (omega arith) (omega arith)
      ∙ ap (λ d. joined n size d ys)
          (cut-fuel n (length xs) size s xs p (omega (arith, length-append xs ys)) (omega arith))
      ∙ ap (prefixed c.bytes) (
          cut-fuel n (length (c.rest ++ ys)) size c.state (c.rest ++ ys) p
            (omega (
              arith,
              length-append xs ys,
              length-append c.rest ys,
              cut-rest-le (length xs) size s xs,
            ))
            (omega arith))

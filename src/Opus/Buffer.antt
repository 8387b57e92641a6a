-- ===== src/Opus/Buffer.antt =====
-- What `RKOpusEncoder::encode` (src/codec/rkcodec.cc) writes stays in `_opus_buffer`.
use rokid_openvoice_sdk.Base.{
  ℕ, zero, suc, ◌-◌, ◌≤◌, ◌<◌, ◌≡◌, sym, subst, inl, inr, Option, none, some, List, [], ◌∷◌, ◌++◌,
  leb, ltb, length, take, drop, arith, Bool-cases, Option-cases, length-append, length-drop,
  is_empty,
}
use rokid_openvoice_sdk.Opus.{Encoder, Encoded, packet, room, encode_loop, encode_open, encode}

-- What libopus says of its output area: it writes no more than that, and refuses a negative size.
abbrev pub Bounded {ℓ} : {S : Type ℓ} → (S → List ℕ → ℕ → S × Option (List ℕ)) → Type ℓ
Bounded {S = S} opus_encode =
    (s : S) (frame : List ℕ) (area : ℕ) (bytes : List ℕ)
    → (opus_encode s frame area).1 ≡ some bytes
    → (length bytes ≤ area) × (area < 2147483648)

-- It returns; the size is at most 16384, and that of what it returns unless that is null.
abbrev pub Within {ℓ} : {S : Type ℓ} → Option (Encoded S) → Type 0
Within none = ⊥
Within (some r) =
    (r.enc_size ≤ 16384) × ((out : List ℕ) → r.buffer ≡ some out → r.enc_size ≡ length out)

packet-fits :
    (out bytes : List ℕ)
    → length out ≤ 16384
    → (length bytes ≤ room out) × (room out < 2147483648)
    → length (out ++ packet bytes) ≤ 16384
packet-fits out bytes h (l, m) = let e = length-append out (packet bytes) in ground (arith, e)

module _ {ℓ} {S : Type ℓ} (opus_encode : S → List ℕ → ℕ → S × Option (List ℕ)) where
  encode_loop-Within :
      (fuel size : ℕ) (s : S) (out pcm : List ℕ)
      → Bounded opus_encode
      → 0 < size
      → length pcm < fuel
      → length out ≤ 16384
      → Within (encode_loop opus_encode fuel size s out pcm)
  unfolding encode_loop
  encode_loop-Within zero size s out pcm b p f h = absurd (omega arith)
  encode_loop-Within (suc fuel) size s out pcm b p f h =
      let shorter = length-drop size pcm in
      elim (Bool-cases (leb size (length pcm))) [
        | inr e ↦ rw (e, encode_loop) (h, λ o q. cc)
        | inl e ↦
            rw (e, encode_loop)
              (elim (Option-cases (opus_encode s (take size pcm) (room out)).1) [
                | inl q ↦ rw q (h, λ o q. cc)
                | inr (bytes, q) ↦ rw q (
                    encode_loop-Within fuel size _ (out ++ packet bytes) (drop size pcm) b p
                      (ground (arith, shorter))
                      (packet-fits out bytes h (b s (take size pcm) (room out) bytes q)))
              ])
      ]

  encode_open-Within :
      (fuel : ℕ) (s : S) (e : Encoder S) (pcm : List ℕ)
      → Bounded opus_encode
      → 0 < e.pcm_frame_size
      → length pcm < fuel
      → Within (encode_open opus_encode fuel s e pcm)
  unfolding encode_open
  encode_open-Within fuel s e pcm b p f =
      let need = e.pcm_frame_size - length e.remain in
      let frame = e.remain ++ take need pcm in
      elim (Bool-cases (is_empty e.remain)) [
        | inl i ↦ rw i (encode_loop-Within fuel e.pcm_frame_size s [] pcm b p f (omega arith))
        | inr i ↦ rw i (elim (Bool-cases (ltb (length pcm) need)) [
          | inl j ↦ rw j (omega arith, λ o q. cc)
          | inr j ↦ rw j (elim (Option-cases (opus_encode s frame (room [])).1) [
            | inl q ↦ rw q (omega arith, λ o q. cc)
            | inr (bytes, q) ↦ rw q (
                encode_loop-Within fuel e.pcm_frame_size _ (packet bytes) (drop need pcm) b p
                  (omega (arith, length-drop need pcm))
                  (packet-fits [] bytes (omega arith) (b s frame (room []) bytes q)))
          ])
        ])
      ]

  -- With a libopus that writes no more than its area and refuses a negative size, frames of some
  -- samples and fuel for each sample: whatever the samples and the failures, a call returns and has
  -- written at most 16384 bytes, and the size that it gives is that of what it returns unless that
  -- is null.
  pub encode-Within :
      (fuel : ℕ) (e : Encoder S) (pcm : List ℕ)
      → Bounded opus_encode
      → 0 < e.pcm_frame_size
      → length pcm < fuel
      → Within (encode opus_encode fuel e pcm)
  unfolding encode
  encode-Within fuel e [] b p f = elim (Option-cases e.codec) [
    | inl c ↦ rw c (omega arith, λ o q. cc)
    | inr (s, c) ↦ rw c (omega arith, λ o q. cc)
  ]
  encode-Within fuel e (x ∷ xs) b p f = elim (Option-cases e.codec) [
    | inl c ↦ rw c (omega arith, λ o q. cc)
    | inr (s, c) ↦ subst Within (sym (opened s c)) (encode_open-Within fuel s e (x ∷ xs) b p f)
  ]
    where
      opened :
          (s : S)
          → e.codec ≡ some s
          → encode opus_encode fuel e (x ∷ xs) ≡ encode_open opus_encode fuel s e (x ∷ xs)
      opened s c = simp (c, encode)

-- ===== src/Opus/Rounds.antt =====
-- A round of `RKOpusEncoder::encode` (src/codec/rkcodec.cc) with a packet, and the rounds of its loop
-- while the buffer has room.
use rokid_openvoice_sdk.Base.{
  ℕ, zero, suc, ◌≤◌, ◌<◌, ◌≡◌, refl, ap, sym, ◌∙◌, inl, inr, true, false, Option, some, List, [],
  ◌∷◌, ◌++◌, leb, subst, ◌+◌, length, take, drop, arith, Bool-cases, length-append, length-drop,
}
use mathlib.Core.List.{append_assoc, append-nil}
use rokid_openvoice_sdk.Base.{length-append, length-drop, Bool-cases, subst, ltb, ◌-◌, none}
use rokid_openvoice_sdk.Opus.{Encoded, packet, room, encode_loop, encode_open}
use rokid_openvoice_sdk.Opus.Frames.{Cut, cut, prefixed}

module _ {ℓ} {S : Type ℓ} (opus_encode : S → List ℕ → ℕ → S × Option (List ℕ)) where
  -- A round of the loop with a packet.
  pub loop_continues :
      (fuel size : ℕ) (s : S) (out pcm bytes : List ℕ)
      → leb size (length pcm) ≡ true
      → (opus_encode s (take size pcm) (room out)).1 ≡ some bytes
      → encode_loop opus_encode (suc fuel) size s out pcm
        ≡ encode_loop opus_encode fuel size
            (opus_encode s (take size pcm) (room out)).0
            (out ++ packet bytes)
            (drop size pcm)
  unfolding encode_loop
  loop_continues fuel size s out pcm bytes h e = rw (h, encode_loop) (rw e refl)

  loop_encodes :
      (fuel size : ℕ) (s next : S) (out pcm bytes : List ℕ)
      → leb size (length pcm) ≡ true
      → opus_encode s (take size pcm) (room out) ≡ (next, some bytes)
      → encode_loop opus_encode (suc fuel) size s out pcm
        ≡ encode_loop opus_encode fuel size next (out ++ packet bytes) (drop size pcm)
  loop_encodes fuel size s next out pcm bytes h e =
      loop_continues fuel size s out pcm bytes h (ap (λ x. x.1) e)
      ∙ ap
          (λ (x : S × Option (List ℕ)).
            encode_loop opus_encode fuel size x.0 (out ++ packet bytes) (drop size pcm))
          e

  -- A call that completes the frame begun by an earlier one.
  pub open_encodes :
      (fuel size : ℕ) (s next : S) (x : ℕ) (xs p bytes : List ℕ)
      → ltb (length p) (size - length (x ∷ xs)) ≡ false
      → opus_encode s ((x ∷ xs) ++ take (size - length (x ∷ xs)) p) (room []) ≡ (next, some bytes)
      → encode_open opus_encode fuel s
          (record { codec = some s; pcm_frame_size = size; remain = x ∷ xs })
          p
        ≡ encode_loop opus_encode fuel size next (packet bytes) (drop (size - length (x ∷ xs)) p)
  unfolding encode_open
  open_encodes fuel size s next x xs p bytes e one =
      simp e (completed (opus_encode s ((x ∷ xs) ++ take (size - length (x ∷ xs)) p) (room [])) one)
    where
      failed : S → Encoded S
      failed s' = record {
        encoder = record { codec = some s'; pcm_frame_size = size; remain = x ∷ xs };
        buffer = none;
        enc_size = 0;
      }

      completed :
          (r : S × Option (List ℕ))
          → r ≡ (next, some bytes)
          → (elim r.1 [
            | none ↦ some (failed r.0)
            | some b ↦
                encode_loop opus_encode fuel size r.0 (packet b) (drop (size - length (x ∷ xs)) p)
          ])
            ≡ encode_loop opus_encode fuel size next
                (packet bytes)
                (drop (size - length (x ∷ xs)) p)
      completed r q =
          subst
            (λ (r : S × Option (List ℕ)).
              (elim r.1 [
                | none ↦ some (failed r.0)
                | some b ↦
                    encode_loop opus_encode fuel size r.0 (packet b)
                      (drop (size - length (x ∷ xs)) p)
              ])
              ≡ encode_loop opus_encode fuel size next (packet bytes)
                  (drop (size - length (x ∷ xs)) p))
            (sym q) refl

module _ {ℓ} {S : Type ℓ} (advance : S → List ℕ → S) (payload : S → List ℕ → List ℕ) where
  -- libopus is given its area to bound a packet: with `limit` bytes or more it does not fail, and the
  -- packet does not depend on the area.
  abbrev pub Encodes : (S → List ℕ → ℕ → S × Option (List ℕ)) → ℕ → Type ℓ
  Encodes opus_encode limit =
      (s : S) (frame : List ℕ) (area : ℕ)
      → limit ≤ area
      → opus_encode s frame area ≡ (advance s frame, some (payload s frame))

  room-limit : (limit : ℕ) (out : List ℕ) → length out + suc limit ≤ 16384 → limit ≤ room out
  room-limit limit out h = ground arith

  -- Before the last packet there is less in the buffer than after it.
  before_last :
      (limit : ℕ) (out bytes later : List ℕ)
      → length (out ++ (packet bytes ++ later)) + suc limit ≤ 16384
      → length out + suc limit ≤ 16384
  before_last limit out bytes later h = omega (arith, length-append out (packet bytes ++ later), h)

  -- While the packets, and the area for one more, fit in the buffer.
  pub encode_loop-cut :
      (opus_encode : S → List ℕ → ℕ → S × Option (List ℕ)) (limit fuel n size : ℕ) (s : S)
      (out pcm : List ℕ)
      → Encodes opus_encode limit
      → 0 < size
      → length pcm < fuel
      → length pcm ≤ n
      → length (out ++ (cut advance payload n size s pcm).bytes) + suc limit ≤ 16384
      → encode_loop opus_encode fuel size s out pcm ≡ (
          let c = cut advance payload n size s pcm in
          some (record {
            encoder = record { codec = some c.state; pcm_frame_size = size; remain = c.rest };
            buffer = some (out ++ c.bytes);
            enc_size = length (out ++ c.bytes);
          }))
  unfolding encode_loop cut
  encode_loop-cut opus limit zero n size s out pcm enc p f h fits = absurd (omega arith)
  encode_loop-cut opus limit (suc fuel) zero size s out pcm enc p f h fits =
      let e : leb size (length pcm) ≡ false = ground arith in rw (e, encode_loop) (rw append-nil)
  encode_loop-cut opus limit (suc fuel) (suc n) size s out pcm enc p f h fits =
      elim (Bool-cases (leb size (length pcm))) [
        | inl e ↦
            let first = take size pcm in
            let rest = drop size pcm in
            let here = payload s first in
            let later = (cut advance payload n size (advance s first) rest).bytes in
            let split : cut advance payload (suc n) size s pcm
                ≡ prefixed (packet here) (cut advance payload n size (advance s first) rest) =
              rw (e, cut) in
            let fits' : length (out ++ (packet here ++ later)) + suc limit ≤ 16384 =
              subst (λ (c : Cut S). length (out ++ c.bytes) + suc limit ≤ 16384) split fits in
            let one =
              enc s first (room out)
                (room-limit limit out (before_last limit out here later fits')) in
            let shorter : (length rest < fuel) × (length rest ≤ n) =
              (ground (arith, length-drop size pcm), ground (arith, length-drop size pcm)) in
            let rec =
              encode_loop-cut opus limit fuel n size (advance s first) (out ++ packet here) rest enc
                p shorter.0 shorter.1
                (subst (λ x. length x + suc limit ≤ 16384)
                  (sym (append_assoc out (packet here) later)) fits') in
            loop_encodes opus fuel size s (advance s first) out pcm here e one
            ∙ rw (e, cut) (rec ∙ rw append_assoc)
        | inr e ↦ rw (e, encode_loop, cut) (rw append-nil)
      ]

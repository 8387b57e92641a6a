-- ===== src/Opus/Failure.antt =====
-- How `RKOpusEncoder::encode` of src/codec/rkcodec.cc fails part way, and what its caller
-- `SpeechImpl::put_voice` (src/speech/speech_impl.cc) is left with.
use rokid_openvoice_sdk.Base.{
  ℕ, suc, ◌*◌, ◌≤◌, ◌<◌, ◌≡◌, refl, ◌∙◌, true, Option, none, some, List, [], ◌∷◌, leb, length, take,
  drop, length-drop, arith,
}
use rokid_openvoice_sdk.Opus.{Encoder, Encoded, packet, room, encode_loop, encode_open, encode}
use rokid_openvoice_sdk.Opus.Rounds.{loop_continues}

module _ {ℓ} {S : Type ℓ} (opus_encode : S → List ℕ → ℕ → S × Option (List ℕ)) where
  abbrev open_encoder : ℕ → S → Encoder S
  open_encoder size s = record { codec = some s; pcm_frame_size = size; remain = [] }

  loop_fails :
      (fuel size : ℕ) (s : S) (out pcm : List ℕ)
      → leb size (length pcm) ≡ true
      → (opus_encode s (take size pcm) (room out)).1 ≡ none
      → encode_loop opus_encode (suc fuel) size s out pcm
        ≡ some (record {
          encoder = open_encoder size (opus_encode s (take size pcm) (room out)).0;
          buffer = none;
          enc_size = length out;
        })
  unfolding encode_loop
  loop_fails fuel size s out pcm h e = rw (h, encode_loop) (rw e refl)

  -- When libopus encodes the first frame and refuses the second, the call returns a null buffer
  -- with a size that is not 0: the size alone does not tell that it failed.
  pub encode-second_fails :
      (fuel size : ℕ) (s : S) (pcm bytes : List ℕ)
      → 0 < size
      → 2 * size ≤ length pcm
      → (opus_encode s (take size pcm) (room [])).1 ≡ some bytes
      → (opus_encode
          (opus_encode s (take size pcm) (room [])).0
          (take size (drop size pcm))
          (room (packet bytes))).1
        ≡ none
      → (r : Encoded S) × (encode opus_encode (suc (suc fuel)) (open_encoder size s) pcm ≡ some r)
        × (r.buffer ≡ none)
        × (r.enc_size ≡ suc (length bytes))
  unfolding encode encode_open
  encode-second_fails fuel size s [] bytes p l one two = absurd (omega arith)
  encode-second_fails fuel size s (x ∷ xs) bytes p l one two =
      let pcm = x ∷ xs in
      let whole : leb size (length pcm) ≡ true = ground arith in
      let rest : size ≤ length (drop size pcm) = omega (arith, length-drop size pcm) in
      let again : leb size (length (drop size pcm)) ≡ true = ground arith in
      let first = opus_encode s (take size pcm) (room []) in
      (
        _,
        loop_continues opus_encode (suc fuel) size s [] pcm bytes whole one
            ∙ loop_fails fuel size first.0 (packet bytes) (drop size pcm) again two,
        refl,
        refl,
      )

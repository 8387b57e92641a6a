-- ===== src/Opus/Decoding.antt =====
-- The Opus decoder wrapper, class `RKOpusDecoder` of src/codec/rkcodec.cc.
--
-- libopus is a parameter: `opus_decode` maps its state, a packet and the number of samples that
-- there is room for to its next state and the samples, `none` being a negative return value. A
-- packet is what stands behind the pointer, null being `none`.
use rokid_openvoice_sdk.Base.{
  ℕ, ◌*◌, ◌/◌, ◌%◌, ◌≡◌, ◌≤◌, refl, Bool, true, false, Option, none, some, List, [], ◌++◌, ltb,
  if◌then◌else◌, word, length, take, drop, replicate, length-append, length-drop, arith,
}

pub record Decoder (S : Type 0) : Type 0 where
  pub codec : Option S
  pub opu_frame_size : ℕ
  pub pcm_frame_size : ℕ
  pub pcm_buffer : List ℕ

-- What `opus_decode` leaves in the buffer: its samples, and behind them what was there.
unfoldable pub written : List ℕ → List ℕ → List ℕ
written samples buffer = samples ++ drop (length samples) buffer

module _ {S : Type 0} where
  -- With what `opus_decoder_create` returned. A new buffer has any contents; here, zeros.
  unfoldable pub init : Option S → ℕ → ℕ → ℕ → Decoder S → Decoder S × Bool
  init created sample_rate bitrate duration d = elim d.codec [
    | some s ↦ (d, true)
    | none ↦ elim created [
      | none ↦ (d, false)
      | some s ↦
          let size = sample_rate * duration % word / 1000 in
          (
            record {
              codec = some s;
              opu_frame_size = bitrate * duration % word / 8000;
              pcm_frame_size = size;
              pcm_buffer = replicate size 0;
            },
            true,
          )
    ]
  ]

  unfoldable pub close : Decoder S → Decoder S
  close d = elim d.codec [
    | none ↦ d
    | some s ↦ record { codec = none; opu_frame_size = 0; pcm_frame_size = 0; pcm_buffer = [] }
  ]

  unfoldable pub decoded : S × Option (List ℕ) → Decoder S → Decoder S × Option (List ℕ)
  unfolding written
  decoded (s, none) d = (record d { codec = some s }, none)
  decoded (s, some samples) d =
      let buffer = written samples d.pcm_buffer in
      (record d { codec = some s; pcm_buffer = buffer }, some buffer)

  module _ (opus_decode : S → List ℕ → ℕ → S × Option (List ℕ)) where
    -- `none` is a read past the end of the packet.
    unfoldable pub decode_packet :
        Option S → Option (List ℕ) → Decoder S → Option (Decoder S × Option (List ℕ))
    unfolding decoded
    decode_packet none opu d = some (d, none)
    decode_packet (some s) none d = some (d, none)
    decode_packet (some s) (some bytes) d =
        if ltb (length bytes) d.opu_frame_size
        then none
        else some (decoded (opus_decode s (take d.opu_frame_size bytes) d.pcm_frame_size) d)

    unfoldable pub decode_frame : Option (List ℕ) → Decoder S → Option (Decoder S × Option (List ℕ))
    unfolding decode_packet
    decode_frame opu d = decode_packet d.codec opu d

-- The buffer has the size of a frame.
abbrev pub Sized : {S : Type 0} → ℕ → Decoder S → Type 0
Sized size d = (d.pcm_frame_size ≡ size) × (length d.pcm_buffer ≡ size)

-- A call meets no fault, leaves such a buffer, and returns null or this buffer.
abbrev pub Frame : {S : Type 0} → ℕ → Option (Decoder S × Option (List ℕ)) → Type 0
Frame size none = ⊥
Frame size (some (d, none)) = Sized size d
Frame size (some (d, some pcm)) = Sized size d × (pcm ≡ d.pcm_buffer)

decoded-Frame :
    {S : Type 0} (size : ℕ) (x : S × Option (List ℕ)) (d : Decoder S)
    → ((samples : List ℕ) → x.1 ≡ some samples → length samples ≤ size)
    → Sized size d
    → Frame size (some (decoded x d))
unfolding decoded written
decoded-Frame size (s, none) d most v = v
decoded-Frame size (s, some samples) d most (f, b) =
    let m = most samples refl in
    (
      (
        f,
        omega (
          arith,
          length-append samples (drop (length samples) d.pcm_buffer),
          length-drop (length samples) d.pcm_buffer,
        ),
      ),
      refl,
    )

-- When libopus writes no more samples than there is room for, and the packet is null or has at
-- least the bytes of a frame, `decode_frame` of a decoder whose buffer has the size of a frame
-- reads and writes within bounds, keeps that size, and returns null or the buffer.
pub decode_frame-Frame :
    {S : Type 0} (opus_decode : S → List ℕ → ℕ → S × Option (List ℕ)) (opu : Option (List ℕ))
    (d : Decoder S)
    → ((s : S) (bytes samples : List ℕ) (n : ℕ)
        → (opus_decode s bytes n).1 ≡ some samples
        → length samples ≤ n)
    → ((bytes : List ℕ) → opu ≡ some bytes → d.opu_frame_size ≤ length bytes)
    → length d.pcm_buffer ≡ d.pcm_frame_size
    → Frame d.pcm_frame_size (decode_frame opus_decode opu d)
unfolding decode_frame
decode_frame-Frame {S} opus_decode opu d most enough v = by_codec d.codec opu refl
  where
    by_codec :
        (c : Option S) (o : Option (List ℕ))
        → opu ≡ o
        → Frame d.pcm_frame_size (decode_packet opus_decode c o d)
    by_codec none o e = unfold decode_packet in (refl, v)
    by_codec (some s) none e = unfold decode_packet in (refl, v)
    by_codec (some s) (some bytes) e =
        let h = enough bytes e in
        let l : ltb (length bytes) d.opu_frame_size ≡ false = ground arith in
        unfold decode_packet in
        (simp l (
          decoded-Frame d.pcm_frame_size
            (opus_decode s (take d.opu_frame_size bytes) d.pcm_frame_size) d
            (λ samples g. most s (take d.opu_frame_size bytes) samples d.pcm_frame_size g)
            (refl, v)))

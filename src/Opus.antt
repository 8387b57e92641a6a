-- ===== src/Opus.antt =====
-- The Opus encoder wrapper, class `RKOpusEncoder` of src/codec/rkcodec.cc (built with
-- HAS_OPUS_CODEC).
--
-- libopus is a parameter: `opus_encode` maps its state, a frame of samples and the size of the
-- output area (as a `uint32_t`) to its next state and the bytes of a packet, `none` being a
-- negative return value. It writes no more bytes than the area has, so that those of `out` below are
-- the first of `_opus_buffer`. `encode` runs on fuel, a round for each frame.
pub mod Frames
pub mod Rounds
pub mod Buffer
pub mod Calls
pub mod Failure
pub mod Decoding
use rokid_openvoice_sdk.Base.{
  ℕ, zero, suc, ◌+◌, ◌-◌, ◌*◌, ◌/◌, ◌%◌, Bool, true, false, Option, none, some, List, [], ◌∷◌, ◌++◌,
  ◌==◌, ltb, leb, if◌then◌else◌, word, sub32, length, take, drop, is_empty,
}

abbrev pub opus_buffer_size : ℕ
opus_buffer_size = 16384

-- `codec` is `_opus_encoder`, null being `none`; `remain` is the part of `a_pcm_frame` in use, so
-- that `pcm_frame_used_bytes` is its length.
pub record Encoder {ℓ} (S : Type ℓ) : Type ℓ where
  pub codec : Option S
  pub pcm_frame_size : ℕ
  pub remain : List ℕ

-- What `encode` leaves: the encoder, the returned pointer (with the bytes of `_opus_buffer` up to
-- `enc_size` behind it, or null), and the reference parameter `enc_size`.
pub record Encoded {ℓ} (S : Type ℓ) : Type ℓ where
  pub encoder : Encoder S
  pub buffer : Option (List ℕ)
  pub enc_size : ℕ

-- `init`: an encoder that is open already keeps its settings.
unfoldable pub init {ℓ} : {S : Type ℓ} → Option S → ℕ → ℕ → Encoder S → Encoder S × Bool
init created sample_rate duration e = elim e.codec [
  | some s ↦ (e, true)
  | none ↦ elim created [
    | none ↦ (e, false)
    | some s ↦ (
      record { codec = some s; pcm_frame_size = sample_rate * duration % word / 1000; remain = [] },
      true,
    )
  ]
]

unfoldable pub close {ℓ} : {S : Type ℓ} → Encoder S → Encoder S
close e = elim e.codec [
  | none ↦ e
  | some s ↦ record { codec = none; pcm_frame_size = 0; remain = [] }
]

-- A packet in `_opus_buffer`: its length in one byte, then its bytes.
abbrev pub packet : List ℕ → List ℕ
packet bytes = (length bytes % 256) ∷ bytes

-- `OPUS_BUFFER_SIZE - enc_size - 1`.
abbrev pub room : List ℕ → ℕ
room out = sub32 (sub32 opus_buffer_size (length out)) 1

module _ {ℓ} {S : Type ℓ} (opus_encode : S → List ℕ → ℕ → S × Option (List ℕ)) where
  -- The `while (true)` loop, from the bytes written so far; `none` means that the fuel ran out.
  unfoldable pub encode_loop : ℕ → ℕ → S → List ℕ → List ℕ → Option (Encoded S)
  encode_loop zero size s out pcm = none
  encode_loop (suc fuel) size s out pcm =
      let (s', result) = opus_encode s (take size pcm) (room out) in
      let failed : Encoded S = record {
        encoder = record { codec = some s'; pcm_frame_size = size; remain = [] };
        buffer = none;
        enc_size = length out;
      } in
      let next =
        λ (bytes : List ℕ). encode_loop fuel size s' (out ++ packet bytes) (drop size pcm) in
      elim (leb size (length pcm)) [
        | true ↦ elim result [ none ↦ some failed | some bytes ↦ next bytes ]
        | false ↦ some (record {
          encoder = record { codec = some s; pcm_frame_size = size; remain = pcm };
          buffer = some out;
          enc_size = length out;
        })
      ]

  -- The frame that an earlier call began: completed by the first samples, or only extended.
  unfoldable pub encode_open : ℕ → S → Encoder S → List ℕ → Option (Encoded S)
  unfolding encode_loop
  encode_open fuel s e pcm =
      let need = e.pcm_frame_size - length e.remain in
      let (s', result) = opus_encode s (e.remain ++ take need pcm) (room []) in
      if is_empty e.remain
      then encode_loop fuel e.pcm_frame_size s [] pcm
      else if ltb (length pcm) need
      then some
          (record { encoder = record e { remain = e.remain ++ pcm }; buffer = none; enc_size = 0 })
      else elim result [
        | none ↦
            some (record { encoder = record e { codec = some s' }; buffer = none; enc_size = 0 })
        | some bytes ↦ encode_loop fuel e.pcm_frame_size s' (packet bytes) (drop need pcm)
      ]

  unfoldable pub encode : ℕ → Encoder S → List ℕ → Option (Encoded S)
  unfolding encode_open
  encode fuel e pcm =
      let refused : Encoded S = record { encoder = e; buffer = none; enc_size = 0 } in
      elim e.codec [
        | none ↦ some refused
        | some s ↦ elim (is_empty pcm) [ true ↦ some refused | false ↦ encode_open fuel s e pcm ]
      ]

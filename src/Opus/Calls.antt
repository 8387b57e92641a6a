-- ===== src/Opus/Calls.antt =====
-- One call, and two calls, of `RKOpusEncoder::encode` (src/codec/rkcodec.cc).
use rokid_openvoice_sdk.Base.{ℕ, ◌≡◌, Option, none, some, List, [], length}
use rokid_openvoice_sdk.Opus.{Encoder, Encoded}
use rokid_openvoice_sdk.Opus.Frames.{Cut}

-- The bytes that a call gives its caller.
abbrev pub written {ℓ} : {S : Type ℓ} → Encoded S → List ℕ
written r = elim r.buffer [ none ↦ [] | some out ↦ out ]

module _ {ℓ} {S : Type ℓ} (advance : S → List ℕ → S) (payload : S → List ℕ → List ℕ) where
  abbrev pub after : ℕ → Cut S → Encoder S
  after size c = record { codec = some c.state; pcm_frame_size = size; remain = c.rest }

  -- The result of a call is what cutting these samples gives.
  abbrev pub Gives : Option (Encoded S) → ℕ → Cut S → Type ℓ
  Gives m size c =
      (r : Encoded S) × (m ≡ some r)
      × (r.encoder ≡ after size c)
      × (written r ≡ c.bytes)
      × (r.enc_size ≡ length c.bytes)

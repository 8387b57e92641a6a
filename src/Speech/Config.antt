-- ===== src/Speech/Config.antt =====
-- What the setters of `SpeechOptionsModifier` in src/speech/speech_impl.cc come to.
use rokid_openvoice_sdk.Base.{
  ℕ, ◌<◌, ◌^◌, ◌==◌, ◌||◌, ◌≡◌, refl, ◌∙◌, ap, Bool, some, List, [], ◌∷◌, has_bit, has_bit-bit_or,
  bit_or-lt, bit_or, arith, Text,
}
use rokid_openvoice_sdk.Tts.{Codec}
use rokid_openvoice_sdk.Speech.{Lang, VadMode, SpeechOptions, Speech}
use rokid_openvoice_sdk.Speech.Options.{
  SpeechOptionsModifier, new_modifier, modify, config, set_lang, set_codec, set_vad_mode,
  set_no_nlp, set_no_intermediate_asr, set_vad_begin, set_voice_fragment, set_log_server,
}

-- A call of one of the setters.
pub data Setting : Type 0 where
  lang_to : Lang → Setting
  codec_to : Codec → Setting
  vad_mode_to : VadMode → ℕ → Setting
  no_nlp_to : Bool → Setting
  no_intermediate_asr_to : Bool → Setting
  vad_begin_to : ℕ → Setting
  voice_fragment_to : ℕ → Setting
  log_server_to : Text → ℕ → Setting

abbrev pub set : Setting → SpeechOptionsModifier → SpeechOptionsModifier
set (lang_to x) m = set_lang x m
set (codec_to x) m = set_codec x m
set (vad_mode_to x y) m = set_vad_mode x y m
set (no_nlp_to x) m = set_no_nlp x m
set (no_intermediate_asr_to x) m = set_no_intermediate_asr x m
set (vad_begin_to x) m = set_vad_begin x m
set (voice_fragment_to x) m = set_voice_fragment x m
set (log_server_to x y) m = set_log_server x y m

abbrev pub set_all : List Setting → SpeechOptionsModifier → SpeechOptionsModifier
set_all [] m = m
set_all (s ∷ ss) m = set_all ss (set s m)

-- The same call made at once on the options themselves.
abbrev pub assign : Setting → SpeechOptions → SpeechOptions
assign (lang_to x) o = record o { lang = x }
assign (codec_to x) o = record o { codec = x }
assign (vad_mode_to x y) o = record o { vad_mode = x; vend_timeout = y }
assign (no_nlp_to x) o = record o { no_nlp = x }
assign (no_intermediate_asr_to x) o = record o { no_intermediate_asr = x }
assign (vad_begin_to x) o = record o { vad_begin = x }
assign (voice_fragment_to x) o = record o { voice_fragment = x }
assign (log_server_to x y) o = record o { log_host = x; log_port = y }

abbrev pub assign_all : List Setting → SpeechOptions → SpeechOptions
assign_all [] o = o
assign_all (s ∷ ss) o = assign_all ss (assign s o)

set-mask : (s : Setting) (m : SpeechOptionsModifier) → m.mask < 256 → (set s m).mask < 256
unfolding set_lang set_codec set_vad_mode set_no_nlp set_no_intermediate_asr set_vad_begin
    set_voice_fragment set_log_server
set-mask (lang_to x) m h = bit_or-lt m.mask 0 h (omega arith)
set-mask (codec_to x) m h = bit_or-lt m.mask 1 h (omega arith)
set-mask (vad_mode_to x y) m h = bit_or-lt m.mask 2 h (omega arith)
set-mask (no_nlp_to x) m h = bit_or-lt m.mask 3 h (omega arith)
set-mask (no_intermediate_asr_to x) m h = bit_or-lt m.mask 4 h (omega arith)
set-mask (vad_begin_to x) m h = bit_or-lt m.mask 5 h (omega arith)
set-mask (voice_fragment_to x) m h = bit_or-lt m.mask 6 h (omega arith)
set-mask (log_server_to x y) m h = bit_or-lt m.mask 7 h (omega arith)

-- What a mask with one more bit says of each of the eight.
abbrev Bits : ℕ → ℕ → Type 0
Bits m k =
    (has_bit (bit_or m (2 ^ k)) 1 ≡ (k == 0 || has_bit m 1))
    × (has_bit (bit_or m (2 ^ k)) 2 ≡ (k == 1 || has_bit m 2))
    × (has_bit (bit_or m (2 ^ k)) 4 ≡ (k == 2 || has_bit m 4))
    × (has_bit (bit_or m (2 ^ k)) 8 ≡ (k == 3 || has_bit m 8))
    × (has_bit (bit_or m (2 ^ k)) 16 ≡ (k == 4 || has_bit m 16))
    × (has_bit (bit_or m (2 ^ k)) 32 ≡ (k == 5 || has_bit m 32))
    × (has_bit (bit_or m (2 ^ k)) 64 ≡ (k == 6 || has_bit m 64))
    × (has_bit (bit_or m (2 ^ k)) 128 ≡ (k == 7 || has_bit m 128))

bits : (m k : ℕ) → m < 256 → k < 8 → Bits m k
bits m k h i = (
  has_bit-bit_or m k 0 h i (omega arith),
  has_bit-bit_or m k 1 h i (omega arith),
  has_bit-bit_or m k 2 h i (omega arith),
  has_bit-bit_or m k 3 h i (omega arith),
  has_bit-bit_or m k 4 h i (omega arith),
  has_bit-bit_or m k 5 h i (omega arith),
  has_bit-bit_or m k 6 h i (omega arith),
  has_bit-bit_or m k 7 h i (omega arith),
)

modify-set :
    (s : Setting) (m : SpeechOptionsModifier) (o : SpeechOptions)
    → m.mask < 256
    → modify (set s m) o ≡ assign s (modify m o)
unfolding modify set_lang set_codec set_vad_mode set_no_nlp set_no_intermediate_asr set_vad_begin
    set_voice_fragment set_log_server
modify-set (lang_to x) m o h =
    let (a0, a1, a2, a3, a4, a5, a6, a7) = bits m.mask 0 h (omega arith) in
    simp (a0, a1, a2, a3, a4, a5, a6, a7) refl
modify-set (codec_to x) m o h =
    let (a0, a1, a2, a3, a4, a5, a6, a7) = bits m.mask 1 h (omega arith) in
    simp (a0, a1, a2, a3, a4, a5, a6, a7) refl
modify-set (vad_mode_to x y) m o h =
    let (a0, a1, a2, a3, a4, a5, a6, a7) = bits m.mask 2 h (omega arith) in
    simp (a0, a1, a2, a3, a4, a5, a6, a7) refl
modify-set (no_nlp_to x) m o h =
    let (a0, a1, a2, a3, a4, a5, a6, a7) = bits m.mask 3 h (omega arith) in
    simp (a0, a1, a2, a3, a4, a5, a6, a7) refl
modify-set (no_intermediate_asr_to x) m o h =
    let (a0, a1, a2, a3, a4, a5, a6, a7) = bits m.mask 4 h (omega arith) in
    simp (a0, a1, a2, a3, a4, a5, a6, a7) refl
modify-set (vad_begin_to x) m o h =
    let (a0, a1, a2, a3, a4, a5, a6, a7) = bits m.mask 5 h (omega arith) in
    simp (a0, a1, a2, a3, a4, a5, a6, a7) refl
modify-set (voice_fragment_to x) m o h =
    let (a0, a1, a2, a3, a4, a5, a6, a7) = bits m.mask 6 h (omega arith) in
    simp (a0, a1, a2, a3, a4, a5, a6, a7) refl
modify-set (log_server_to x y) m o h =
    let (a0, a1, a2, a3, a4, a5, a6, a7) = bits m.mask 7 h (omega arith) in
    simp (a0, a1, a2, a3, a4, a5, a6, a7) refl

modify-set_all :
    (ss : List Setting) (m : SpeechOptionsModifier) (o : SpeechOptions)
    → m.mask < 256
    → modify (set_all ss m) o ≡ assign_all ss (modify m o)
modify-set_all [] m o h = refl
modify-set_all (s ∷ ss) m o h =
    modify-set_all ss (set s m) o (set-mask s m h) ∙ ap (assign_all ss) (modify-set s m o h)

-- `config` with a modifier on which any setters were called makes of the client's options what
-- those calls, in their order, make of them; an option for which no setter was called stays, and
-- so does the rest of the client.
pub config-set_all :
    {V : Type 0} (ss : List Setting) (s : Speech V)
    → config (some (set_all ss new_modifier)) s ≡ record s { options = assign_all ss s.options }
unfolding config
config-set_all ss s =
    let e : modify (set_all ss new_modifier) s.options ≡ assign_all ss s.options =
      modify-set_all ss new_modifier s.options (unfold new_modifier in omega arith)
      ∙ ap (assign_all ss) (unfold new_modifier modify has_bit in refl) in
    ap (λ o. record s { options = o }) e

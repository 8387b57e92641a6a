-- ===== src/Nanopb/Decoder.antt =====
-- `NanoPBDecoder`, `TtsResponse` and `SpeechResponse` of src/common/nanopb_decoder.h and
-- src/common/nanopb_decoder.cc; `AuthResponse` has no strings.
--
-- `pb_decode` is a parameter: it initializes the numbers and sets them, and it calls `decode_string` for
-- each string field in the order of the message, with what `pb_read` gives; it goes on while the
-- calls say true.
pub mod Strings
use rokid_openvoice_sdk.Base.{
  ℕ, Bool, true, false, ◌&&◌, Option, none, some, List, [], ◌∷◌, Text, if◌then◌else◌,
}

-- A message as nanopb decodes it: its numbers, the calls of `decode_string` with the field and what
-- `pb_read` gives (`none` when it fails), and whether the rest of it is well formed.
pub record Decoded (F N : Type 0) : Type 0 where
  pub numbers : N
  pub reads : List (F × Option Text)
  pub well_formed : Bool

-- A response: its numbers, and its strings, null where they were not set.
pub record Response (F N : Type 0) : Type 0 where
  pub numbers : N
  pub strings : F → Option Text

module _ {F : Type 0} (same : F → F → Bool) where
  -- `decode_string`, with the strings after it and what it returns.
  unfoldable pub decode_string : F → Option Text → (F → Option Text) → (F → Option Text) × Bool
  decode_string f none strings = (strings, false)
  decode_string f (some []) strings = (strings, true)
  decode_string f (some (b ∷ bs)) strings =
      ((λ g. if same f g then some (b ∷ bs) else strings g), true)

  unfoldable pub decode_strings :
      List (F × Option Text) → (F → Option Text) → (F → Option Text) × Bool
  unfolding decode_string
  decode_strings [] strings = (strings, true)
  decode_strings ((f, t) ∷ reads) strings =
      let (strings', ok) = decode_string f t strings in
      let rest = decode_strings reads strings' in if ok then rest else (strings', false)

module _ {F N : Type 0} where
  unfoldable pub clear_super_data : Response F N → Response F N
  clear_super_data r = record r { strings = λ f. none }

  unfoldable pub has : F → Response F N → Bool
  has f r = elim (r.strings f) [ none ↦ false | some t ↦ true ]

  -- `asr` and the like: the empty string for a null one.
  unfoldable pub get : F → Response F N → Text
  get f r = elim (r.strings f) [ none ↦ [] | some t ↦ t ]

module _ {F N : Type 0} (same : F → F → Bool) where
  unfoldable pub parse_from_array : (Text → Decoded F N) → Text → Response F N → Response F N × Bool
  unfolding decode_strings clear_super_data
  parse_from_array pb_decode bytes r =
      let d = pb_decode bytes in
      let cleared = clear_super_data r in
      let (strings, ok) = decode_strings same d.reads cleared.strings in
      (record { numbers = d.numbers; strings = strings }, ok && d.well_formed)

  -- `release_voice` and `release_text`.
  unfoldable pub release : F → Response F N → Response F N × Option Text
  release f r = (record r { strings = λ g. if same f g then none else r.strings g }, r.strings f)

pub data TtsField : Type 0 where
  text voice : TtsField

unfoldable pub same_tts : TtsField → TtsField → Bool
same_tts text text = true
same_tts voice voice = true
same_tts _ _ = false

pub data SpeechField : Type 0 where
  asr nlp action extra voice_trigger : SpeechField

unfoldable pub same_speech : SpeechField → SpeechField → Bool
same_speech asr asr = true
same_speech nlp nlp = true
same_speech action action = true
same_speech extra extra = true
same_speech voice_trigger voice_trigger = true
same_speech _ _ = false

pub record TtsNumbers : Type 0 where
  pub id : ℕ
  pub result : ℕ
  pub finish : Bool

pub record SpeechNumbers : Type 0 where
  pub id : ℕ
  pub type : ℕ
  pub result : ℕ

abbrev pub TtsResponse : Type 0
TtsResponse = Response TtsField TtsNumbers

abbrev pub SpeechResponse : Type 0
SpeechResponse = Response SpeechField SpeechNumbers

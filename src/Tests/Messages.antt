-- ===== src/Tests/Messages.antt =====
-- Messages that are parsed and filled, on concrete input.
use rokid_openvoice_sdk.Base.{◌≡◌, refl, true, false, none, some, [], ◌∷◌, Text, codes}
use rokid_openvoice_sdk.Nanopb.Decoder.{
  Decoded, TtsField, text, voice, same_tts, TtsNumbers, TtsResponse, parse_from_array, release, has,
  get,
}
use rokid_openvoice_sdk.Nanopb.Decoder.Strings.{parse_from_array-release}
use rokid_openvoice_sdk.Nanopb.Encoder.{new_speech}
use rokid_openvoice_sdk.Nanopb.Encoder.Fills.{fill_config}
use rokid_openvoice_sdk.Nanopb.Encoder.Filled.{config_fields, fill_config-req_config}
use rokid_openvoice_sdk.Speech.Options.{req_config}
use rokid_openvoice_sdk.Tests.Speaking.{new_speech_options}

-- A message with two voices, of which the second is empty, and no text.
abbrev decoded : Text → Decoded TtsField TtsNumbers
decoded bytes = record {
  numbers = record { id = 3; result = 0; finish = true };
  reads = (voice, some bytes) ∷ (voice, some []) ∷ [];
  well_formed = true;
}

-- The response still holds the text of an earlier message.
abbrev earlier : TtsResponse
earlier = record {
  numbers = record { id = 2; result = 0; finish = false };
  strings = λ f. some (codes "old");
}

parse_from_array-release_example :
    let (r, ok) = parse_from_array same_tts decoded (codes "pcm") earlier in
    let (r', released) = release same_tts voice r in
    (ok ≡ true)
    × (released ≡ some (codes "pcm"))
    × (has voice r' ≡ false)
    × (get text r' ≡ get text r)
    × (r'.strings text ≡ none)
unfolding same_tts
parse_from_array-release_example =
    parse_from_array-release same_tts decoded (codes "pcm") earlier voice text (tt, (tt, tt)) refl
      refl

fill_config-req_config_example :
    fill_config none new_speech_options new_speech
    ≡ record new_speech { options = some (config_fields (req_config none new_speech_options)) }
unfolding new_speech
fill_config-req_config_example = fill_config-req_config none new_speech_options new_speech refl

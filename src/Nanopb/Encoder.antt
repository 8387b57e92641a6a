-- ===== src/Nanopb/Encoder.antt =====
-- `NanoPBEncoder` and the requests of src/common/nanopb_encoder.h and src/common/nanopb_encoder.cc, but
-- `PingPayload`, which is in Connection/PingPayload.
--
-- A string field is null until it is set; a field with a `has_` flag is an option. `pb_encode` is a
-- parameter, with the room in the buffer; an enumerator of the sdk stands for that of the message to
-- which it is cast. `_options` points into the request, so it is the request's own field here.
pub mod Fills
pub mod Filled
use rokid_openvoice_sdk.Base.{ℕ, Bool, true, false, ◌==◌, Option, none, some, Text}
use rokid_openvoice_sdk.Connection.Auth
use rokid_openvoice_sdk.Speech.{SpeechOptions, Lang, VadMode}
use rokid_openvoice_sdk.Speech.Options.{VoiceOptions}
use rokid_openvoice_sdk.Speech.Requests.{WireType}
use rokid_openvoice_sdk.Tts.{Codec, TtsReq, TtsOptions}
use rokid_openvoice_sdk.Tts.Options.{get_codec_str}

-- The size of `encodeBuffer`.
abbrev pub encode_buffer_size : ℕ
encode_buffer_size = 1048576

-- `SerializeToString`: the string after it, and what it returns.
unfoldable pub serialize_to_string : {M : Type 0} → (ℕ → M → Option Text) → M → Text → Text × Bool
serialize_to_string pb_encode m str = elim (pb_encode encode_buffer_size m) [
  | none ↦ (str, false)
  | some t ↦ (t, true)
]

pub record AuthRequest : Type 0 where
  pub key : Option Text
  pub device_type_id : Option Text
  pub device_id : Option Text
  pub service : Option Text
  pub version : Option Text
  pub timestamp : Option Text
  pub sign : Option Text

unfoldable pub new_auth : AuthRequest
new_auth = record {
  key = none;
  device_type_id = none;
  device_id = none;
  service = none;
  version = none;
  timestamp = none;
  sign = none;
}

unfoldable pub set_key : Text → AuthRequest → AuthRequest
set_key str r = record r { key = some str }

unfoldable pub set_device_type_id : Text → AuthRequest → AuthRequest
set_device_type_id str r = record r { device_type_id = some str }

unfoldable pub set_device_id : Text → AuthRequest → AuthRequest
set_device_id str r = record r { device_id = some str }

unfoldable pub set_service : Text → AuthRequest → AuthRequest
set_service str r = record r { service = some str }

unfoldable pub set_version : Text → AuthRequest → AuthRequest
set_version str r = record r { version = some str }

unfoldable pub set_timestamp : Text → AuthRequest → AuthRequest
set_timestamp str r = record r { timestamp = some str }

unfoldable pub set_sign : Text → AuthRequest → AuthRequest
set_sign str r = record r { sign = some str }

pub record TtsRequest : Type 0 where
  pub id : ℕ
  pub text : Option Text
  pub declaimer : Option Text
  pub codec : Option Text
  pub sample_rate : Option ℕ

unfoldable pub new_tts : TtsRequest
new_tts = record { id = 0; text = none; declaimer = none; codec = none; sample_rate = none }

unfoldable pub set_tts_id : ℕ → TtsRequest → TtsRequest
set_tts_id i r = record r { id = i }

unfoldable pub set_text : Text → TtsRequest → TtsRequest
set_text str r = record r { text = some str }

unfoldable pub set_declaimer : Text → TtsRequest → TtsRequest
set_declaimer str r = record r { declaimer = some str }

unfoldable pub set_tts_codec : Text → TtsRequest → TtsRequest
set_tts_codec str r = record r { codec = some str }

unfoldable pub set_sample_rate : ℕ → TtsRequest → TtsRequest
set_sample_rate i r = record r { sample_rate = some i }

pub record SpeechOptionsEnc : Type 0 where
  pub lang : Lang
  pub codec : Codec
  pub vad_mode : VadMode
  pub vend_timeout : Option ℕ
  pub no_nlp : Bool
  pub no_intermediate_asr : Bool
  pub stack : Option Text
  pub voice_trigger : Option Text
  pub voice_power : Option ℕ
  pub trigger_start : Option ℕ
  pub trigger_length : Option ℕ
  pub skill_options : Option Text
  pub voice_extra : Option Text
  pub vad_begin : Option ℕ
  pub no_trigger_confirm : Option Bool

unfoldable pub new_speech_options : SpeechOptionsEnc
new_speech_options = record {
  lang = Lang.zh;
  codec = Codec.pcm;
  vad_mode = VadMode.local;
  vend_timeout = none;
  no_nlp = false;
  no_intermediate_asr = false;
  stack = none;
  voice_trigger = none;
  voice_power = none;
  trigger_start = none;
  trigger_length = none;
  skill_options = none;
  voice_extra = none;
  vad_begin = none;
  no_trigger_confirm = none;
}

unfoldable pub set_lang : Lang → SpeechOptionsEnc → SpeechOptionsEnc
set_lang x r = record r { lang = x }

unfoldable pub set_speech_codec : Codec → SpeechOptionsEnc → SpeechOptionsEnc
set_speech_codec x r = record r { codec = x }

unfoldable pub set_vad_mode : VadMode → SpeechOptionsEnc → SpeechOptionsEnc
set_vad_mode x r = record r { vad_mode = x }

unfoldable pub set_vend_timeout : ℕ → SpeechOptionsEnc → SpeechOptionsEnc
set_vend_timeout x r = record r { vend_timeout = some x }

unfoldable pub set_no_nlp : Bool → SpeechOptionsEnc → SpeechOptionsEnc
set_no_nlp x r = record r { no_nlp = x }

unfoldable pub set_no_intermediate_asr : Bool → SpeechOptionsEnc → SpeechOptionsEnc
set_no_intermediate_asr x r = record r { no_intermediate_asr = x }

unfoldable pub set_stack : Text → SpeechOptionsEnc → SpeechOptionsEnc
set_stack x r = record r { stack = some x }

unfoldable pub set_voice_trigger : Text → SpeechOptionsEnc → SpeechOptionsEnc
set_voice_trigger x r = record r { voice_trigger = some x }

unfoldable pub set_voice_power : ℕ → SpeechOptionsEnc → SpeechOptionsEnc
set_voice_power x r = record r { voice_power = some x }

unfoldable pub set_trigger_start : ℕ → SpeechOptionsEnc → SpeechOptionsEnc
set_trigger_start x r = record r { trigger_start = some x }

unfoldable pub set_trigger_length : ℕ → SpeechOptionsEnc → SpeechOptionsEnc
set_trigger_length x r = record r { trigger_length = some x }

unfoldable pub set_skill_options : Text → SpeechOptionsEnc → SpeechOptionsEnc
set_skill_options x r = record r { skill_options = some x }

unfoldable pub set_voice_extra : Text → SpeechOptionsEnc → SpeechOptionsEnc
set_voice_extra x r = record r { voice_extra = some x }

unfoldable pub set_vad_begin : ℕ → SpeechOptionsEnc → SpeechOptionsEnc
set_vad_begin x r = record r { vad_begin = some x }

unfoldable pub set_no_trigger_confirm : Bool → SpeechOptionsEnc → SpeechOptionsEnc
set_no_trigger_confirm x r = record r { no_trigger_confirm = some x }

pub record SpeechRequest : Type 0 where
  pub id : ℕ
  pub type : WireType
  pub voice : Option Text
  pub asr : Option Text
  pub options : Option SpeechOptionsEnc

unfoldable pub new_speech : SpeechRequest
new_speech = record { id = 0; type = WireType.wire_start; voice = none; asr = none; options = none }

unfoldable pub set_speech_id : ℕ → SpeechRequest → SpeechRequest
set_speech_id i r = record r { id = i }

unfoldable pub set_type : WireType → SpeechRequest → SpeechRequest
set_type x r = record r { type = x }

unfoldable pub set_voice : Text → SpeechRequest → SpeechRequest
set_voice str r = record r { voice = some str }

unfoldable pub set_asr : Text → SpeechRequest → SpeechRequest
set_asr str r = record r { asr = some str }

-- `mutable_options`, and what is then written through the pointer that it returns.
unfoldable pub mutable_options :
    (SpeechOptionsEnc → SpeechOptionsEnc) → SpeechRequest → SpeechRequest
unfolding new_speech_options
mutable_options f r = record r {
  options = some (f (elim r.options [ none ↦ new_speech_options | some o ↦ o ]));
}

-- ===== src/Nanopb/Encoder/Filled.antt =====
-- The requests that the clients fill, src/common/nanopb_encoder.cc: every field of them is set.
use rokid_openvoice_sdk.Base.{◌≡◌, ◌∙◌, ap, refl, Option, none, some}
use rokid_openvoice_sdk.Connection.Auth
use rokid_openvoice_sdk.Nanopb.Encoder.{
  AuthRequest, SpeechOptionsEnc, SpeechRequest, mutable_options, new_speech_options,
}
use rokid_openvoice_sdk.Nanopb.Encoder.Fills.{
  fill_auth, fill_tts, fill_config, fill_shared, fill_voice,
}
use rokid_openvoice_sdk.Speech.{SpeechOptions}
use rokid_openvoice_sdk.Speech.Options.{
  VoiceOptions, VoiceConfig, SpeechConfig, voice_config, req_config,
}
use rokid_openvoice_sdk.Tts.{Tts, TtsReq}
use rokid_openvoice_sdk.Tts.Options.{wire}

-- The fields of a message of the model.
abbrev auth_fields : Auth.AuthRequest → AuthRequest
auth_fields a = record {
  key = some a.key;
  device_type_id = some a.device_type_id;
  device_id = some a.device_id;
  service = some a.service;
  version = some a.version;
  timestamp = some a.timestamp;
  sign = some a.sign;
}

pub fill_auth-auth_fields : (a : Auth.AuthRequest) → fill_auth a ≡ auth_fields a
unfolding fill_auth
fill_auth-auth_fields a = refl

abbrev pub voice_field {ℓ} : {A : Type ℓ} → Option VoiceConfig → (VoiceConfig → A) → Option A
voice_field none f = none
voice_field (some v) f = some (f v)

-- The fields of a message's options.
abbrev pub config_fields : SpeechConfig → SpeechOptionsEnc
config_fields c = record {
  lang = c.lang;
  codec = c.codec;
  vad_mode = c.vad_mode;
  vend_timeout = some c.vend_timeout;
  no_nlp = c.no_nlp;
  no_intermediate_asr = c.no_intermediate_asr;
  stack = voice_field c.voice (λ v. v.stack);
  voice_trigger = voice_field c.voice (λ v. v.voice_trigger);
  voice_power = voice_field c.voice (λ v. v.voice_power);
  trigger_start = voice_field c.voice (λ v. v.trigger_start);
  trigger_length = voice_field c.voice (λ v. v.trigger_length);
  skill_options = voice_field c.voice (λ v. v.skill_options);
  voice_extra = voice_field c.voice (λ v. v.voice_extra);
  vad_begin = some c.vad_begin;
  no_trigger_confirm = voice_field c.voice (λ v. v.no_trigger_confirm);
}

mutable_options-new :
    (f : SpeechOptionsEnc → SpeechOptionsEnc) (r : SpeechRequest)
    → r.options ≡ none
    → mutable_options f r ≡ record r { options = some (f new_speech_options) }
unfolding mutable_options
mutable_options-new f r e = rw e refl

-- The options of a new message.
filled :
    (v : Option VoiceOptions) (o : SpeechOptions)
    → fill_voice v (fill_shared o new_speech_options) ≡ config_fields (req_config v o)
unfolding fill_voice fill_shared new_speech_options req_config voice_config
filled none o = refl
filled (some v) o = refl

-- The setters that `req_config` calls on a request without options give it those of `SpeechConfig`:
-- every field is present, but for those of the voice when there are no voice options.
pub fill_config-req_config :
    (v : Option VoiceOptions) (o : SpeechOptions) (r : SpeechRequest)
    → r.options ≡ none
    → fill_config v o r ≡ record r { options = some (config_fields (req_config v o)) }
unfolding fill_config
fill_config-req_config v o r e =
    mutable_options-new (λ enc. fill_voice v (fill_shared o enc)) r e
    ∙ ap (λ x. record r { options = some x }) (filled v o)

pub fill_tts-wire :
    (req : TtsReq) (s : Tts)
    → let w = wire req s in
      fill_tts req s.options ≡ record {
        id = w.id;
        text = some w.text;
        declaimer = some w.declaimer;
        codec = some w.codec;
        sample_rate = some w.sample_rate;
      }
unfolding fill_tts wire
fill_tts-wire req s = refl

-- ===== src/Speech/Options.antt =====
-- The options of src/speech/speech_impl.cc: `SpeechOptionsModifier`, `SpeechImpl::config`, and what
-- `req_config` copies into a message. The build is that without
-- HAS_OPUS_CODEC; the log server that `config` sets up is left out; a float is its bit pattern.
use rokid_openvoice_sdk.Base.{
  ℕ, Bool, false, ◌==◌, Option, none, some, [], if◌then◌else◌, has_bit, bit_or, Text,
}
use rokid_openvoice_sdk.Tts.{Codec}
use rokid_openvoice_sdk.Speech.{Lang, VadMode, SpeechOptions, Speech}

-- `SpeechOptionsModifier`: options, and which of them are to be changed.
pub record SpeechOptionsModifier : Type 0 where
  pub held : SpeechOptions
  pub mask : ℕ

unfoldable pub default_options : SpeechOptions
default_options = record {
  lang = Lang.zh;
  codec = Codec.pcm;
  vad_mode = VadMode.local;
  vend_timeout = 0;
  vad_begin = 0;
  log_host = [];
  log_port = 0;
  voice_fragment = 4294967295;
  no_nlp = false;
  no_intermediate_asr = false;
}

unfoldable pub new_modifier : SpeechOptionsModifier
unfolding default_options
new_modifier = record { held = default_options; mask = 0 }

unfoldable pub set_lang : Lang → SpeechOptionsModifier → SpeechOptionsModifier
set_lang x m = record { held = record m.held { lang = x }; mask = bit_or m.mask 1 }

unfoldable pub set_codec : Codec → SpeechOptionsModifier → SpeechOptionsModifier
set_codec x m = record { held = record m.held { codec = x }; mask = bit_or m.mask 2 }

unfoldable pub set_vad_mode : VadMode → ℕ → SpeechOptionsModifier → SpeechOptionsModifier
set_vad_mode x y m = record {
  held = record m.held { vad_mode = x; vend_timeout = y };
  mask = bit_or m.mask 4;
}

unfoldable pub set_no_nlp : Bool → SpeechOptionsModifier → SpeechOptionsModifier
set_no_nlp x m = record { held = record m.held { no_nlp = x }; mask = bit_or m.mask 8 }

unfoldable pub set_no_intermediate_asr : Bool → SpeechOptionsModifier → SpeechOptionsModifier
set_no_intermediate_asr x m = record {
  held = record m.held { no_intermediate_asr = x };
  mask = bit_or m.mask 16;
}

unfoldable pub set_vad_begin : ℕ → SpeechOptionsModifier → SpeechOptionsModifier
set_vad_begin x m = record { held = record m.held { vad_begin = x }; mask = bit_or m.mask 32 }

unfoldable pub set_voice_fragment : ℕ → SpeechOptionsModifier → SpeechOptionsModifier
set_voice_fragment x m = record {
  held = record m.held { voice_fragment = x };
  mask = bit_or m.mask 64;
}

unfoldable pub set_log_server : Text → ℕ → SpeechOptionsModifier → SpeechOptionsModifier
set_log_server x y m = record {
  held = record m.held { log_host = x; log_port = y };
  mask = bit_or m.mask 128;
}

unfoldable pub modify : SpeechOptionsModifier → SpeechOptions → SpeechOptions
modify m o = record {
  lang = if has_bit m.mask 1 then m.held.lang else o.lang;
  codec = if has_bit m.mask 2 then m.held.codec else o.codec;
  vad_mode = if has_bit m.mask 4 then m.held.vad_mode else o.vad_mode;
  vend_timeout = if has_bit m.mask 4 then m.held.vend_timeout else o.vend_timeout;
  vad_begin = if has_bit m.mask 32 then m.held.vad_begin else o.vad_begin;
  log_host = if has_bit m.mask 128 then m.held.log_host else o.log_host;
  log_port = if has_bit m.mask 128 then m.held.log_port else o.log_port;
  voice_fragment = if has_bit m.mask 64 then m.held.voice_fragment else o.voice_fragment;
  no_nlp = if has_bit m.mask 8 then m.held.no_nlp else o.no_nlp;
  no_intermediate_asr =
      if has_bit m.mask 16 then m.held.no_intermediate_asr else o.no_intermediate_asr;
}

-- A null pointer changes nothing.
unfoldable pub config : {V : Type 0} → Option SpeechOptionsModifier → Speech V → Speech V
unfolding modify
config none s = s
config (some m) s = record s { options = modify m s.options }

pub record VoiceOptions : Type 0 where
  pub stack : Text
  pub voice_trigger : Text
  pub trigger_start : ℕ
  pub trigger_length : ℕ
  pub trigger_confirm_by_cloud : ℕ
  pub voice_power : ℕ
  pub skill_options : Text
  pub voice_extra : Text

-- `SpeechOptionsEnc`, as `req_config` fills it; the fields of the voice only where it has options.
pub record VoiceConfig : Type 0 where
  pub stack : Text
  pub voice_trigger : Text
  pub voice_power : ℕ
  pub trigger_start : ℕ
  pub trigger_length : ℕ
  pub no_trigger_confirm : Bool
  pub skill_options : Text
  pub voice_extra : Text

pub record SpeechConfig : Type 0 where
  pub lang : Lang
  pub codec : Codec
  pub vad_mode : VadMode
  pub vend_timeout : ℕ
  pub no_nlp : Bool
  pub no_intermediate_asr : Bool
  pub vad_begin : ℕ
  pub voice : Option VoiceConfig

unfoldable pub voice_config : Option VoiceOptions → Option VoiceConfig
voice_config none = none
voice_config (some v) = some (record {
  stack = v.stack;
  voice_trigger = v.voice_trigger;
  voice_power = v.voice_power;
  trigger_start = v.trigger_start;
  trigger_length = v.trigger_length;
  no_trigger_confirm = v.trigger_confirm_by_cloud == 0;
  skill_options = v.skill_options;
  voice_extra = v.voice_extra;
})

unfoldable pub req_config : Option VoiceOptions → SpeechOptions → SpeechConfig
unfolding voice_config
req_config v o = record {
  lang = o.lang;
  codec = o.codec;
  vad_mode = o.vad_mode;
  vend_timeout = o.vend_timeout;
  no_nlp = o.no_nlp;
  no_intermediate_asr = o.no_intermediate_asr;
  vad_begin = o.vad_begin;
  voice = voice_config v;
}

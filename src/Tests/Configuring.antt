-- ===== src/Tests/Configuring.antt =====
-- The options of both clients on concrete input.
use rokid_openvoice_sdk.Base.{◌≡◌, true, some, List, [], ◌∷◌, codes}
use rokid_openvoice_sdk.Speech.Config
use rokid_openvoice_sdk.Speech.Options
use rokid_openvoice_sdk.Speech.Config.{config-set_all}
use rokid_openvoice_sdk.Tests.Speaking.{cancelled_tts, new_speech}
use rokid_openvoice_sdk.Tts.{Codec, TtsReq}
use rokid_openvoice_sdk.Tts.Options.{
  get_codec_str, Setting, set_all, config, new_modifier, wire, wire-config,
}

abbrev settings : List Setting
settings = Setting.codec Codec.opu2 ∷ Setting.samplerate 16000 ∷ Setting.codec Codec.opu ∷ []

abbrev request : TtsReq
request = record { id = 5; deleted = true; text = codes "hello" }

wire-config_example :
    (config (some (set_all settings new_modifier)) cancelled_tts ≡ record cancelled_tts {
      options = record { codec = Codec.opu; declaimer = []; samplerate = 16000 };
    })
    × (wire request (config (some (set_all settings new_modifier)) cancelled_tts) ≡ record {
      id = 5;
      text = codes "hello";
      declaimer = [];
      codec = codes "opu";
      sample_rate = 16000;
    })
unfolding get_codec_str
wire-config_example = wire-config settings request cancelled_tts

abbrev speech_settings : List Config.Setting
speech_settings =
    Config.Setting.voice_fragment_to 5
    ∷ Config.Setting.no_nlp_to true
    ∷ Config.Setting.voice_fragment_to 9
    ∷ []

config-set_all_example :
    Options.config (some (Config.set_all speech_settings Options.new_modifier)) new_speech
    ≡ record new_speech {
      options = record new_speech.options { voice_fragment = 9; no_nlp = true };
    }
config-set_all_example = config-set_all speech_settings new_speech

-- ===== src/Nanopb/Encoder/Fills.antt =====
-- The calls of the setters of the requests (src/common/nanopb_encoder.cc) in `SpeechConnection::auth`,
-- `TtsImpl::do_request` and `SpeechImpl::req_config`.
use rokid_openvoice_sdk.Base.{◌==◌, Option, none, some}
use rokid_openvoice_sdk.Connection.Auth
use rokid_openvoice_sdk.Speech.{SpeechOptions}
use rokid_openvoice_sdk.Speech.Options.{VoiceOptions}
use rokid_openvoice_sdk.Tts.{TtsReq, TtsOptions}
use rokid_openvoice_sdk.Tts.Options.{get_codec_str}
use rokid_openvoice_sdk.Nanopb.Encoder.{
  AuthRequest, TtsRequest, SpeechOptionsEnc, SpeechRequest, new_auth, set_key, set_device_type_id,
  set_device_id, set_service, set_version, set_timestamp, set_sign, new_tts, set_tts_id, set_text,
  set_declaimer, set_tts_codec, set_sample_rate, set_lang, set_speech_codec, set_vad_mode,
  set_vend_timeout, set_no_nlp, set_no_intermediate_asr, set_stack, set_voice_trigger,
  set_voice_power, set_trigger_start, set_trigger_length, set_skill_options, set_voice_extra,
  set_vad_begin, set_no_trigger_confirm, mutable_options,
}

-- The calls of the setters in `SpeechConnection::auth`.
unfoldable pub fill_auth : Auth.AuthRequest → AuthRequest
unfolding new_auth set_key set_device_type_id set_device_id set_service set_version set_timestamp
    set_sign
fill_auth a = set_sign a.sign (
    set_timestamp a.timestamp (
      set_version a.version (
        set_service a.service (
          set_device_id a.device_id
            (set_device_type_id a.device_type_id (set_key a.key new_auth))))))

-- Those in `TtsImpl::do_request`.
unfoldable pub fill_tts : TtsReq → TtsOptions → TtsRequest
unfolding new_tts set_tts_id set_text set_declaimer set_tts_codec set_sample_rate
fill_tts req o = set_sample_rate o.samplerate (
    set_tts_codec (get_codec_str o.codec)
      (set_declaimer o.declaimer (set_text req.text (set_tts_id req.id new_tts))))

-- Those in `SpeechImpl::req_config`, built without HAS_OPUS_CODEC.
unfoldable pub fill_shared : SpeechOptions → SpeechOptionsEnc → SpeechOptionsEnc
unfolding set_lang set_speech_codec set_vad_mode set_vend_timeout set_no_nlp set_no_intermediate_asr
    set_vad_begin
fill_shared o enc = set_vad_begin o.vad_begin (
    set_no_intermediate_asr o.no_intermediate_asr (
      set_no_nlp o.no_nlp (
        set_vend_timeout o.vend_timeout
          (set_vad_mode o.vad_mode (set_speech_codec o.codec (set_lang o.lang enc))))))

unfoldable pub fill_voice : Option VoiceOptions → SpeechOptionsEnc → SpeechOptionsEnc
unfolding set_stack set_voice_trigger set_voice_power set_trigger_start set_trigger_length
    set_no_trigger_confirm set_skill_options set_voice_extra
fill_voice none enc = enc
fill_voice (some v) enc = set_voice_extra v.voice_extra (
    set_skill_options v.skill_options (
      set_no_trigger_confirm (v.trigger_confirm_by_cloud == 0) (
        set_trigger_length v.trigger_length (
          set_trigger_start v.trigger_start (
            set_voice_power v.voice_power
              (set_voice_trigger v.voice_trigger (set_stack v.stack enc)))))))

unfoldable pub fill_config : Option VoiceOptions → SpeechOptions → SpeechRequest → SpeechRequest
unfolding mutable_options fill_shared fill_voice
fill_config v o r = mutable_options (λ enc. fill_voice v (fill_shared o enc)) r

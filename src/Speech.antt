-- ===== src/Speech.antt =====
-- The speech client, class `SpeechImpl` of src/speech/speech_impl.cc: its state, and the calls
-- that a client makes but `put_voice`, `poll` and `config`.
--
-- As in Tts.antt, a function is what one thread does while it holds the mutexes, `none` is a fault,
-- and conditions are counters of the calls of `notify_one`. `V` stands for `VoiceOptions`, which is
-- only copied.
pub mod Voice
pub mod Requests
pub mod Results
pub mod Poll
pub mod Sound
pub mod Receive
pub mod Steps
pub mod Options
pub mod Config
use rokid_openvoice_sdk.Base.{
  ℕ, suc, ◌+◌, Bool, true, false, not, ◌||◌, ◌&&◌, Option, none, some, List, [], ◌∷◌, ◌++◌, ltb,
  ◌==◌, if◌then◌else◌, ◌>>=◌, ◌>>◌, assert, add32, is_positive,
}
use rokid_openvoice_sdk.OpCtl
use rokid_openvoice_sdk.OpCtl.{Controller, Status}
use rokid_openvoice_sdk.Stream
use rokid_openvoice_sdk.Stream.{Queue}
use rokid_openvoice_sdk.Trace.{Traces}
use rokid_openvoice_sdk.Tts.{Text, Codec, minus_one}

pub data ReqType : Type 0 where
  text voice_start voice_end cancelled voice_data : ReqType

-- `SpeechReqInfo`.
pub record SpeechReq (V : Type 0) : Type 0 where
  pub id : ℕ
  pub type : ReqType
  pub content : Option Text
  pub options : Option V

-- `SpeechResultIn`.
pub record ResultIn : Type 0 where
  pub asr : Text
  pub nlp : Text
  pub action : Text
  pub extra : Text
  pub voice_trigger : Text
  pub asr_finish : Bool

-- `SpeechError`.
abbrev pub speech_success : ℕ
speech_success = 0

abbrev pub speech_service_unavailable : ℕ
speech_service_unavailable = 101

abbrev pub speech_sdk_closed : ℕ
speech_sdk_closed = 102

abbrev pub speech_timeout : ℕ
speech_timeout = 103

abbrev pub speech_unknown : ℕ
speech_unknown = 104

pub data Lang : Type 0 where
  zh en : Lang

pub data VadMode : Type 0 where
  local cloud : VadMode

-- `SpeechOptionsHolder`.
pub record SpeechOptions : Type 0 where
  pub lang : Lang
  pub codec : Codec
  pub vad_mode : VadMode
  pub vend_timeout : ℕ
  pub vad_begin : ℕ
  pub log_host : Text
  pub log_port : ℕ
  pub voice_fragment : ℕ
  pub no_nlp : Bool
  pub no_intermediate_asr : Bool

pub record Speech (V : Type 0) : Type 0 where
  pub initialized : Bool
  pub next_id : ℕ
  pub options : SpeechOptions
  pub text_reqs : List (SpeechReq V)
  pub voice_reqs : Queue Text V
  pub responses : Queue ResultIn ℕ
  pub controller : Controller
  pub traces : Traces
  pub req_notified : ℕ
  pub resp_notified : ℕ

module _ {V : Type 0} where
  abbrev pub notify_req : Speech V → Speech V
  notify_req s = record s { req_notified = suc s.req_notified }

  abbrev pub notify_resp : Speech V → Speech V
  notify_resp s = record s { resp_notified = suc s.resp_notified }

  unfoldable pub prepare : Speech V → Speech V × Bool
  prepare s =
      if s.initialized then (s, true) else (record s { next_id = 0; initialized = true }, true)

  -- `release` up to the join of the sending thread.
  unfoldable pub release_begin : Speech V → Speech V
  release_begin s =
      if s.initialized
      then record (notify_req s) {
        initialized = false;
        voice_reqs = Stream.close s.voice_reqs;
        text_reqs = [];
        controller = OpCtl.set_op_error speech_sdk_closed s.controller;
      }
      else s

  -- The rest of it, for a client that was initialized.
  unfoldable pub release_end : Speech V → Speech V
  release_end s =
      notify_resp (record s {
        responses = Stream.close s.responses;
        controller = OpCtl.finish_op s.controller;
      })

  unfoldable pub put_text : Option Text → Option V → Speech V → Speech V × ℕ
  put_text none options s = (s, minus_one)
  put_text (some content) options s =
      let id = add32 s.next_id 1 in
      let req : SpeechReq V = record {
        id = id;
        type = text;
        content = some content;
        options = options;
      } in
      if not s.initialized
      then (s, minus_one)
      else (notify_req (record s { next_id = id; text_reqs = s.text_reqs ++ req ∷ [] }), id)

  unfoldable pub start_voice : Option V → Speech V → Option (Speech V × ℕ)
  start_voice options s =
      let id = add32 s.next_id 1 in
      let (q, started) = Stream.start id s.voice_reqs in
      if not s.initialized
      then some (s, minus_one)
      else if not started
      then some (record s { next_id = id; voice_reqs = q }, minus_one)
      else (do
        q' ← Stream.set_arg id options q
        some (notify_req (record s { next_id = id; voice_reqs = q' }), id))

  unfoldable pub end_voice : ℕ → Speech V → Option (Speech V)
  end_voice id s = if not s.initialized || not (is_positive id) then some s else (do
    (q, ended) ← Stream.end id none s.voice_reqs
    let s' = record s { voice_reqs = q }
    some (if ended then notify_req s' else s'))

  -- The loops of `cancel` over the text requests.
  unfoldable pub cancel_text : ℕ → List (SpeechReq V) → List (SpeechReq V) × Bool
  cancel_text id [] = ([], false)
  cancel_text id (r ∷ rs) =
      let (rest, found) = cancel_text id rs in
      if r.id == id then (record r { type = cancelled } ∷ rs, true) else (r ∷ rest, found)

  unfoldable pub cancel_texts : List (SpeechReq V) → List (SpeechReq V)
  cancel_texts [] = []
  cancel_texts (r ∷ rs) = record r { type = cancelled } ∷ cancel_texts rs

  unfoldable pub cancel_one : ℕ → Speech V → Option (Speech V)
  unfolding cancel_text
  cancel_one id s = do
    (q, erased) ← Stream.erase id 0 s.voice_reqs
    let (texts, found) = cancel_text id s.text_reqs
    let s' = record s { voice_reqs = q }
    some (
        if erased
        then notify_req s'
        else if found
        then record s' { text_reqs = texts }
        else record s' { controller = OpCtl.cancel_op id s.controller })

  unfoldable pub cancel_all : Speech V → Option (Speech V)
  unfolding cancel_texts
  cancel_all s = do
    (q, (min_id, max_id)) ← Stream.clear s.voice_reqs
    let s' = record s {
      voice_reqs = q;
      text_reqs = cancel_texts s.text_reqs;
      controller = OpCtl.cancel_op 0 s.controller;
    }
    some (if is_positive min_id then notify_req s' else s')

  unfoldable pub cancel : ℕ → Speech V → Option (Speech V)
  unfolding cancel_one cancel_all
  cancel id s =
      if not s.initialized then some s else if is_positive id then cancel_one id s else cancel_all s

  unfoldable pub erase_req : ℕ → Speech V → Option (Speech V)
  erase_req id s = do
    (q, erased) ← Stream.erase id speech_timeout s.voice_reqs
    let s' = record s { voice_reqs = q }
    some (if erased then notify_req s' else s')

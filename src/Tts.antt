-- ===== src/Tts.antt =====
-- The text to speech client, class `TtsImpl` of src/tts/tts_impl.cc.
--
-- Each function below is what one thread does while it holds the mutexes: `speak`, `cancel`,
-- `config` and `poll` are the caller's, `send_take`, `do_request` and `send_waits` are the parts of
-- `send_reqs`, and `gen_results` is one round of the thread of that name. A round of `poll` that
-- would block says `waits`. `none` is a fault: a failed assertion or a null dereference. The
-- connection is outside: what `send` and `recv` return is an argument. `now` is the steady clock,
-- `wall` the system clock. Conditions are counters of the calls of `notify_one`.
pub mod Polling
pub mod Requests
pub mod Results
pub mod Receive
pub mod Poll
pub mod Options
pub mod Track
pub mod Run
use rokid_openvoice_sdk.Base.{
  ℕ, suc, ◌+◌, Bool, true, false, not, ◌||◌, ◌&&◌, Option, none, some, List, [], ◌∷◌, ◌++◌, ◌==◌,
  if◌then◌else◌, ◌>>=◌, ◌>>◌, assert, add32, is_positive,
}
use rokid_openvoice_sdk.OpCtl
use rokid_openvoice_sdk.OpCtl.{Controller, Status, Operation}
use rokid_openvoice_sdk.Stream
use rokid_openvoice_sdk.Stream.{
  Queue, Out, PopType, pop_empty, pop_data, pop_start, pop_end, pop_removed, pop_error,
}
use rokid_openvoice_sdk.Trace
use rokid_openvoice_sdk.Trace.{Traces}
pub use rokid_openvoice_sdk.Base.{Text}
pub use rokid_openvoice_sdk.Connection.{
  ConnectionResult, success, invalid_pb_obj, connection_not_available, not_ready, invalid_pb_data,
  connection_broken, timeout,
}

pub data Codec : Type 0 where
  pcm opu opu2 mp3 : Codec

pub record TtsOptions : Type 0 where
  pub codec : Codec
  pub declaimer : Text
  pub samplerate : ℕ

-- `TtsReqInfo`.
pub record TtsReq : Type 0 where
  pub id : ℕ
  pub deleted : Bool
  pub text : Text

-- `TtsResultIn`, and the decoded `TtsResponse`.
pub record TtsResultIn : Type 0 where
  pub voice : Option Text
  pub text : Option Text

pub record TtsResponse : Type 0 where
  pub id : ℕ
  pub voice : Option Text
  pub text : Option Text
  pub finish : Bool

pub data TtsResultType : Type 0 where
  voice_result start_result end_result cancelled_result error_result : TtsResultType

pub record TtsResult : Type 0 where
  pub id : ℕ
  pub type : TtsResultType
  pub err : ℕ
  pub voice : Option Text
  pub text : Option Text

pub record Tts : Type 0 where
  pub initialized : Bool
  pub next_id : ℕ
  pub options : TtsOptions
  pub requests : List TtsReq
  pub responses : Queue TtsResultIn ℕ
  pub controller : Controller
  pub traces : Traces
  pub req_notified : ℕ
  pub resp_notified : ℕ

abbrev pub minus_one : ℕ
minus_one = 4294967295

-- `TtsError`.
abbrev pub tts_success : ℕ
tts_success = 0

abbrev pub tts_service_unavailable : ℕ
tts_service_unavailable = 101

abbrev pub tts_timeout : ℕ
tts_timeout = 103

abbrev pub tts_unknown : ℕ
tts_unknown = 104

abbrev pub notify_req : Tts → Tts
notify_req s = record s { req_notified = suc s.req_notified }

abbrev pub notify_resp : Tts → Tts
notify_resp s = record s { resp_notified = suc s.resp_notified }

unfoldable pub prepare : Tts → Tts × Bool
prepare s =
    if s.initialized then (s, true) else (record s { next_id = 0; initialized = true }, true)

-- `release` up to the join of the sending thread.
unfoldable pub release_begin : Tts → Tts
release_begin s =
    if s.initialized then notify_req (record s { initialized = false; requests = [] }) else s

-- The rest of it, for a client that was initialized.
unfoldable pub release_end : Tts → Tts
release_end s =
    notify_resp
      (record s { responses = Stream.close s.responses; controller = OpCtl.finish_op s.controller })

unfoldable pub speak : Text → Tts → Tts × ℕ
speak text s =
    let id = add32 s.next_id 1 in
    if not s.initialized then (s, minus_one) else (
      notify_req (record s {
        next_id = id;
        requests = s.requests ++ record { id = id; deleted = false; text = text } ∷ [];
      }),
      id,
    )

-- The loop of `cancel`: the requests, marked, and `erased`.
unfoldable pub mark_deleted : ℕ → List TtsReq → List TtsReq × Bool
mark_deleted id [] = ([], false)
mark_deleted id (r ∷ rs) =
    let (marked, erased) = mark_deleted id rs in
    if not (is_positive id) || r.id == id
    then (record r { deleted = true } ∷ marked, true)
    else (r ∷ marked, erased)

unfoldable pub cancel : ℕ → Tts → Tts
unfolding mark_deleted
cancel id s =
    let (marked, erased) = mark_deleted id s.requests in
    let ctl =
      if not (is_positive id)
      then OpCtl.cancel_op 0 s.controller
      else if not erased
      then OpCtl.cancel_op id s.controller
      else s.controller in
    if not s.initialized then s else record s { requests = marked; controller = ctl }

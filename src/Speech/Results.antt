-- ===== src/Speech/Results.antt =====
-- The receiving thread of `SpeechImpl` (src/speech/speech_impl.cc): `gen_result_by_resp` and
-- `gen_results`.
use rokid_openvoice_sdk.Base.{
  ℕ, true, false, Option, none, some, [], not, ◌&&◌, ◌==◌, if◌then◌else◌, ◌>>=◌, is_positive,
  is_empty,
}
use rokid_openvoice_sdk.OpCtl
use rokid_openvoice_sdk.OpCtl.{Operation, Status}
use rokid_openvoice_sdk.Stream
use rokid_openvoice_sdk.Trace
use rokid_openvoice_sdk.Tts.{Text, ConnectionResult, success, not_ready, timeout, connection_broken}
use rokid_openvoice_sdk.Speech.{
  ResultIn, Speech, notify_resp, erase_req, speech_service_unavailable, speech_timeout,
  speech_unknown,
}
use rokid_openvoice_sdk.Speech.Requests.{fail_op}

-- `SpeechResponse.type`, and any other number.
pub data RespType : Type 0 where
  intermediate asr_finished finished invalid : RespType

-- The decoded `SpeechResponse`; a `result` of 0 is SUCCESS.
pub record Response : Type 0 where
  pub id : ℕ
  pub type : RespType
  pub result : ℕ
  pub asr : Text
  pub nlp : Text
  pub action : Text
  pub extra : Text
  pub voice_trigger : Text

abbrev pub no_result : ResultIn
no_result = record {
  asr = [];
  nlp = [];
  action = [];
  extra = [];
  voice_trigger = [];
  asr_finish = false;
}

-- The content of the end of a stream.
abbrev pub final_result : Response → ResultIn
final_result resp = record no_result {
  asr = resp.asr;
  nlp = resp.nlp;
  action = resp.action;
  voice_trigger = resp.voice_trigger;
}

module _ {V : Type 0} where
  abbrev pub with_status : ℕ → Status → Speech V → Speech V
  with_status h st s = record s {
    controller = record s.controller {
      store = OpCtl.write h (OpCtl.with_status st) s.controller.store;
    };
  }

  abbrev pub stream_resp : ℕ → ResultIn → Speech V → Option (Speech V)
  stream_resp id r s =
      Stream.stream id (some r) s.responses >>= λ (q, b). some (record s { responses = q })

  unfoldable pub resp_started : ℕ → Response → Speech V → Speech V
  resp_started h resp s =
      if OpCtl.is_start (s.controller.store h).status
      then with_status h Status.streaming
          (record s { responses = (Stream.start resp.id s.responses).0 })
      else s

  unfoldable pub resp_extra : Response → Speech V → Option (Speech V)
  resp_extra resp s =
      if is_empty resp.extra
      then some s
      else stream_resp resp.id (record no_result { extra = resp.extra }) s

  abbrev pub finish_traced : ℕ → Speech V → Speech V
  finish_traced wall s = record s { traces = Trace.finish_cur_req wall s.traces }

  abbrev pub finish_op : Speech V → Speech V
  finish_op s = record s { controller = OpCtl.finish_op s.controller }

  -- A response of type FINISH: the stream ends with its result, or fails with its code.
  unfoldable pub resp_finished : ℕ → Response → Speech V → Option (Speech V)
  resp_finished h resp s =
      if resp.result == 0
      then (Stream.end resp.id (some (final_result resp)) s.responses >>= λ (q, b).
          some (finish_op (with_status h Status.ended (record s { responses = q }))))
      else (Stream.erase resp.id resp.result s.responses >>= λ (q, b).
          some (finish_op (record s { responses = q })))

  -- The `switch`, and what follows it.
  unfoldable pub resp_typed : ℕ → Response → ℕ → Speech V → Option (Speech V)
  unfolding resp_finished
  resp_typed h resp wall s =
      let r = record no_result { asr = resp.asr; voice_trigger = resp.voice_trigger } in
      elim resp.type [
        | intermediate ↦ stream_resp resp.id r s >>= λ s'. some (notify_resp s')
        | asr_finished ↦
            stream_resp resp.id (record r { asr_finish = true }) s >>= λ s'. some (notify_resp s')
        | finished ↦ do
          s' ← resp_finished h resp s
          let s'' = notify_resp (finish_traced wall s')
          if is_positive resp.id then erase_req resp.id s'' else some s''
        | invalid ↦ some s
      ]

  -- With the operation that is current.
  unfoldable pub resp_at : Option ℕ → Response → ℕ → Speech V → Option (Speech V)
  unfolding resp_started resp_extra resp_typed
  resp_at none resp wall s = some s
  resp_at (some h) resp wall s =
      let op = s.controller.store h in
      if op.id == resp.id && not (OpCtl.is_final op.status)
      then (resp_extra resp (resp_started h resp s) >>= λ s'. resp_typed h resp wall s')
      else some s

  unfoldable pub gen_result_by_resp : Response → ℕ → Speech V → Option (Speech V)
  unfolding resp_at
  gen_result_by_resp resp wall s = resp_at s.controller.current resp wall s

  -- A failed operation, its request erased and its trace finished; `h` is the operation that was
  -- current.
  unfoldable pub abort : ℕ → Option ℕ → ℕ → Speech V → Option (Speech V)
  abort err none wall s = some (fail_op err s)
  abort err (some h) wall s = do
    s' ← erase_req (s.controller.store h).id (fail_op err s)
    some (finish_traced wall s')

  -- A round after a `recv` that timed out: the second test of the operation's time.
  unfoldable pub timed_out : Option ℕ → ℕ → ℕ → Speech V → Option (Speech V)
  unfolding abort
  timed_out cur now wall s =
      if OpCtl.op_timeout now s.controller == 0
      then (cur >>= λ h. abort speech_timeout (some h) wall s)
      else some s

  -- A round after `recv`, given what it returned; `none` in the state's place says that the
  -- thread quits.
  unfoldable pub gen_results :
      ConnectionResult → Response → ℕ → ℕ → Speech V → Option (Option (Speech V))
  unfolding gen_result_by_resp timed_out
  gen_results r resp now wall s =
      let cur = s.controller.current in
      let refreshed = record s { controller = OpCtl.refresh_op_time true now s.controller } in
      elim r [
        | not_ready ↦ some none
        | success ↦ gen_result_by_resp resp wall refreshed >>= λ s'. some (some s')
        | timeout ↦ timed_out cur now wall s >>= λ s'. some (some s')
        | connection_broken ↦ abort speech_service_unavailable cur wall s >>= λ s'. some (some s')
        | _ ↦ abort speech_unknown cur wall s >>= λ s'. some (some s')
      ]

-- ===== src/Tts/Results.antt =====
-- The receiving thread of `TtsImpl` (src/tts/tts_impl.cc): `gen_result_by_resp` and `gen_results`.
use rokid_openvoice_sdk.Base.{
  ℕ, Bool, true, false, ◌||◌, Option, none, some, ◌==◌, if◌then◌else◌, ◌>>=◌,
}
use rokid_openvoice_sdk.OpCtl
use rokid_openvoice_sdk.OpCtl.{Controller, Status, Operation}
use rokid_openvoice_sdk.Stream
use rokid_openvoice_sdk.Stream.{
  Queue, Out, PopType, pop_empty, pop_data, pop_start, pop_end, pop_removed, pop_error,
}
use rokid_openvoice_sdk.Trace
use rokid_openvoice_sdk.Trace.{Traces}
use rokid_openvoice_sdk.Tts.{
  TtsResponse, ConnectionResult, success, not_ready, connection_broken, timeout, Tts,
  tts_service_unavailable, tts_timeout, tts_unknown, notify_resp,
}
use rokid_openvoice_sdk.Tts.Requests.{fail_op}

abbrev pub with_status : ℕ → Status → Tts → Tts
with_status h st s = record s {
  controller = record s.controller {
    store = OpCtl.write h (OpCtl.with_status st) s.controller.store;
  };
}

abbrev pub is_some {ℓ} : {A : Type ℓ} → Option A → Bool
is_some none = false
is_some (some a) = true

-- The parts of `gen_result_by_resp`: the stream's start, its voice, and its end.
unfoldable pub resp_started : ℕ → Operation → TtsResponse → Tts → Tts
resp_started h op resp s =
    if OpCtl.is_start op.status
    then with_status h Status.streaming
        (record s { responses = (Stream.start resp.id s.responses).0 })
    else s

unfoldable pub resp_voiced : TtsResponse → Tts → Option Tts
resp_voiced resp s =
    if is_some resp.voice
    then (do
      (q, b) ←
          Stream.stream resp.id (some (record { voice = resp.voice; text = resp.text })) s.responses
      some (record s { responses = q }))
    else some s

unfoldable pub resp_finished : ℕ → TtsResponse → ℕ → Tts → Option Tts
resp_finished h resp wall s =
    if resp.finish
    then (do
      (q, b) ← Stream.end resp.id none s.responses
      let marked =
          if OpCtl.is_final (s.controller.store h).status
          then record s { responses = q }
          else with_status h Status.ended (record s { responses = q })
      some (record marked {
        controller = OpCtl.finish_op marked.controller;
        traces = Trace.finish_cur_req wall s.traces;
      }))
    else some s

-- `notify_one` when `new_data` is set.
unfoldable pub resp_notified : Operation → TtsResponse → Tts → Tts
resp_notified op resp s =
    if OpCtl.is_start op.status || (is_some resp.voice || resp.finish) then notify_resp s else s

-- With the operation that is current.
unfoldable pub resp_at : Option ℕ → TtsResponse → ℕ → Tts → Option Tts
unfolding resp_started resp_voiced resp_finished resp_notified
resp_at none resp wall s = some s
resp_at (some h) resp wall s =
    let op = s.controller.store h in
    if op.id == resp.id
    then (resp_voiced resp (resp_started h op resp s) >>= λ s2.
        resp_finished h resp wall s2 >>= λ s3. some (resp_notified op resp s3))
    else some s

unfoldable pub gen_result_by_resp : TtsResponse → ℕ → Tts → Option Tts
unfolding resp_at
gen_result_by_resp resp wall s = resp_at s.controller.current resp wall s

-- A failed operation and its trace.
abbrev pub abort : ℕ → ℕ → Tts → Tts
abort err wall s = record (fail_op err s) { traces = Trace.finish_cur_req wall s.traces }

-- A round of `gen_results` after a `recv` that timed out: the second test of the operation's time,
-- and the identifier of the current operation.
unfoldable pub timed_out : Option ℕ → ℕ → ℕ → Tts → Option Tts
timed_out cur now wall s =
    if OpCtl.op_timeout now s.controller == 0
    then (cur >>= λ h. some (abort tts_timeout wall s))
    else some s

-- A round of `gen_results` after `recv`, given what it returned and, on success, its response;
-- `none` in the state's place says that the thread quits.
unfoldable pub gen_results : ConnectionResult → TtsResponse → ℕ → ℕ → Tts → Option (Option Tts)
unfolding gen_result_by_resp timed_out
gen_results r resp now wall s =
    let refreshed = record s { controller = OpCtl.refresh_op_time true now s.controller } in
    elim r [
      | not_ready ↦ some none
      | success ↦ gen_result_by_resp resp wall refreshed >>= λ s'. some (some s')
      | timeout ↦ timed_out s.controller.current now wall s >>= λ s'. some (some s')
      | connection_broken ↦ some (some (abort tts_service_unavailable wall s))
      | _ ↦ some (some (abort tts_unknown wall s))
    ]

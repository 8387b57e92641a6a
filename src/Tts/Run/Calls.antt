-- ===== src/Tts/Run/Calls.antt =====
-- A round of the receiving thread of `TtsImpl` (src/tts/tts_impl.cc), whatever `recv` returns, and
-- the result of a request, as steps of the client.
use rokid_openvoice_sdk.Base.{
  ℕ, ◌≡◌, refl, Bool, true, Option, none, some, ◌==◌, ◌>>=◌, Bool-cases, inl, inr,
}
use rokid_openvoice_sdk.OpCtl
use rokid_openvoice_sdk.OpCtl.Invariant.{
  WellFormed, set_op_error-WellFormed, refresh_op_time-WellFormed,
}
use rokid_openvoice_sdk.OpCtl.Relaxes.{set_op_error-Relaxes, refresh_op_time-Relaxes}
use rokid_openvoice_sdk.OpCtl.Timeout.{op_timeout-idle}
use rokid_openvoice_sdk.Tts.{
  Tts, TtsResponse, ConnectionResult, success, invalid_pb_obj, connection_not_available, not_ready,
  invalid_pb_data, connection_broken, timeout, tts_timeout, tts_service_unavailable, tts_unknown,
}
use rokid_openvoice_sdk.Tts.Requests.{fail_op}
use rokid_openvoice_sdk.Tts.Results.{gen_result_by_resp, abort, timed_out, gen_results}
use rokid_openvoice_sdk.Tts.Run.Handles.{Leaves, resp_at-Leaves}
use rokid_openvoice_sdk.Tts.Run.Serves.{Serves, Serves-refl, Serves-trans}
use rokid_openvoice_sdk.Tts.Track.Begins.{Gives}
use rokid_openvoice_sdk.Tts.Track.Reports.{Tracked}
use rokid_openvoice_sdk.Tts.Track.Responds.{gen_result_by_resp-Gives}
use rokid_openvoice_sdk.Tts.Track.Settles.{Tracked-Keeps, set_op_error-Keeps, refresh_op_time-Keeps}

-- A step that keeps the streams of responses matched.
abbrev pub Served : Tts → Tts → Type 0
Served s t = Serves s t × Tracked t

-- A round of the receiving thread that meets no fault: the thread quits, or leaves such a client.
abbrev pub Received : Tts → Option (Option Tts) → Type 0
Received s none = ⊥
Received s (some none) = Unit
Received s (some (some t)) = Served s t

pub fail_op-Served :
    (err : ℕ) (s : Tts) → WellFormed s.controller → Tracked s → Served s (fail_op err s)
fail_op-Served err s w k = (
  record {
    well = set_op_error-WellFormed err s.controller w;
    relaxes = set_op_error-Relaxes err s.controller;
    ascends = λ m a. a;
  },
  Tracked-Keeps s (OpCtl.set_op_error err s.controller) (set_op_error-Keeps err s.controller) k,
)

abort-Served :
    (err wall : ℕ) (s : Tts) → WellFormed s.controller → Tracked s → Served s (abort err wall s)
abort-Served err wall s w k =
    let (v, k') = fail_op-Served err s w k in
    (record { well = v.well; relaxes = v.relaxes; ascends = v.ascends }, k')

pub refresh-Served :
    (recv : Bool) (now : ℕ) (s : Tts)
    → WellFormed s.controller
    → Tracked s
    → Served s (record s { controller = OpCtl.refresh_op_time recv now s.controller })
refresh-Served recv now s w k = (
  record {
    well = refresh_op_time-WellFormed recv now s.controller w;
    relaxes = refresh_op_time-Relaxes recv now s.controller;
    ascends = λ m a. a;
  },
  Tracked-Keeps s (OpCtl.refresh_op_time recv now s.controller)
      (refresh_op_time-Keeps recv now s.controller) k,
)

both :
    (s t : Tts) (m : Option Tts)
    → Serves s t
    → Leaves (Serves t) m
    → Gives Tracked m
    → Received s (m >>= λ u. some (some u))
both s t none v l g = absurd g
both s t (some u) v l g = (Serves-trans s t u v l, g)

timed_out-Received :
    (cur : Option ℕ) (now wall : ℕ) (s : Tts)
    → s.controller.current ≡ cur
    → WellFormed s.controller
    → Tracked s
    → Received s (timed_out cur now wall s >>= λ t. some (some t))
unfolding timed_out
timed_out-Received none now wall s e w k =
    rw (op_timeout-idle now s.controller e) (Serves-refl s w, k)
timed_out-Received (some h) now wall s e w k =
    elim (Bool-cases (OpCtl.op_timeout now s.controller == 0)) [
      | inl b ↦ simp b (abort-Served tts_timeout wall s w k)
      | inr b ↦ simp b (Serves-refl s w, k)
    ]

pub gen_results-Received :
    (c : ConnectionResult) (resp : TtsResponse) (now wall : ℕ) (s : Tts)
    → WellFormed s.controller
    → Tracked s
    → Received s (gen_results c resp now wall s)
unfolding gen_results gen_result_by_resp
gen_results-Received success resp now wall s w k =
    let t = record s { controller = OpCtl.refresh_op_time true now s.controller } in
    let (v, k') = refresh-Served true now s w k in
    both s t _ v (resp_at-Leaves t.controller.current resp wall t v.well)
      (gen_result_by_resp-Gives resp wall t v.well.listed k')
gen_results-Received timeout resp now wall s w k =
    timed_out-Received s.controller.current now wall s refl w k
gen_results-Received not_ready resp now wall s w k = tt
gen_results-Received connection_broken resp now wall s w k =
    abort-Served tts_service_unavailable wall s w k
gen_results-Received invalid_pb_obj resp now wall s w k = abort-Served tts_unknown wall s w k
gen_results-Received connection_not_available resp now wall s w k =
    abort-Served tts_unknown wall s w k
gen_results-Received invalid_pb_data resp now wall s w k = abort-Served tts_unknown wall s w k

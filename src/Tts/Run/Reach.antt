-- ===== src/Tts/Run/Reach.antt =====
-- What the threads of `TtsImpl` (src/tts/tts_impl.cc) and its clients lead to, from `prepare`.
use rokid_openvoice_sdk.Base.{ℕ, refl, subst, some, [], arith}
use rokid_openvoice_sdk.OpCtl
use rokid_openvoice_sdk.OpCtl.{Controller}
use rokid_openvoice_sdk.OpCtl.Invariant.{WellFormed, init-WellFormed}
use rokid_openvoice_sdk.Stream.Refine.{empty-Refines}
use rokid_openvoice_sdk.Tts.{TtsResponse, ConnectionResult, prepare, speak, cancel}
use rokid_openvoice_sdk.Tts.Polling.{poll}
use rokid_openvoice_sdk.Tts.Results.{gen_results}
use rokid_openvoice_sdk.Tts.Run.{
  idle, Run, new_tts, Step, speaks, cancels, configures, takes, begins, requests, wakes, receives,
  polls, releases, Reaches, prepares, goes,
}
use rokid_openvoice_sdk.Tts.Run.Asks.{speak-Serves, speak-Tracked, cancel-Serves}
use rokid_openvoice_sdk.Tts.Run.Takes.{send_take-Sane}
use rokid_openvoice_sdk.Tts.Run.Calls.{Received, gen_results-Received}
use rokid_openvoice_sdk.Tts.Run.Serves.{Sane, Serves-Sane}
use rokid_openvoice_sdk.Tts.Track.Reports.{Polled, poll-Polled}
use rokid_openvoice_sdk.Tts.Track.Settles.{cancel-Tracked}
use rokid_openvoice_sdk.Tts.Run.Moves.{
  polled-Sane, configured-Sane, begun-Sane, requested-Sane, woken-Sane, received-Sane,
  released-Sane,
}

Step-Sane : (r t : Run) → Step r t → Sane r → Sane t
Step-Sane _ _ (speaks text s p l) w =
    Serves-Sane s (speak text s).0 p p (speak-Serves text s l w.well)
      (speak-Tracked text s w.tracked) (λ id a. a) w
Step-Sane _ _ (cancels id s p) w =
    Serves-Sane s (cancel id s) p p (cancel-Serves id s w.well) (cancel-Tracked id s w.tracked)
      (λ id a. a) w
Step-Sane _ _ (configures m s p) w = configured-Sane m s p w
Step-Sane _ _ (takes now s) w = send_take-Sane now s w
Step-Sane _ _ (begins wall req s) w = begun-Sane wall req s w
Step-Sane _ _ (requests c now req s) w = requested-Sane c now req s w
Step-Sane _ _ (wakes req s e) w = woken-Sane req s e w
Step-Sane _ _ (receives c resp now wall s t p e) w = received-Sane c resp now wall s t p e w
Step-Sane _ _ (polls s t p out e) w =
    let (k, r, n, f) : Polled s (some (t, out)) = subst (Polled s) e (poll-Polled s w.tracked) in
    polled-Sane s t p k r n f w
Step-Sane _ _ (releases s p) w = released-Sane s p w

prepared-Sane : Sane (record { tts = (prepare new_tts).0; sender = idle })
unfolding prepare new_tts OpCtl.init
prepared-Sane = record {
  well = init-WellFormed;
  tracked = ([], empty-Refines, refl);
  live = λ h e. absurd (cc);
  busy = λ h e. absurd (cc);
  ordered = (0, (λ h m. elim m [ ]), omega arith);
}

pub Reaches-Sane : (r : Run) → Reaches r → Sane r
Reaches-Sane _ prepares = prepared-Sane
Reaches-Sane _ (goes r t g s) = Step-Sane r t s (Reaches-Sane r g)

-- From `prepare`, whatever the clients call and the service answers and however the threads
-- interleave, while fewer than 2^31 requests were made, `prepare` is not called again and a wait on
-- an operation ends only when that is no longer current: a round of `poll` meets no failed assertion
-- and no null data, and it has removed at most a front operation that is over.
pub Reaches-poll : (r : Run) → Reaches r → Polled r.tts (poll r.tts)
Reaches-poll r g = poll-Polled r.tts (Reaches-Sane r g).tracked

-- In the same states, under the same conditions, a round of the receiving thread meets no fault
-- whatever `recv` returns and whichever response it has; it opens and reports no operation, an
-- operation that is current afterwards was current before, and the streams of responses match the
-- operations again.
pub Reaches-gen_results :
    (c : ConnectionResult) (resp : TtsResponse) (now wall : ℕ) (r : Run)
    → Reaches r
    → Received r.tts (gen_results c resp now wall r.tts)
Reaches-gen_results c resp now wall r g =
    let w = Reaches-Sane r g in gen_results-Received c resp now wall r.tts w.well w.tracked

-- From `prepare`, whatever the clients call and the service answers and however the threads
-- interleave, while fewer than 2^31 requests were made, `prepare` is not called again and a wait on
-- an operation ends only when that is no longer current: the operations to be reported have different
-- ids, the current one is among them, and no other of them is live.
pub Reaches-WellFormed : (r : Run) → Reaches r → WellFormed r.tts.controller
Reaches-WellFormed r g = (Reaches-Sane r g).well

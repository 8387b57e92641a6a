-- ===== src/Tests/Running.antt =====
-- A run of the text to speech client: a request is spoken, sent, answered and cancelled.
use rokid_openvoice_sdk.Base.{[], ◌≡◌, refl, false, codes, arith}
use rokid_openvoice_sdk.OpCtl
use rokid_openvoice_sdk.OpCtl.Invariant.{WellFormed}
use rokid_openvoice_sdk.Tests.Speaking.{last_voice}
use rokid_openvoice_sdk.Tts.{Tts, TtsReq, success, prepare, speak, cancel}
use rokid_openvoice_sdk.Tts.Polling.{poll}
use rokid_openvoice_sdk.Tts.Requests.{send_take, request_begun, do_request}
use rokid_openvoice_sdk.Tts.Results.{gen_results}
use rokid_openvoice_sdk.Tts.Run.{
  idle, taken, waiting, after_take, after_request, new_tts, Reaches, prepares, goes, speaks, takes,
  begins, requests, cancels,
}
use rokid_openvoice_sdk.Tts.Run.Calls.{Received}
use rokid_openvoice_sdk.Tts.Run.Reach.{Reaches-poll, Reaches-gen_results, Reaches-WellFormed}
use rokid_openvoice_sdk.Tts.Run.Overtakes.{Stranded, send_take-Stranded}
use rokid_openvoice_sdk.Tts.Track.Reports.{Polled}

abbrev prepared : Tts
prepared = (prepare new_tts).0

abbrev spoken : Tts
spoken = (speak (codes "hello") prepared).0

abbrev took : Tts
took = (send_take 5 spoken).0

abbrev hello : TtsReq
hello = record { id = 1; deleted = false; text = codes "hello" }

abbrev sent : Tts
sent = (do_request success 9 (request_begun hello 7 took)).0

spoken_taken : after_take (send_take 5 spoken).1 ≡ taken hello
unfolding prepare new_tts speak send_take after_take OpCtl.new_op
spoken_taken = refl

sent-Reaches : Reaches (record { tts = sent; sender = waiting hello })
unfolding prepare new_tts speak send_take after_take after_request do_request OpCtl.new_op
sent-Reaches =
    goes _ _
      (goes _ _
        (goes _ _ (goes _ _ prepares (speaks (codes "hello") prepared idle (omega arith)))
          (takes 5 spoken))
        (begins 7 hello took))
      (requests success 9 hello (request_begun hello 7 took))

cancelled_Reaches : Reaches (record { tts = cancel 0 sent; sender = waiting hello })
cancelled_Reaches = goes _ _ sent-Reaches (cancels 0 sent (waiting hello))

Reaches-poll_example : Polled (cancel 0 sent) (poll (cancel 0 sent))
Reaches-poll_example =
    Reaches-poll (record { tts = cancel 0 sent; sender = waiting hello }) cancelled_Reaches

Reaches-gen_results_example : Received sent (gen_results success last_voice 20 21 sent)
Reaches-gen_results_example =
    Reaches-gen_results success last_voice 20 21 (record { tts = sent; sender = waiting hello })
      sent-Reaches

Reaches-WellFormed_example : WellFormed (cancel 0 sent).controller
Reaches-WellFormed_example =
    Reaches-WellFormed (record { tts = cancel 0 sent; sender = waiting hello }) cancelled_Reaches

-- A second request, which waits while the first is under way.
abbrev spoken_again : Tts
spoken_again = (speak (codes "bye") sent).0

sent-WellFormed : WellFormed spoken_again.controller
unfolding do_request request_begun send_take speak prepare new_tts
sent-WellFormed =
    Reaches-WellFormed (record { tts = spoken_again; sender = waiting hello })
      (goes _ _ sent-Reaches (speaks (codes "bye") sent (waiting hello) (omega arith)))

send_take-Stranded_example :
    Stranded 0 (send_take 30 spoken_again).0.controller
    × Stranded 0 (OpCtl.finish_op (send_take 30 spoken_again).0.controller)
unfolding prepare new_tts speak send_take do_request request_begun OpCtl.new_op
    OpCtl.refresh_op_time OpCtl.init
send_take-Stranded_example =
    send_take-Stranded 30 0 (record { id = 2; deleted = false; text = codes "bye" }) [] spoken_again
      refl refl refl sent-WellFormed refl refl

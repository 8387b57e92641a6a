-- ===== src/Tts/Requests.antt =====
-- The sending thread of `TtsImpl` (src/tts/tts_impl.cc): `send_reqs`, `do_ctl_new_op` and `do_request`.
use rokid_openvoice_sdk.Base.{ℕ, Bool, true, false, [], ◌∷◌, if◌then◌else◌}
use rokid_openvoice_sdk.OpCtl
use rokid_openvoice_sdk.OpCtl.{Controller, Status, Operation}
use rokid_openvoice_sdk.Trace
use rokid_openvoice_sdk.Trace.{Traces}
use rokid_openvoice_sdk.Tts.{
  TtsReq, ConnectionResult, success, connection_not_available, Tts, tts_service_unavailable,
  tts_unknown, notify_resp,
}

-- A round of `send_reqs` up to the request: whether it quits, blocks, or has a request to send.
pub data Send : Type 0 where
  quits blocks skips : Send
  sends : TtsReq → Send

unfoldable pub do_ctl_new_op : TtsReq → ℕ → Tts → Tts × Status
do_ctl_new_op req now s =
    if req.deleted
    then (
      notify_resp (record s { controller = OpCtl.new_op req.id Status.cancelled now s.controller }),
      Status.cancelled,
    )
    else (record s { controller = OpCtl.new_op req.id Status.start now s.controller }, Status.start)

unfoldable pub send_take : ℕ → Tts → Tts × Send
unfolding do_ctl_new_op
send_take now s = elim s.initialized [
  | false ↦ (s, quits)
  | true ↦ elim s.requests [
    | [] ↦ (s, blocks)
    | req ∷ rest ↦
        let (s', status) = do_ctl_new_op req now (record s { requests = rest }) in
        (s', elim status [ Status.start ↦ sends req | _ ↦ skips ])
  ]
]

-- `do_request` before `connection_.send`.
unfoldable pub request_begun : TtsReq → ℕ → Tts → Tts
request_begun req wall s = record s { traces = Trace.begin_req req.id wall s.traces }

abbrev pub fail_op : ℕ → Tts → Tts
fail_op err s = notify_resp (record s { controller = OpCtl.set_op_error err s.controller })

-- `do_request` after it, given what it returned.
unfoldable pub do_request : ConnectionResult → ℕ → Tts → Tts × Bool
do_request r now s = elim r [
  | success ↦ (record s { controller = OpCtl.refresh_op_time false now s.controller }, true)
  | connection_not_available ↦ (fail_op tts_service_unavailable s, false)
  | _ ↦ (fail_op tts_unknown s, false)
]

-- Whether the sending thread blocks after a request that was sent.
unfoldable pub send_waits : TtsReq → Tts → Bool
send_waits req s = OpCtl.wait_op_finish req.id s.controller

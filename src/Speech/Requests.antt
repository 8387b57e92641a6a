-- ===== src/Speech/Requests.antt =====
-- The sending thread of `SpeechImpl` (src/speech/speech_impl.cc): `send_reqs`, from one wait or
-- unlock to the next, `do_ctl_change_op` and `do_request`.
use rokid_openvoice_sdk.Base.{
  ℕ, Bool, true, false, not, Option, none, some, [], ◌∷◌, if◌then◌else◌, ◌>>=◌,
}
use rokid_openvoice_sdk.OpCtl
use rokid_openvoice_sdk.OpCtl.{Status}
use rokid_openvoice_sdk.Stream
use rokid_openvoice_sdk.Stream.{
  Queue, Out, PopType, pop_empty, pop_data, pop_start, pop_end, pop_removed, pop_error,
}
use rokid_openvoice_sdk.Trace
use rokid_openvoice_sdk.Tts.{Text, ConnectionResult, success, connection_not_available}
use rokid_openvoice_sdk.Speech.{
  ReqType, text, voice_start, voice_end, cancelled, voice_data, SpeechReq, Speech, notify_resp,
  erase_req, speech_service_unavailable, speech_unknown,
}

unfoldable pub sqtype_to_reqtype : PopType → Option ReqType
sqtype_to_reqtype pop_data = some voice_data
sqtype_to_reqtype pop_start = some voice_start
sqtype_to_reqtype pop_end = some voice_end
sqtype_to_reqtype pop_removed = some cancelled
sqtype_to_reqtype pop_error = some voice_end
sqtype_to_reqtype pop_empty = none

-- What a round of `send_reqs` comes to: it quits, it blocks on `req_cond_`, it lets go of
-- `req_mutex_` to look at the current operation, or it has a request.
pub data Send (V : Type 0) : Type 0 where
  quits blocks looks : Send V
  sends : SpeechReq V → Send V

-- The type of the message that a request becomes.
pub data WireType : Type 0 where
  wire_text wire_start wire_voice wire_end : WireType

-- A `SpeechRequest` without the options that every request of the client shares; `options` is null
-- where `req_config` is not called.
pub record Wire (V : Type 0) : Type 0 where
  pub id : ℕ
  pub type : WireType
  pub asr : Option Text
  pub voice : Option Text
  pub options : Option V

-- The values that `do_request` returns: 0, 1 and -1.
pub data Sent : Type 0 where
  last more failed : Sent

-- `rv`.
unfoldable pub returned : ReqType → Sent
returned text = last
returned voice_end = last
returned _ = more

abbrev pub is_current : Option ℕ → Bool
is_current none = false
is_current (some h) = true

module _ {V : Type 0} where
  -- A request with what was popped.
  unfoldable pub voice_taken :
      Queue Text V → Out Text → PopType → Speech V → Option (Speech V × (Out Text × Send V))
  unfolding sqtype_to_reqtype
  voice_taken q out pop_empty s = some (s, (out, elim s.text_reqs [ [] ↦ blocks | r ∷ rs ↦ looks ]))
  voice_taken q out tp s = do
    type ← sqtype_to_reqtype tp
    options ← Stream.get_arg out.id q
    some (
      s,
      (out, sends (record { id = out.id; type = type; content = out.res; options = options })),
    )

  -- From the lock of `req_mutex_`; `out` is what the thread's locals `id`, `voice` and `err` hold.
  unfoldable pub send_voice : Out Text → Speech V → Option (Speech V × (Out Text × Send V))
  unfolding voice_taken
  send_voice out s = Stream.pop s.voice_reqs out >>= λ (q, (out', tp)).
      voice_taken q out' tp (record s { voice_reqs = q })

  unfoldable pub send_take : Out Text → Speech V → Option (Speech V × (Out Text × Send V))
  unfolding send_voice
  send_take out s = if not s.initialized then some (s, (out, quits)) else send_voice out s

  -- From the second lock, with the operation that was current in between: a text request goes
  -- only when there was none. The front of an empty list is a fault.
  unfoldable pub send_text : Option ℕ → Speech V → Option (Speech V × Send V)
  send_text (some h) s = some (s, blocks)
  send_text none s = elim s.text_reqs [
    | [] ↦ none
    | r ∷ rs ↦ some (record s { text_reqs = rs }, sends r)
  ]

  -- The branch of `do_ctl_change_op` for a request that opens an operation.
  unfoldable pub change_open : SpeechReq V → ℕ → Option ℕ → Speech V → Option (Speech V × Bool)
  change_open req now none s =
      some (record s { controller = OpCtl.new_op req.id Status.start now s.controller }, true)
  change_open req now (some h) s = none

  -- The branch for a cancelled request.
  unfoldable pub change_cancelled : SpeechReq V → ℕ → Option ℕ → Speech V → Speech V × Bool
  change_cancelled req now (some h) s = (
    notify_resp (record s {
      controller = OpCtl.clear_current_op (record s.controller {
        store = OpCtl.write h (OpCtl.with_status Status.cancelled) s.controller.store;
      });
    }),
    true,
  )
  change_cancelled req now none s = (
    notify_resp (record s { controller = OpCtl.new_op req.id Status.cancelled now s.controller }),
    false,
  )

  unfoldable pub do_ctl_change_op : SpeechReq V → ℕ → Speech V → Option (Speech V × Bool)
  unfolding change_open change_cancelled
  do_ctl_change_op req now s = elim req.type [
    | text ↦ change_open req now s.controller.current s
    | voice_start ↦ change_open req now s.controller.current s
    | cancelled ↦ some (change_cancelled req now s.controller.current s)
    | _ ↦ some (s, is_current s.controller.current)
  ]

  -- The message that `do_request` builds.
  unfoldable pub wire : SpeechReq V → Option (Wire V)
  wire req =
      let w : Wire V = record {
        id = req.id;
        type = wire_end;
        asr = none;
        voice = none;
        options = none;
      } in
      elim req.type [
        | text ↦ req.content >>= λ t.
            some (record w { type = wire_text; asr = some t; options = req.options })
        | voice_start ↦ some (record w { type = wire_start; options = req.options })
        | voice_end ↦ some w
        | cancelled ↦ some w
        | voice_data ↦ req.content >>= λ t. some (record w { type = wire_voice; voice = some t })
      ]

  -- The traces that `do_request` writes before `connection_.send`.
  unfoldable pub traced : SpeechReq V → ℕ → Speech V → Speech V
  traced req wall s = elim req.type [
    | text ↦ record s { traces = Trace.begin_req req.id wall s.traces }
    | voice_start ↦ record s { traces = Trace.begin_req req.id wall s.traces }
    | cancelled ↦ record s { traces = Trace.finish_cur_req wall s.traces }
    | _ ↦ s
  ]

  abbrev pub fail_op : ℕ → Speech V → Speech V
  fail_op err s = notify_resp (record s { controller = OpCtl.set_op_error err s.controller })

  unfoldable pub send_failed : ℕ → SpeechReq V → Speech V → Option (Speech V × Sent)
  send_failed err req s = erase_req req.id (fail_op err s) >>= λ s'. some (s', failed)

  -- The rest of it, given what `send` returned.
  unfoldable pub request_sent :
      ConnectionResult → SpeechReq V → ℕ → Speech V → Option (Speech V × Sent)
  unfolding returned send_failed
  request_sent r req now s = elim r [
    | success ↦
        some (
          record s { controller = OpCtl.refresh_op_time false now s.controller },
          returned req.type,
        )
    | connection_not_available ↦ send_failed speech_service_unavailable req s
    | _ ↦ send_failed speech_unknown req s
  ]

  unfoldable pub do_request :
      ConnectionResult → SpeechReq V → ℕ → ℕ → Speech V → Option (Speech V × (Wire V × Sent))
  unfolding wire traced request_sent
  do_request r req now wall s = do
    w ← wire req
    (s', rv) ← request_sent r req now (traced req wall s)
    some (s', (w, rv))

  -- Whether the thread blocks after the request.
  unfoldable pub send_waits : Sent → SpeechReq V → Speech V → Bool
  send_waits last req s = OpCtl.wait_op_finish req.id s.controller
  send_waits _ req s = false

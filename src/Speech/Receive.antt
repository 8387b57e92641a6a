-- ===== src/Speech/Receive.antt =====
-- The receiving thread of `SpeechImpl` (src/speech/speech_impl.cc) on sound queues.
use rokid_openvoice_sdk.Base.{
  ℕ, ◌≡◌, refl, not, ◌&&◌, Option, none, some, ◌>>=◌, ◌==◌, is_positive, is_empty,
}
use rokid_openvoice_sdk.OpCtl
use rokid_openvoice_sdk.OpCtl.Timeout.{op_timeout-idle}
use rokid_openvoice_sdk.Stream.Total.{start-Holds, stream-Total, end-Total, erase-Total}
use rokid_openvoice_sdk.Tts.{
  ConnectionResult, success, connection_not_available, invalid_pb_obj, not_ready, invalid_pb_data,
  connection_broken, timeout,
}
use rokid_openvoice_sdk.Speech.{Speech, ResultIn, notify_resp}
use rokid_openvoice_sdk.Speech.Requests.{fail_op}
use rokid_openvoice_sdk.Speech.Results.{
  Response, RespType, intermediate, asr_finished, finished, invalid, stream_resp, resp_started,
  final_result, resp_at, timed_out, resp_extra, resp_finished, resp_typed, gen_result_by_resp,
  abort, gen_results, finish_traced,
}
use rokid_openvoice_sdk.Speech.Sound.{Sound, Safe, if-Sound, if-Safe, erase_req-Safe}

module _ {V : Type 0} where
  bind-Safe :
      (m : Option (Speech V)) (f : Speech V → Option (Speech V))
      → Safe m
      → ((s : Speech V) → Sound s → Safe (f s))
      → Safe (m >>= f)
  bind-Safe none f w k = w
  bind-Safe (some s) f w k = k s w

  stream_resp-Safe : (id : ℕ) (r : ResultIn) (s : Speech V) → Sound s → Safe (stream_resp id r s)
  stream_resp-Safe id r s (v, h, p) =
      let (q, b, e, h') = stream-Total id (some r) s.responses h in rw e (v, h', p)

  resp_started-Sound :
      (h : ℕ) (resp : Response) (s : Speech V) → Sound s → Sound (resp_started h resp s)
  unfolding resp_started
  resp_started-Sound h resp s (v, r, p) =
      if-Sound (OpCtl.is_start (s.controller.store h).status) _ _
        (v, start-Holds resp.id s.responses r, p) (v, r, p)

  resp_extra-Safe : (resp : Response) (s : Speech V) → Sound s → Safe (resp_extra resp s)
  unfolding resp_extra
  resp_extra-Safe resp s w = if-Safe (is_empty resp.extra) _ _ w (stream_resp-Safe resp.id _ s w)

  resp_finished-Safe :
      (h : ℕ) (resp : Response) (s : Speech V) → Sound s → Safe (resp_finished h resp s)
  unfolding resp_finished
  resp_finished-Safe h resp s (v, r, p) =
      let (q, b, e, k) = end-Total resp.id (some (final_result resp)) s.responses r in
      let (q', b', e', k') = erase-Total resp.id resp.result s.responses r in
      if-Safe (resp.result == 0) _ _ (rw e (v, k, p)) (rw e' (v, k', p))

  typed_Safe :
      (t : RespType) (h wall : ℕ) (resp : Response) (s : Speech V)
      → Sound s
      → resp.type ≡ t
      → Safe (resp_typed h resp wall s)
  unfolding resp_typed
  typed_Safe intermediate h wall resp s w e =
      rw e (bind-Safe _ _ (stream_resp-Safe resp.id _ s w) (λ s' v. v))
  typed_Safe asr_finished h wall resp s w e =
      rw e (bind-Safe _ _ (stream_resp-Safe resp.id _ s w) (λ s' v. v))
  typed_Safe finished h wall resp s w e = rw e (
      bind-Safe _ _ (resp_finished-Safe h resp s w) (λ s' v.
        if-Safe (is_positive resp.id) _ _
          (erase_req-Safe resp.id (notify_resp (finish_traced wall s')) v) v))
  typed_Safe invalid h wall resp s w e = rw e w

  resp_at-Safe :
      (cur : Option ℕ) (resp : Response) (wall : ℕ) (s : Speech V)
      → Sound s
      → Safe (resp_at cur resp wall s)
  unfolding resp_at
  resp_at-Safe none resp wall s w = w
  resp_at-Safe (some h) resp wall s w =
      let op = s.controller.store h in
      if-Safe (op.id == resp.id && not (OpCtl.is_final op.status)) _ _
        (bind-Safe _ _
          (resp_extra-Safe resp (resp_started h resp s) (resp_started-Sound h resp s w))
          (λ s' v. typed_Safe resp.type h wall resp s' v refl))
        w

  abort-Safe :
      (err : ℕ) (cur : Option ℕ) (wall : ℕ) (s : Speech V) → Sound s → Safe (abort err cur wall s)
  unfolding abort
  abort-Safe err none wall s w = w
  abort-Safe err (some h) wall s w =
      bind-Safe _ _ (erase_req-Safe (s.controller.store h).id (fail_op err s) w) (λ s' v. v)

  timed_out-Safe :
      (cur : Option ℕ) (now wall : ℕ) (s : Speech V)
      → s.controller.current ≡ cur
      → Sound s
      → Safe (timed_out cur now wall s)
  unfolding timed_out
  timed_out-Safe none now wall s e w = rw (op_timeout-idle now s.controller e) w
  timed_out-Safe (some h) now wall s e w =
      if-Safe (OpCtl.op_timeout now s.controller == 0) _ _ (abort-Safe 103 (some h) wall s w) w

  -- The state after a round, the old one when the thread quits.
  abbrev pub Receives : Option (Option (Speech V)) → Type 0
  Receives none = ⊥
  Receives (some none) = Unit
  Receives (some (some s)) = Sound s

  receives : (m : Option (Speech V)) → Safe m → Receives (m >>= λ s'. some (some s'))
  receives none w = w
  receives (some s) w = w

  pub gen_results-Receives :
      (r : ConnectionResult) (resp : Response) (now wall : ℕ) (s : Speech V)
      → Sound s
      → Receives (gen_results r resp now wall s)
  unfolding gen_results gen_result_by_resp
  gen_results-Receives success resp now wall s w = receives _ (resp_at-Safe _ resp wall _ w)
  gen_results-Receives timeout resp now wall s w =
      receives _ (timed_out-Safe s.controller.current now wall s refl w)
  gen_results-Receives not_ready resp now wall s w = tt
  gen_results-Receives connection_broken resp now wall s w =
      receives _ (abort-Safe 101 s.controller.current wall s w)
  gen_results-Receives invalid_pb_obj resp now wall s w =
      receives _ (abort-Safe 104 s.controller.current wall s w)
  gen_results-Receives connection_not_available resp now wall s w =
      receives _ (abort-Safe 104 s.controller.current wall s w)
  gen_results-Receives invalid_pb_data resp now wall s w =
      receives _ (abort-Safe 104 s.controller.current wall s w)

-- ===== src/Tts/Receive.antt =====
-- The receiving thread of `TtsImpl` (src/tts/tts_impl.cc) on a queue that stands for streams.
use rokid_openvoice_sdk.Base.{
  ℕ, ◌≡◌, refl, Bool, true, false, ◌||◌, Option, none, some, ◌>>=◌, ◌==◌, if◌then◌else◌,
}
use rokid_openvoice_sdk.OpCtl
use rokid_openvoice_sdk.OpCtl.{Status}
use rokid_openvoice_sdk.OpCtl.Timeout.{op_timeout-idle}
use rokid_openvoice_sdk.Stream.Total.{Holds, start-Holds, stream-Total, end-Total}
use rokid_openvoice_sdk.Tts.{
  Tts, TtsResponse, ConnectionResult, success, invalid_pb_obj, connection_not_available, not_ready,
  invalid_pb_data, connection_broken, timeout, notify_resp,
}
use rokid_openvoice_sdk.Tts.Results.{
  with_status, is_some, resp_started, resp_voiced, resp_finished, resp_notified, resp_at, timed_out,
  gen_result_by_resp, gen_results,
}

abbrev pub Sound : Tts → Type 0
Sound s = Holds s.responses

abbrev pub Safe : Option Tts → Type 0
Safe none = ⊥
Safe (some s) = Sound s

if-Sound : (b : Bool) (s t : Tts) → Sound s → Sound t → Sound (if b then s else t)
if-Sound true s t v w = v
if-Sound false s t v w = w

if-Safe : (b : Bool) (m n : Option Tts) → Safe m → Safe n → Safe (if b then m else n)
if-Safe true m n v w = v
if-Safe false m n v w = w

bind-Safe :
    (m : Option Tts) (f : Tts → Option Tts)
    → Safe m
    → ((s : Tts) → Sound s → Safe (f s))
    → Safe (m >>= f)
bind-Safe none f w k = w
bind-Safe (some s) f w k = k s w

resp_started-Sound :
    (h : ℕ) (resp : TtsResponse) (s : Tts)
    → Sound s
    → Sound (resp_started h (s.controller.store h) resp s)
unfolding resp_started
resp_started-Sound h resp s w =
    if-Sound (OpCtl.is_start (s.controller.store h).status) _ _ (start-Holds resp.id s.responses w)
      w

resp_voiced-Safe : (resp : TtsResponse) (s : Tts) → Sound s → Safe (resp_voiced resp s)
unfolding resp_voiced
resp_voiced-Safe resp s w =
    let (q, b, e, h) =
      stream-Total resp.id (some (record { voice = resp.voice; text = resp.text })) s.responses w in
    if-Safe (is_some resp.voice) _ _ (rw e h) w

resp_finished-Safe :
    (h wall : ℕ) (resp : TtsResponse) (s : Tts) → Sound s → Safe (resp_finished h resp wall s)
unfolding resp_finished
resp_finished-Safe h wall resp s w =
    let (q, b, e, k) = end-Total resp.id none s.responses w in
    if-Safe resp.finish _ _
      (rw e (
        if-Sound (OpCtl.is_final (s.controller.store h).status) (record s { responses = q })
          (with_status h Status.ended (record s { responses = q })) k k))
      w

resp_at-Safe :
    (cur : Option ℕ) (resp : TtsResponse) (wall : ℕ) (s : Tts)
    → Sound s
    → Safe (resp_at cur resp wall s)
unfolding resp_at resp_notified
resp_at-Safe none resp wall s w = w
resp_at-Safe (some h) resp wall s w =
    let op = s.controller.store h in
    if-Safe (op.id == resp.id) _ _
      (bind-Safe _ _
        (resp_voiced-Safe resp (resp_started h op resp s) (resp_started-Sound h resp s w))
        (λ s2 v. bind-Safe _ _ (resp_finished-Safe h wall resp s2 v) (λ s3 u.
          if-Sound (OpCtl.is_start op.status || (is_some resp.voice || resp.finish))
            (notify_resp s3) s3 u u)))
      w

timed_out-Safe :
    (cur : Option ℕ) (now wall : ℕ) (s : Tts)
    → s.controller.current ≡ cur
    → Sound s
    → Safe (timed_out cur now wall s)
unfolding timed_out
timed_out-Safe none now wall s e w = rw (op_timeout-idle now s.controller e) w
timed_out-Safe (some h) now wall s e w = if-Safe (OpCtl.op_timeout now s.controller == 0) _ _ w w

-- What a round leaves: a fault, the end of the thread, or a state.
abbrev pub Answers : Option (Option Tts) → Type 0
Answers none = ⊥
Answers (some none) = Unit
Answers (some (some s)) = Sound s

answers : (m : Option Tts) → Safe m → Answers (m >>= λ s'. some (some s'))
answers none w = w
answers (some s) w = w

-- On a queue that stands for streams, and whatever `recv` returns, a round of the receiving thread
-- meets no fault: in particular a timeout
-- is only acted on when there is a current operation. It leaves a queue that stands for streams.
pub gen_results-Answers :
    (r : ConnectionResult) (resp : TtsResponse) (now wall : ℕ) (s : Tts)
    → Holds s.responses
    → Answers (gen_results r resp now wall s)
unfolding gen_results gen_result_by_resp
gen_results-Answers success resp now wall s w = answers _ (resp_at-Safe _ resp wall _ w)
gen_results-Answers timeout resp now wall s w =
    answers _ (timed_out-Safe s.controller.current now wall s refl w)
gen_results-Answers not_ready resp now wall s w = tt
gen_results-Answers connection_broken resp now wall s w = w
gen_results-Answers invalid_pb_obj resp now wall s w = w
gen_results-Answers connection_not_available resp now wall s w = w
gen_results-Answers invalid_pb_data resp now wall s w = w

-- ===== src/Tts/Track/Responds.antt =====
-- A response that the receiving thread of `TtsImpl` (src/tts/tts_impl.cc) handles leaves the streams
-- of responses matched to the operations.
use rokid_openvoice_sdk.Base.{
  ℕ, ◌≡◌, inl, inr, refl, Bool, true, false, ◌||◌, Option, none, some, ◌==◌, if◌then◌else◌,
  Bool-cases, arith, ◌>>=◌,
}
use rokid_openvoice_sdk.OpCtl.{is_start}
use rokid_openvoice_sdk.OpCtl.Invariant.{In}
use rokid_openvoice_sdk.Tts.{Tts, TtsResponse, notify_resp}
use rokid_openvoice_sdk.Tts.Results.{
  is_some, resp_started, resp_voiced, resp_finished, resp_notified, resp_at, gen_result_by_resp,
}
use rokid_openvoice_sdk.Tts.Track.Reports.{Tracked}
use rokid_openvoice_sdk.Tts.Track.Begins.{Gives, Begun, resp_started-Begun, resp_voiced-Gives}
use rokid_openvoice_sdk.Tts.Track.Finishes.{resp_finished-Gives}

pub Gives-bind :
    (P Q : Tts → Type 0) (m : Option Tts) (f : Tts → Option Tts)
    → Gives P m
    → ((s : Tts) → P s → Gives Q (f s))
    → Gives Q (m >>= f)
Gives-bind P Q none f p g = absurd p
Gives-bind P Q (some s) f p g = g s p

if-Tracked : (b : Bool) (s t : Tts) → Tracked s → Tracked t → Tracked (if b then s else t)
if-Tracked true s t p q = p
if-Tracked false s t p q = q

resp_at-Gives :
    (cur : Option ℕ) (resp : TtsResponse) (wall : ℕ) (s : Tts)
    → s.controller.current ≡ cur
    → ((h : ℕ) → s.controller.current ≡ some h → In h s.controller.operations)
    → Tracked s
    → Gives Tracked (resp_at cur resp wall s)
unfolding resp_at resp_notified
resp_at-Gives none resp wall s c listed t = t
resp_at-Gives (some h) resp wall s c listed t =
    let op = s.controller.store h in
    elim (Bool-cases (op.id == resp.id)) [
      | inr e ↦ simp e t
      | inl e ↦
          let i : resp.id ≡ op.id = ground arith in
          simp e (
            Gives-bind (Begun resp.id h) Tracked (resp_voiced resp (resp_started h op resp s)) _
              (resp_voiced-Gives h resp (resp_started h op resp s)
                (resp_started-Begun h resp s i (listed h c) c t))
              (λ s2 b2.
                Gives-bind Tracked Tracked (resp_finished h resp wall s2) _
                  (resp_finished-Gives h wall resp s2 b2)
                  (λ s3 t3.
                    if-Tracked (is_start op.status || (is_some resp.voice || resp.finish))
                      (notify_resp s3) s3 t3 t3)))
    ]

-- Where the streams of responses match the operations, of which the current one is listed, a
-- response of the service, whatever its id and its parts, is handled without a fault, and they
-- match again.
pub gen_result_by_resp-Gives :
    (resp : TtsResponse) (wall : ℕ) (s : Tts)
    → ((h : ℕ) → s.controller.current ≡ some h → In h s.controller.operations)
    → Tracked s
    → Gives Tracked (gen_result_by_resp resp wall s)
unfolding gen_result_by_resp
gen_result_by_resp-Gives resp wall s listed t =
    resp_at-Gives s.controller.current resp wall s refl listed t

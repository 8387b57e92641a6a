-- ===== src/Tts/Run/Handles.antt =====
-- The receiving thread of `TtsImpl` (src/tts/tts_impl.cc) as a step of the client: `gen_results`.
use rokid_openvoice_sdk.Base.{
  ℕ, ◌≡◌, ◌∙◌, inl, inr, refl, sym, subst, Bool, true, false, ◌||◌, Option, none, some, ◌==◌,
  if◌then◌else◌, Bool-cases, Option-cases, arith, ◌>>=◌, suc, not,
}
use rokid_openvoice_sdk.OpCtl
use rokid_openvoice_sdk.OpCtl.{Status, Operation, Controller, write, is_start, is_final}
use rokid_openvoice_sdk.OpCtl.Invariant.{
  is_live, WellFormed, write-id, kept-WellFormed, finish_op-WellFormed,
}
use rokid_openvoice_sdk.OpCtl.Relaxes.{Relaxes, Relaxes-refl, settled-Relaxes, kept-Relaxes}
use rokid_openvoice_sdk.Tts.{Tts, TtsResponse, notify_resp}
use rokid_openvoice_sdk.Stream
use rokid_openvoice_sdk.Trace
use rokid_openvoice_sdk.Tts.Poll.{Responses}
use rokid_openvoice_sdk.Tts.Results.{
  with_status, is_some, resp_started, resp_voiced, resp_finished, resp_notified, resp_at,
}
use rokid_openvoice_sdk.Tts.Run.Serves.{Serves, Serves-refl, Serves-trans}

-- A write that makes nothing live.
pub live_before :
    (h k : ℕ) (f : Operation → Operation) (st : ℕ → Operation)
    → (is_live (f (st h)).status ≡ true → is_live (st h).status ≡ true)
    → is_live (write h f st k).status ≡ true
    → is_live (st k).status ≡ true
live_before h k f st less l = elim (Bool-cases (h == k)) [
  | inr t ↦ rw (← l, t) refl
  | inl t ↦
      let same : h ≡ k = ground arith in
      let here : is_live (f (st k)).status ≡ true = rw (← l, t) refl in
      subst (λ j. is_live (st j).status ≡ true) same
        (less (subst (λ j. is_live (f (st j)).status ≡ true) (sym same) here))
]

-- A write that ends nothing.
live_after :
    (h k : ℕ) (f : Operation → Operation) (st : ℕ → Operation)
    → is_live (f (st k)).status ≡ true
    → is_live (st k).status ≡ true
    → is_live (write h f st k).status ≡ true
live_after h k f st here l = elim (Bool-cases (h == k)) [ inl t ↦ rw t here | inr t ↦ rw t l ]

start_live : (t : Status) → is_start t ≡ true → is_live t ≡ true
unfolding is_start
start_live Status.start e = refl
start_live Status.streaming e = refl
start_live Status.ended e = absurd (cc)
start_live Status.cancelled e = absurd (cc)
start_live Status.error e = absurd (cc)

resp_started-Serves :
    (h : ℕ) (resp : TtsResponse) (s : Tts)
    → WellFormed s.controller
    → Serves s (resp_started h (s.controller.store h) resp s)
unfolding resp_started
resp_started-Serves h resp s w = elim (Bool-cases (is_start (s.controller.store h).status)) [
  | inr b ↦ simp b (Serves-refl s w)
  | inl b ↦
      let f : Operation → Operation = OpCtl.with_status Status.streaming in
      let st : ℕ → Operation = write h f s.controller.store in
      let ids : (k : ℕ) → (st k).id ≡ (s.controller.store k).id =
        λ k. write-id h k f s.controller.store (λ o. refl) in
      simp b (record {
        well =
            kept-WellFormed s.controller st w ids
              (λ k l. live_before h k f s.controller.store (λ x. start_live _ b) l);
        relaxes =
            kept-Relaxes s.controller st ids (λ k e l. live_after h k f s.controller.store refl l);
        ascends = λ m a. a;
      })
]

-- A call that returns leaves a client that this holds of.
abbrev pub Leaves : (Tts → Type 0) → Option Tts → Type 0
Leaves P none = Unit
Leaves P (some s) = P s

Leaves-bind :
    (P Q : Tts → Type 0) (m : Option Tts) (f : Tts → Option Tts)
    → Leaves P m
    → ((s : Tts) → P s → Leaves Q (f s))
    → Leaves Q (m >>= f)
Leaves-bind P Q none f p g = tt
Leaves-bind P Q (some s) f p g = g s p

if-Leaves :
    (P : Tts → Type 0) (b : Bool) (m n : Option Tts)
    → Leaves P m
    → Leaves P n
    → Leaves P (if b then m else n)
if-Leaves P true m n p q = p
if-Leaves P false m n p q = q

-- What is made of a call to the queue of responses.
queue-Leaves :
    (P : Tts → Type 0) (m : Option (Responses × Bool)) (f : Responses → Tts)
    → ((q : Responses) → P (f q))
    → Leaves P (m >>= λ (q, b). some (f q))
queue-Leaves P none f p = tt
queue-Leaves P (some (q, b)) f p = p q

-- The same client with other responses.
answered-Serves :
    (s : Tts) (q : Responses) → WellFormed s.controller → Serves s (record s { responses = q })
answered-Serves s q w = record { well = w; relaxes = Relaxes-refl s.controller; ascends = λ m a. a }

resp_voiced-Leaves :
    (resp : TtsResponse) (s : Tts)
    → WellFormed s.controller
    → Leaves (Serves s) (resp_voiced resp s)
unfolding resp_voiced
resp_voiced-Leaves resp s w =
    if-Leaves (Serves s) (is_some resp.voice) _ _
      (queue-Leaves (Serves s) _ (λ q. record s { responses = q }) (λ q. answered-Serves s q w))
      (Serves-refl s w)

-- `finish_op` of a controller whose store is written before.
finished-Relaxes :
    (c : Controller) (st : ℕ → Operation)
    → ((k : ℕ) → (st k).id ≡ (c.store k).id)
    → Relaxes c (OpCtl.finish_op (record c { store = st }))
unfolding OpCtl.finish_op is_final
finished-Relaxes c st ids = elim (Option-cases c.current) [
  | inl e ↦
      let same : record c { store = st } ≡ OpCtl.finish_op (record c { store = st }) =
        simp (e, OpCtl.finish_op) in
      subst (Relaxes c) same (kept-Relaxes c st ids (λ h d l. absurd (cc)))
  | inr (h, e) ↦
      let f : Operation → Operation =
        λ o. if not (is_final o.status) then OpCtl.with_status Status.ended o else o in
      simp (e, OpCtl.finish_op)
        (settled-Relaxes c (write h f st) (suc c.notified) c.polled
          (λ k. write-id h k f st (λ o. ground arith) ∙ ids k))
]

resp_finished-Leaves :
    (h wall : ℕ) (resp : TtsResponse) (s : Tts)
    → WellFormed s.controller
    → Leaves (Serves s) (resp_finished h resp wall s)
unfolding resp_finished
resp_finished-Leaves h wall resp s w =
    if-Leaves (Serves s) resp.finish _ _
      (queue-Leaves (Serves s) (Stream.end resp.id none s.responses) _ over) (Serves-refl s w)
  where
    f : Operation → Operation
    f = OpCtl.with_status Status.ended

    st : ℕ → Operation
    st = write h f s.controller.store

    ids : (k : ℕ) → (st k).id ≡ (s.controller.store k).id
    ids k = write-id h k f s.controller.store (λ o. refl)

    over :
        (q : Responses)
        → let marked =
            if OpCtl.is_final (s.controller.store h).status
            then record s { responses = q }
            else with_status h Status.ended (record s { responses = q }) in
          Serves s (record marked {
            controller = OpCtl.finish_op marked.controller;
            traces = Trace.finish_cur_req wall s.traces;
          })
    over q = elim (Bool-cases (is_final (s.controller.store h).status)) [
      | inl e ↦ simp e (record {
        well = finish_op-WellFormed s.controller w;
        relaxes = finished-Relaxes s.controller s.controller.store (λ k. refl);
        ascends = λ m a. a;
      })
      | inr e ↦ simp e (record {
        well =
            finish_op-WellFormed (record s.controller { store = st })
              (kept-WellFormed s.controller st w ids
                (λ k l. live_before h k f s.controller.store (λ d. absurd (cc)) l));
        relaxes = finished-Relaxes s.controller st ids;
        ascends = λ m a. a;
      })
    ]

pub resp_at-Leaves :
    (cur : Option ℕ) (resp : TtsResponse) (wall : ℕ) (s : Tts)
    → WellFormed s.controller
    → Leaves (Serves s) (resp_at cur resp wall s)
unfolding resp_at resp_notified
resp_at-Leaves none resp wall s w = Serves-refl s w
resp_at-Leaves (some h) resp wall s w =
    let op = s.controller.store h in
    let s1 = resp_started h op resp s in
    let v1 = resp_started-Serves h resp s w in
    if-Leaves (Serves s) (op.id == resp.id) _ _
      (Leaves-bind (Serves s1) (Serves s) (resp_voiced resp s1) _
        (resp_voiced-Leaves resp s1 v1.well)
        (λ s2 v2.
          Leaves-bind (Serves s2) (Serves s) (resp_finished h resp wall s2) _
            (resp_finished-Leaves h wall resp s2 v2.well)
            (λ s3 v3.
              let v : Serves s s3 = Serves-trans s s1 s3 v1 (Serves-trans s1 s2 s3 v2 v3) in
              notified (OpCtl.is_start op.status || (is_some resp.voice || resp.finish)) s3 v)))
      (Serves-refl s w)
  where
    notified : (b : Bool) (t : Tts) → Serves s t → Serves s (if b then notify_resp t else t)
    notified true t v = record { well = v.well; relaxes = v.relaxes; ascends = v.ascends }
    notified false t v = v

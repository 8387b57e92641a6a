-- ===== src/Tts/Track/Begins.antt =====
-- The parts of `gen_result_by_resp` of src/tts/tts_impl.cc keep the streams of responses matched to
-- the operations: the start of a stream and its voice.
use rokid_openvoice_sdk.Base.{
  ℕ, ◌≡◌, ◌≢◌, inl, inr, refl, ap, sym, ◌∙◌, subst, true, false, Option, none, some, ◌==◌,
  Bool-cases, arith, ==-refl,
}
use rokid_openvoice_sdk.OpCtl.{Status, Operation, write, with_status, is_start}
use rokid_openvoice_sdk.OpCtl.Invariant.{In, write-id}
use rokid_openvoice_sdk.Stream
use rokid_openvoice_sdk.Stream.{Kind, uncompleted, completed, deleted, error, Queue}
use rokid_openvoice_sdk.Stream.Refine.{
  Refines, Simulates, start-Simulates, stream-Simulates, end-Simulates,
}
use rokid_openvoice_sdk.Stream.Spec
use rokid_openvoice_sdk.Stream.Spec.{Stream}
use rokid_openvoice_sdk.Tts.{Tts, TtsResultIn, TtsResponse}
use rokid_openvoice_sdk.Tts.Results.{is_some, resp_started, resp_voiced}
use rokid_openvoice_sdk.Tts.Track.{Streams}
use rokid_openvoice_sdk.Tts.Track.Ends.{start-Tracks}
use rokid_openvoice_sdk.Tts.Track.Reports.{Tracked}
use rokid_openvoice_sdk.Tts.Track.Streams.{stream-Tracks}

-- A call meets no fault, and leaves a client that this holds of.
abbrev pub Gives : (Tts → Type 0) → Option Tts → Type 0
Gives P none = ⊥
Gives P (some s) = P s

pub written_other :
    (h : ℕ) (f : Operation → Operation) (st : ℕ → Operation) (k : ℕ)
    → (st k).id ≢ (st h).id
    → write h f st k ≡ st k
written_other h f st k n = elim (Bool-cases (h == k)) [
  | inl e ↦ let same : h ≡ k = ground arith in absurd (n (ap (λ j. (st j).id) (sym same)))
  | inr e ↦ rw e refl
]

pub written_self :
    (h : ℕ) (f : Operation → Operation) (st : ℕ → Operation) → write h f st h ≡ f (st h)
written_self h f st = rw (==-refl h) refl

start_at :
    (id : ℕ) (q : Queue TtsResultIn ℕ) (ss : Streams)
    → Refines q ss
    → Refines (Stream.start id q).0 (Spec.start id ss).0
start_at id q ss (cs, r, v) =
    let (q', e, p) =
      subst (λ x. Simulates (some (Stream.start id q)) (Spec.start id x)) v
        (start-Simulates id q cs r) in
    subst (λ z. Refines z (Spec.start id ss).0)
      (sym (ap (λ o. elim o [ none ↦ q' | some x ↦ x.0 ]) e)) p

stream_at :
    (id : ℕ) (d : Option TtsResultIn) (q : Queue TtsResultIn ℕ) (ss : Streams)
    → Refines q ss
    → Simulates (Stream.stream id d q) (Spec.stream id d ss)
stream_at id d q ss (cs, r, v) =
    subst (λ x. Simulates (Stream.stream id d q) (Spec.stream id d x)) v
      (stream-Simulates id d q cs r)

pub end_at :
    (id : ℕ) (q : Queue TtsResultIn ℕ) (ss : Streams)
    → Refines q ss
    → Simulates (Stream.end id none q) (Spec.end id none ss)
end_at id q ss (cs, r, v) =
    subst (λ x. Simulates (Stream.end id none q) (Spec.end id none x)) v
      (end-Simulates id none q cs r)

-- The current operation has this id, is listed, and has no stream only if it was given up.
abbrev pub Begun : ℕ → ℕ → Tts → Type 0
Begun id h s =
    Tracked s
    × In h s.controller.operations
    × ((s.controller.store h).status ≢ Status.start)
    × (s.controller.current ≡ some h)
    × (id ≡ (s.controller.store h).id)

pub resp_started-Begun :
    (h : ℕ) (resp : TtsResponse) (s : Tts)
    → resp.id ≡ (s.controller.store h).id
    → In h s.controller.operations
    → s.controller.current ≡ some h
    → Tracked s
    → Begun resp.id h (resp_started h (s.controller.store h) resp s)
unfolding resp_started is_start
resp_started-Begun h resp s i m c (ss, p, k) =
    elim (Bool-cases (is_start (s.controller.store h).status)) [
      | inr b ↦ simp b ((ss, p, k), m, not_started (s.controller.store h).status b, c, i)
      | inl b ↦
          let a = started (s.controller.store h).status b in
          simp b (
            (
              (Spec.start (s.controller.store h).id ss).0,
              subst (λ z. Refines (Stream.start resp.id s.responses).0 (Spec.start z ss).0) i
                  (start_at resp.id s.responses ss p),
              start-Tracks s.controller.store _ h (written_other h f s.controller.store)
                  (λ j. write-id h j f s.controller.store (λ o. refl)) s.controller.operations ss a
                  (ap (λ (o : Operation). o.status) (written_self h f s.controller.store)) m k,
            ),
            m,
            (λ e.
                streaming_ne_start (
                  sym (ap (λ (o : Operation). o.status) (written_self h f s.controller.store))
                  ∙ e)),
            c,
            i ∙ sym (write-id h h f s.controller.store (λ o. refl)),
          )
    ]
  where
    f : Operation → Operation
    f = with_status Status.streaming

    streaming_ne_start : Status.streaming ≢ Status.start
    streaming_ne_start e = cc

    started : (t : Status) → is_start t ≡ true → t ≡ Status.start
    started Status.start e = refl
    started Status.streaming e = unfold is_start in (cc)
    started Status.ended e = unfold is_start in (cc)
    started Status.cancelled e = unfold is_start in (cc)
    started Status.error e = unfold is_start in (cc)

    not_started : (t : Status) → is_start t ≡ false → t ≢ Status.start
    not_started t e d =
        unfold is_start in
        (let g : is_start Status.start ≡ false = subst (λ z. is_start z ≡ false) d e in cc)

pub resp_voiced-Gives :
    (h : ℕ) (resp : TtsResponse) (s : Tts)
    → Begun resp.id h s
    → Gives (Begun resp.id h) (resp_voiced resp s)
unfolding resp_voiced
resp_voiced-Gives h resp s ((ss, p, k), m, b, c, i) = elim (Bool-cases (is_some resp.voice)) [
  | inr e ↦ simp e ((ss, p, k), m, b, c, i)
  | inl e ↦
      let x : TtsResultIn = record { voice = resp.voice; text = resp.text } in
      let (q, f, p') = stream_at resp.id (some x) s.responses ss p in
      simp e (
        rw f (
          (
            (Spec.stream resp.id (some x) ss).0,
            p',
            stream-Tracks s.controller.store resp.id x s.controller.operations ss k,
          ),
          m,
          b,
          c,
          i,
        ))
]

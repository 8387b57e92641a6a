-- ===== src/TraceUploader/Sends.antt =====
-- What is uploaded of the events that clients put, src/common/trace-uploader.cc.
use rokid_openvoice_sdk.Base.{
  ℕ, ◌≡◌, refl, sym, ◌∙◌, ap, subst, true, List, [], ◌∷◌, ◌++◌, map, inl, inr, Bool-cases, Text,
}
use mathlib.Core.List.{append_assoc, append-nil}
use rokid_openvoice_sdk.TraceUploader.{
  Json, TraceEvent, Device, TraceUploader, put, stop, Round, sends, document, run,
}
use rokid_openvoice_sdk.TraceUploader.Document.{document_of, document-document_of}

-- A client puts an event, the thread goes a round, or the uploader is being destroyed.
pub data Step : Type 0 where
  puts : TraceEvent → Step
  rounds : (ℕ → ℕ) → Text → Step
  stops : Step

unfoldable pub put_events : List Step → List TraceEvent
put_events [] = []
put_events (puts ev ∷ ss) = ev ∷ put_events ss
put_events (rounds clock uuid ∷ ss) = put_events ss
put_events (stops ∷ ss) = put_events ss

-- The events of one upload, with the clock and the UUID of its round.
pub record Batch : Type 0 where
  pub clock : ℕ → ℕ
  pub uuid : Text
  pub events : List TraceEvent

abbrev pub joined : List Batch → List TraceEvent
joined [] = []
joined (b ∷ bs) = b.events ++ joined bs

abbrev pub body : Round → List Text → List Text
body (sends t) ts = t ∷ ts
body _ ts = ts

module _ {J : Type 0} (json : Json J) (md5 : Text → Text) where
  -- The uploader after the steps, and the bodies that it sent.
  unfoldable pub steps : List Step → TraceUploader → TraceUploader × List Text
  steps [] u = (u, [])
  steps (puts ev ∷ ss) u = steps ss (put ev u)
  steps (rounds clock uuid ∷ ss) u =
      let (u', r) = run json md5 clock uuid u in let (u'', ts) = steps ss u' in (u'', body r ts)
  steps (stops ∷ ss) u = steps ss (stop u)

  abbrev pub Uploads : Device → List TraceEvent → TraceUploader × List Text → Type 0
  Uploads dev evs (u, ts) =
      (bs : List Batch) × (ts
        ≡ map (λ (b : Batch). document_of json md5 dev b.clock b.uuid b.events) bs)
      × (joined bs ++ u.trace_events ≡ evs)

  -- A round with what is sent after it.
  round-Uploads :
      (clock : ℕ → ℕ) (uuid : Text) (ss : List Step) (u : TraceUploader)
      → ((v : TraceUploader) → Uploads v.device (v.trace_events ++ put_events ss) (steps ss v))
      → let (u', r) = run json md5 clock uuid u in
        Uploads u.device (u.trace_events ++ put_events ss) ((steps ss u').0, body r (steps ss u').1)
  unfolding run
  round-Uploads clock uuid ss u k = elim (Bool-cases u.working) [
    | inr e ↦ simp (e, run) (k u)
    | inl e ↦ queued u.trace_events refl e
  ]
    where
      queued :
          (evs : List TraceEvent)
          → u.trace_events ≡ evs
          → u.working ≡ true
          → let (u', r) = run json md5 clock uuid u in
            Uploads u.device
              (u.trace_events ++ put_events ss)
              ((steps ss u').0, body r (steps ss u').1)
      queued [] q e =
          simp (e, q, run) (subst (λ x. Uploads u.device (x ++ put_events ss) (steps ss u)) q (k u))
      queued (ev ∷ evs) q e =
          let (bs, d, j) = k (record u { trace_events = [] }) in
          let b : Batch = record { clock = clock; uuid = uuid; events = ev ∷ evs } in
          let same : run json md5 clock uuid u ≡ (
            record u { trace_events = [] },
            sends (document json md5 u.device clock uuid (ev ∷ evs)),
          ) =
            simp (e, q, run) in
          subst
            (λ (x : TraceUploader × Round).
              Uploads u.device (u.trace_events ++ put_events ss)
                ((steps ss x.0).0, body x.1 (steps ss x.0).1))
            (sym same)
            (subst
              (λ x. Uploads u.device (x ++ put_events ss) (
                (steps ss (record u { trace_events = [] })).0,
                document json md5 u.device clock uuid (ev ∷ evs)
                    ∷ (steps ss (record u { trace_events = [] })).1,
              ))
              (sym q)
              (
                b ∷ bs,
                ap (λ ts. document json md5 u.device clock uuid (ev ∷ evs) ∷ ts) d
                    ∙ ap
                        (λ t.
                          t
                          ∷ map
                              (λ (b : Batch). document_of json md5 u.device b.clock b.uuid b.events)
                              bs)
                        (document-document_of json md5 u.device clock uuid (ev ∷ evs)),
                append_assoc (ev ∷ evs) (joined bs) _ ∙ ap (λ x. (ev ∷ evs) ++ x) j,
              ))

  -- From any uploader: what it sends in any sequence of puts, rounds and destruction are, for lists
  -- of events that are joined, in order, the events that it had and those that were put, each once,
  -- but for those that it still has, the documents of these lists: the fields of the root, and under
  -- `data` an array with an object for each event in order, of its fields and its first ten pairs.
  pub steps-Uploads :
      (ss : List Step) (u : TraceUploader)
      → Uploads u.device (u.trace_events ++ put_events ss) (steps ss u)
  unfolding steps put_events put stop
  steps-Uploads [] u = ([], refl, sym (append-nil u.trace_events))
  steps-Uploads (puts ev ∷ ss) u =
      subst (λ x. Uploads u.device x (steps ss (put ev u)))
        (append_assoc u.trace_events (ev ∷ []) (put_events ss)) (steps-Uploads ss (put ev u))
  steps-Uploads (rounds clock uuid ∷ ss) u = round-Uploads clock uuid ss u (λ v. steps-Uploads ss v)
  steps-Uploads (stops ∷ ss) u = steps-Uploads ss (stop u)

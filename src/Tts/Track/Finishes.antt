-- ===== src/Tts/Track/Finishes.antt =====
-- The end of a stream in `gen_result_by_resp` of src/tts/tts_impl.cc keeps the streams of responses
-- matched to the operations.
use rokid_openvoice_sdk.Base.{
  ℕ, ◌≡◌, ◌≢◌, ◌⊎◌, inl, inr, refl, ap, sym, subst, true, false, not, none, some, List, [], ◌∷◌,
  ◌==◌, if◌then◌else◌, Bool-cases, arith,
}
use rokid_openvoice_sdk.OpCtl
use rokid_openvoice_sdk.OpCtl.{
  Status, Operation, Controller, write, with_status, is_final, is_start,
}
use rokid_openvoice_sdk.OpCtl.Invariant.{is_live, write-id}
use rokid_openvoice_sdk.Stream.{completed}
use rokid_openvoice_sdk.Stream.Spec
use rokid_openvoice_sdk.Stream.Spec.{Stream}
use rokid_openvoice_sdk.Tts.{Tts, TtsResponse}
use rokid_openvoice_sdk.Tts.Results.{resp_finished}
use rokid_openvoice_sdk.Tts.Track.{Streams, Matches, Streamless, LastLive, Tracks}
use rokid_openvoice_sdk.Tts.Track.Ends.{end-Tracks}
use rokid_openvoice_sdk.Tts.Track.Reports.{Tracked}
use rokid_openvoice_sdk.Tts.Track.Settles.{Keeps, Settles, Tracked-Keeps}
use rokid_openvoice_sdk.Tts.Track.Begins.{Gives, Begun, written_other, written_self, end_at}

Settles-write_at :
    (h : ℕ) (f : Operation → Operation) (st : ℕ → Operation)
    → (f (st h)).id ≡ (st h).id
    → (f (st h)).status ≡ (st h).status
    → Settles st (write h f st)
Settles-write_at h f st i e k = elim (Bool-cases (h == k)) [
  | inr t ↦ rw t (refl, inl refl)
  | inl t ↦
      let same : h ≡ k = ground arith in
      rw t (
        subst (λ j. (f (st j)).id ≡ (st j).id) same i,
        inl (subst (λ j. (f (st j)).status ≡ (st j).status) same e),
      )
]

-- `finish_op` of an operation that is over.
finish_op-Keeps :
    (h : ℕ) (c : Controller)
    → c.current ≡ some h
    → (is_final (c.store h).status ≡ true) ⊎ ((c.store h).status ≡ Status.ended)
    → Keeps c (OpCtl.finish_op c)
unfolding OpCtl.finish_op
finish_op-Keeps h c e over =
    let f : Operation → Operation =
      λ o. if not (is_final o.status) then with_status Status.ended o else o in
    simp (e, OpCtl.finish_op)
      (refl, Settles-write_at h f c.store (id_kept (c.store h)) (status_kept over))
  where
    id_kept :
        (o : Operation)
        → (if not (is_final o.status) then with_status Status.ended o else o).id ≡ o.id
    id_kept o = elim (Bool-cases (is_final o.status)) [ inl b ↦ simp b refl | inr b ↦ simp b refl ]

    status_kept :
        (is_final (c.store h).status ≡ true) ⊎ ((c.store h).status ≡ Status.ended)
        → (if not (is_final (c.store h).status)
            then with_status Status.ended (c.store h)
            else c.store h).status
          ≡ (c.store h).status
    status_kept (inl b) = simp b refl
    status_kept (inr b) = elim (Bool-cases (is_final (c.store h).status)) [
      | inl g ↦ simp g refl
      | inr g ↦ simp g (sym b)
    ]

pub resp_finished-Gives :
    (h wall : ℕ) (resp : TtsResponse) (s : Tts)
    → Begun resp.id h s
    → Gives Tracked (resp_finished h resp wall s)
unfolding resp_finished is_final
resp_finished-Gives h wall resp s ((ss, p, k), m, b, c, i) = elim (Bool-cases resp.finish) [
  | inr e ↦ simp e (ss, p, k)
  | inl e ↦
      let (q, g, p') = end_at resp.id s.responses ss p in
      elim (Bool-cases (is_final (s.controller.store h).status)) [
        | inl final ↦
            let t =
              end-Tracks s.controller.store s.controller.store h (λ j n. refl) (λ j. refl)
                s.controller.operations ss (λ x n. n)
                (λ y z. final_matches (s.controller.store h).status final) (λ js l. l) m k in
            simp e (
              rw g (
                simp final (
                  Tracked-Keeps (record s { responses = q }) (OpCtl.finish_op s.controller)
                    (finish_op-Keeps h s.controller c (inl final))
                    (
                      _,
                      p',
                      subst
                          (λ z.
                            Tracks s.controller.store s.controller.operations
                              (Spec.end z none ss).0)
                          (sym i) t,
                    ))))
        | inr open_op ↦
            let t =
              end-Tracks s.controller.store st h (written_other h f s.controller.store)
                (λ j. write-id h j f s.controller.store (λ o. refl)) s.controller.operations ss
                (λ x n. absurd (no_more (s.controller.store h).status x b open_op n))
                (λ y z. subst (λ v. Matches v completed) (sym own) tt) last m k in
            simp e (
              rw g (
                simp open_op (
                  Tracked-Keeps (record s { responses = q; controller = marked })
                    (OpCtl.finish_op marked) (finish_op-Keeps h marked c (inr own))
                    (
                      _,
                      p',
                      subst (λ z. Tracks st s.controller.operations (Spec.end z none ss).0) (sym i)
                          t,
                    ))))
      ]
]
  where
    f : Operation → Operation
    f = with_status Status.ended

    st : ℕ → Operation
    st = write h f s.controller.store

    marked : Controller
    marked = record s.controller { store = st }

    own : (st h).status ≡ Status.ended
    own = ap (λ (o : Operation). o.status) (written_self h f s.controller.store)

    last : (js : List ℕ) → LastLive (s.controller.store h).status js → LastLive (st h).status js
    last [] l = tt
    last (j ∷ js) l = subst (λ v. is_live v ≡ false) (sym own) refl

    final_matches : (t : Status) → is_final t ≡ true → Matches t completed
    final_matches Status.cancelled v = tt
    final_matches Status.error v = tt
    final_matches Status.start v = cc
    final_matches Status.streaming v = cc
    final_matches Status.ended v = cc

    no_more :
        (t : Status) (x : Streams) → t ≢ Status.start → is_final t ≡ false → Streamless t x → ⊥
    no_more Status.start x n v w = n refl
    no_more Status.streaming x n v w = w
    no_more Status.ended x n v w = w
    no_more Status.cancelled x n v w = cc
    no_more Status.error x n v w = cc

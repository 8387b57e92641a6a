-- ===== src/Tts/Track/Pops.antt =====
-- What `TtsImpl::poll` (src/tts/tts_impl.cc) pops where the streams of responses match the operations.
use rokid_openvoice_sdk.Base.{
  ℕ, ◌≡◌, ◌≢◌, inl, inr, refl, subst, true, false, Option, List, [], ◌∷◌, All, Bool-cases,
}
use rokid_openvoice_sdk.OpCtl.{Status, Operation}
use rokid_openvoice_sdk.OpCtl.Invariant.{is_live}
use rokid_openvoice_sdk.Stream
use rokid_openvoice_sdk.Stream.{
  Kind, uncompleted, completed, deleted, error, Out, PopType, pop_empty, pop_data, pop_start,
  pop_end, pop_removed, pop_error,
}
use rokid_openvoice_sdk.Stream.Spec
use rokid_openvoice_sdk.Stream.Spec.{Stream}
use rokid_openvoice_sdk.Tts.{TtsResultIn}
use rokid_openvoice_sdk.Tts.Poll.{nothing}
use rokid_openvoice_sdk.Tts.Track.{Streams, HasValue, Matches, LastLive, Belongs, Tracks}

-- What is popped for the operation at the front.
abbrev pub Popped : (ℕ → Operation) → ℕ → List ℕ → Out TtsResultIn → PopType → Streams → Type 0
Popped st h hs out pop_empty ss = Tracks st (h ∷ hs) ss
Popped st h hs out pop_data ss = (out.id ≡ (st h).id) × HasValue out.res × Tracks st (h ∷ hs) ss
Popped st h hs out pop_start ss = (out.id ≡ (st h).id) × Tracks st (h ∷ hs) ss
Popped st h hs out pop_end ss =
    (out.id ≡ (st h).id) × (is_live (st h).status ≡ false) × Tracks st hs ss
Popped st h hs out pop_removed ss = ⊥
Popped st h hs out pop_error ss = ⊥

Tracks-first :
    (st : ℕ → Operation) (h : ℕ) (hs : List ℕ) (t : Stream TtsResultIn ℕ) (rest : Streams)
    → All (λ k. (st k).id ≢ (st h).id) hs
    → LastLive (st h).status hs
    → Belongs (st h) t
    → Tracks st hs rest
    → Tracks st (h ∷ hs) (t ∷ rest)
Tracks-first st h hs t rest d l b k = (d, l, inr (t, rest, refl, b, k))

no_deleted : (x : Status) → Matches x deleted → ⊥
no_deleted Status.start y = y
no_deleted Status.streaming y = y
no_deleted Status.ended y = y
no_deleted Status.cancelled y = y
no_deleted Status.error y = y

no_error : (x : Status) → Matches x error → ⊥
no_error Status.start y = y
no_error Status.streaming y = y
no_error Status.ended y = y
no_error Status.cancelled y = y
no_error Status.error y = y

-- The operation of a stream that is no longer fed is over.
over : (a : Status) (k : Kind) → Matches a k → Stream.is_uncompleted k ≡ false → is_live a ≡ false
over a uncompleted m u = absurd (cc)
over Status.start completed m u = absurd m
over Status.streaming completed m u = absurd m
over Status.ended completed m u = refl
over Status.cancelled completed m u = refl
over Status.error completed m u = refl
over a deleted m u = absurd (no_deleted a m)
over a error m u = absurd (no_error a m)

-- The first stream, when it is that of the front operation.
pop_live-Popped :
    (st : ℕ → Operation) (h : ℕ) (hs : List ℕ) (t : Stream TtsResultIn ℕ) (rest : Streams)
    → All (λ k. (st k).id ≢ (st h).id) hs
    → LastLive (st h).status hs
    → Belongs (st h) t
    → Tracks st hs rest
    → let x = Spec.pop_live t rest nothing in Popped st h hs x.1.0 x.1.1 x.0
unfolding Spec.pop_live
pop_live-Popped st h hs t rest d l (i, m, v) k = elim (Bool-cases t.polling) [
  | inl p ↦ simp p (datas t.datas v refl)
  | inr p ↦ simp p (i, Tracks-first st h hs (record t { polling = true }) rest d l (i, m, v) k)
]
  where
    datas :
        (ds : List (Option TtsResultIn))
        → All HasValue ds
        → t.datas ≡ ds
        → let x = Spec.pop_datas ds t rest nothing in Popped st h hs x.1.0 x.1.1 x.0
    datas [] a e =
        unfold Spec.pop_datas in
        (elim (Bool-cases (Stream.is_uncompleted t.kind)) [
          | inl u ↦ simp u (Tracks-first st h hs t rest d l (i, m, v) k)
          | inr u ↦ simp u (i, over (st h).status t.kind m u, k)
        ])
    datas (x ∷ xs) a e =
        unfold Spec.pop_datas in
        (i, a.0, Tracks-first st h hs (record t { datas = xs }) rest d l (i, m, a.1) k)

pub pop_kind-Popped :
    (st : ℕ → Operation) (h : ℕ) (hs : List ℕ) (t : Stream TtsResultIn ℕ) (rest : Streams)
    (kind : Kind)
    → t.kind ≡ kind
    → All (λ k. (st k).id ≢ (st h).id) hs
    → LastLive (st h).status hs
    → Belongs (st h) t
    → Tracks st hs rest
    → let x = Spec.pop_kind kind t rest nothing in Popped st h hs x.1.0 x.1.1 x.0
unfolding Spec.pop_kind
pop_kind-Popped st h hs t rest uncompleted e d l b k = pop_live-Popped st h hs t rest d l b k
pop_kind-Popped st h hs t rest completed e d l b k = pop_live-Popped st h hs t rest d l b k
pop_kind-Popped st h hs t rest deleted e d l (i, m, v) k =
    absurd (no_deleted (st h).status (subst (Matches (st h).status) e m))
pop_kind-Popped st h hs t rest error e d l (i, m, v) k =
    absurd (no_error (st h).status (subst (Matches (st h).status) e m))

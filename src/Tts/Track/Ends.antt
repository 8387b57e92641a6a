-- ===== src/Tts/Track/Ends.antt =====
-- The start and the end of the stream of one operation of `TtsImpl` (src/tts/tts_impl.cc), with the
-- streams still matched to the operations.
use rokid_openvoice_sdk.Base.{
  ℕ, ◌≡◌, ◌≢◌, inl, inr, refl, ap, sym, ◌∙◌, subst, false, none, List, [], ◌∷◌, All, ◌==◌,
  Option-cases, arith,
}
use rokid_openvoice_sdk.OpCtl.{Status, Operation}
use rokid_openvoice_sdk.OpCtl.Invariant.{In, is_live}
use rokid_openvoice_sdk.Stream.{Kind, uncompleted, completed, deleted, error}
use rokid_openvoice_sdk.Stream.Spec
use rokid_openvoice_sdk.Stream.Spec.{Stream}
use rokid_openvoice_sdk.Stream.Protocol.{lookup_self, update_self}
use rokid_openvoice_sdk.Tts.{TtsResultIn}
use rokid_openvoice_sdk.Tts.Track.{Streams, Matches, Streamless, LastLive, Tracks, lookup-none}
use rokid_openvoice_sdk.Tts.Track.Settles.{Tracks-Settles}
use rokid_openvoice_sdk.Tts.Track.Streams.{Tracks-at, all_at}

other_id : (a b : ℕ) → a ≢ b → (a == b) ≡ false
other_id a b n = ground arith

lookup_skip :
    (id : ℕ) (t : Stream TtsResultIn ℕ) (rest : Streams)
    → t.id ≢ id
    → Spec.lookup id (t ∷ rest) ≡ Spec.lookup id rest
unfolding Spec.lookup
lookup_skip id t rest n = let e = other_id t.id id n in simp (e, Spec.lookup) refl

start_skip :
    (id : ℕ) (t : Stream TtsResultIn ℕ) (rest : Streams)
    → t.id ≢ id
    → (Spec.start id (t ∷ rest)).0 ≡ t ∷ (Spec.start id rest).0
unfolding Spec.start
start_skip id t rest n =
    let l = lookup_skip id t rest n in
    elim (Option-cases (Spec.lookup id rest)) [
      | inl e ↦ let e' = l ∙ e in simp (e, e', Spec.start) refl
      | inr (x, e) ↦ let e' = l ∙ e in simp (e, e', Spec.start) refl
    ]

end_skip :
    (id : ℕ) (t : Stream TtsResultIn ℕ) (rest : Streams)
    → t.id ≢ id
    → (Spec.end id none (t ∷ rest)).0 ≡ t ∷ (Spec.end id none rest).0
unfolding Spec.end Spec.update
end_skip id t rest n =
    let l = lookup_skip id t rest n in
    let d = other_id t.id id n in
    elim (Option-cases (Spec.lookup id rest)) [
      | inl e ↦ let e' = l ∙ e in simp (e, e', Spec.end) refl
      | inr (x, e) ↦ let e' = l ∙ e in simp (e, e', Spec.end) (simp (d, Spec.update) refl)
    ]

end_first :
    (t : Stream TtsResultIn ℕ) (rest : Streams)
    → (Spec.end t.id none (t ∷ rest)).0 ≡ Spec.finish none t ∷ rest
unfolding Spec.end
end_first t rest = rw (lookup_self t rest, Spec.end) (update_self (Spec.finish none) t rest)

pub no_stream : (k : Kind) → Matches Status.start k → ⊥
no_stream uncompleted m = m
no_stream completed m = m
no_stream deleted m = m
no_stream error m = m

-- Both stores have the same operations but for one.
module _ (st st' : ℕ → Operation) (h : ℕ) (other : (k : ℕ) → (st k).id ≢ (st h).id → st' k ≡ st k)
    (ids : (k : ℕ) → (st' k).id ≡ (st k).id) where
  elsewhere :
      (hs : List ℕ) (ss : Streams)
      → All (λ k. (st k).id ≢ (st h).id) hs
      → Tracks st hs ss
      → Tracks st' hs ss
  elsewhere hs ss d t =
      Tracks-Settles st st' hs ss
        (λ k m. (
          ids k,
          inl (
              ap (λ (o : Operation). o.status)
                (other k (all_at (λ j. (st j).id ≢ (st h).id) k hs d m))),
        ))
        t

  apart :
      (hs : List ℕ) → All (λ k. (st k).id ≢ (st h).id) hs → All (λ k. (st' k).id ≢ (st' h).id) hs
  apart [] a = tt
  apart (k ∷ hs) a = ((λ e. a.0 (sym (ids k) ∙ e ∙ ids h)), apart hs a.1)

  pub start-Tracks :
      (hs : List ℕ) (ss : Streams)
      → (st h).status ≡ Status.start
      → (st' h).status ≡ Status.streaming
      → In h hs
      → Tracks st hs ss
      → Tracks st' hs (Spec.start (st h).id ss).0
  start-Tracks hs ss a b m t =
      Tracks-at st st' h (λ x. (Spec.start (st h).id x).0) (start_skip (st h).id) other ids here hs
        ss m t
    where
      here :
          (js : List ℕ) (x : Streams)
          → Tracks st (h ∷ js) x
          → Tracks st' (h ∷ js) (Spec.start (st h).id x).0
      here js x (d, l, inr (t, rest, e, (i, y, v), k)) =
          absurd (no_stream t.kind (subst (λ z. Matches z t.kind) a y))
      here (j ∷ js) x (d, l, inl (n, k)) =
          let f : is_live Status.start ≡ false = subst (λ z. is_live z ≡ false) a l in absurd (cc)
      here [] x (d, l, inl (n, k)) =
          unfold Spec.start Spec.lookup Spec.fresh in
          (
            tt,
            tt,
            inr (
              Spec.fresh (st h).id,
              [],
              rw k refl,
              (sym (ids h), subst (λ z. Matches z uncompleted) (sym b) tt, tt),
              refl,
            ),
          )

  -- A stream is ended, and its operation's status is one that an ended stream may have.
  pub end-Tracks :
      (hs : List ℕ) (ss : Streams)
      → ((x : Streams) → Streamless (st h).status x → Streamless (st' h).status x)
      → ((k : Kind) → Matches (st h).status k → Matches (st' h).status completed)
      → ((js : List ℕ) → LastLive (st h).status js → LastLive (st' h).status js)
      → In h hs
      → Tracks st hs ss
      → Tracks st' hs (Spec.end (st h).id none ss).0
  end-Tracks hs ss less fits last m t =
      Tracks-at st st' h (λ x. (Spec.end (st h).id none x).0) (end_skip (st h).id) other ids here hs
        ss m t
    where
      here :
          (js : List ℕ) (x : Streams)
          → Tracks st (h ∷ js) x
          → Tracks st' (h ∷ js) (Spec.end (st h).id none x).0
      here js x (d, l, inl (n, k)) =
          let e = lookup-none st js x (st h).id k d in
          unfold Spec.end in
          (
            apart js d,
            last js l,
            inl (simp (e, Spec.end) (less x n), simp (e, Spec.end) (elsewhere js x d k)),
          )
      here js x (d, l, inr (t, rest, e, (i, y, v), k)) = (
        apart js d,
        last js l,
        inr (
          Spec.finish none t,
          rest,
          ap (λ z. (Spec.end (st h).id none z).0) e
              ∙ subst (λ z. (Spec.end z none (t ∷ rest)).0 ≡ Spec.finish none t ∷ rest) i
                  (end_first t rest),
          unfold Spec.finish in (i ∙ sym (ids h), fits t.kind y, v),
          elsewhere js rest d k,
        ),
      )

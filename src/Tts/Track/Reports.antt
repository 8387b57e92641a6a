-- ===== src/Tts/Track/Reports.antt =====
-- `TtsImpl::poll` of src/tts/tts_impl.cc where the streams of responses match the operations.
use rokid_openvoice_sdk.Base.{
  ℕ, ◌≡◌, ◌≢◌, ◌⊎◌, inl, inr, refl, sym, subst, true, false, Option, none, some, List, [], ◌∷◌, All,
  ◌==◌, Bool-cases, Option-cases, arith, ◌>>=◌,
}
use rokid_openvoice_sdk.OpCtl
use rokid_openvoice_sdk.OpCtl.{Status, Operation, Controller}
use rokid_openvoice_sdk.OpCtl.Invariant.{is_live}
use rokid_openvoice_sdk.Stream
use rokid_openvoice_sdk.Stream.{
  Kind, uncompleted, completed, deleted, error, Out, PopType, pop_empty, pop_data, pop_start,
  pop_end, pop_removed, pop_error,
}
use rokid_openvoice_sdk.Stream.Refine.{Refines, Simulates}
use rokid_openvoice_sdk.Stream.Spec
use rokid_openvoice_sdk.Stream.Spec.{Stream}
use rokid_openvoice_sdk.Tts.{Tts, TtsResultIn}
use rokid_openvoice_sdk.Tts.Poll.{nothing, pop_at, discard-Front, poll-front, Front}
use rokid_openvoice_sdk.Tts.Polling.{
  PollStep, poll, poll_op, poll_stream, discard, remove_front, poptype_to_restype,
}
use rokid_openvoice_sdk.Tts.Track.{
  Streams, HasValue, Streamless, LastLive, Belongs, Tracks, lookup-none,
}
use rokid_openvoice_sdk.Tts.Track.Pops.{Popped, pop_kind-Popped}

-- The queue of responses stands for streams that match the operations.
abbrev pub Tracked : Tts → Type 0
Tracked s =
    (ss : Streams) × Refines s.responses ss × Tracks s.controller.store s.controller.operations ss

-- A controller that a round of `poll` leaves: as it was, or without a front operation that is over.
abbrev pub Follows : Controller → Controller → Type 0
Follows c d =
    (d ≡ c)
    ⊎ ((d ≡ OpCtl.remove_front_op c)
        × ((h : ℕ) → OpCtl.front_op c ≡ some h → is_live (c.store h).status ≡ false))

-- A round of `poll` of a client meets no fault: the streams that it leaves match the operations, and
-- it has removed at most a front operation that is over.
abbrev pub Polled : Tts → Option (Tts × PollStep) → Type 0
Polled s none = ⊥
Polled s (some (t, r)) =
    Tracked t
    × (t.requests ≡ s.requests)
    × (t.next_id ≡ s.next_id)
    × Follows s.controller t.controller

front_over :
    (h : ℕ) (hs : List ℕ) (c : Controller)
    → c.operations ≡ h ∷ hs
    → is_live (c.store h).status ≡ false
    → (k : ℕ) → OpCtl.front_op c ≡ some k
    → is_live (c.store k).status ≡ false
unfolding OpCtl.front_op
front_over h hs c o d k e =
    let first : elim (h ∷ hs) [ [] ↦ none | j ∷ js ↦ some j ] ≡ some k =
      subst (λ x. elim x [ [] ↦ none | j ∷ js ↦ some j ] ≡ some k) o e in
    let same : h ≡ k = cc in subst (λ j. is_live (c.store j).status ≡ false) same d

same_id : (a b : ℕ) → a ≡ b → (a == b) ≡ true
same_id a b e = ground arith

-- What `poll` makes of what it pops.
poll_stream-Polled :
    (h : ℕ) (hs : List ℕ) (s : Tts) (ss : Streams) (out : Out TtsResultIn) (tp : PopType)
    → s.controller.operations ≡ h ∷ hs
    → Simulates (Stream.pop s.responses nothing) (ss, (out, tp))
    → Popped s.controller.store h hs out tp ss
    → Polled s (poll_stream (s.controller.store h) s)
unfolding poll_stream poptype_to_restype OpCtl.remove_front_op OpCtl.drop_front
poll_stream-Polled h hs s ss out pop_empty o (q, e, p) g =
    rw e ((ss, p, subst (λ x. Tracks s.controller.store x ss) (sym o) g), refl, refl, inl refl)
poll_stream-Polled h hs s ss out pop_data o (q, e, p) (i, v, g) = elim (Option-cases out.res) [
  | inl n ↦ absurd (subst HasValue n v)
  | inr (r, n) ↦
      let named = same_id out.id (s.controller.store h).id i in
      rw e (
        simp (named, n)
          ((ss, p, subst (λ x. Tracks s.controller.store x ss) (sym o) g), refl, refl, inl refl))
]
poll_stream-Polled h hs s ss out pop_start o (q, e, p) (i, g) =
    let named = same_id out.id (s.controller.store h).id i in
    rw e (
      simp named
        ((ss, p, subst (λ x. Tracks s.controller.store x ss) (sym o) g), refl, refl, inl refl))
poll_stream-Polled h hs s ss out pop_end o (q, e, p) (i, d, g) =
    let named = same_id out.id (s.controller.store h).id i in
    rw e (
      simp named (
        (ss, p, subst (λ x. Tracks s.controller.store (OpCtl.drop_front x) ss) (sym o) g),
        refl,
        refl,
        inr (refl, front_over h hs s.controller o d),
      ))
poll_stream-Polled h hs s ss out pop_removed o p g = absurd g
poll_stream-Polled h hs s ss out pop_error o p g = absurd g

-- An operation whose stream is the first.
poll_stream-first :
    (h : ℕ) (hs : List ℕ) (s : Tts) (t : Stream TtsResultIn ℕ) (rest : Streams)
    → s.controller.operations ≡ h ∷ hs
    → Refines s.responses (t ∷ rest)
    → All (λ k. (s.controller.store k).id ≢ (s.controller.store h).id) hs
    → LastLive (s.controller.store h).status hs
    → Belongs (s.controller.store h) t
    → Tracks s.controller.store hs rest
    → Polled s (poll_stream (s.controller.store h) s)
unfolding Spec.pop
poll_stream-first h hs s t rest o p d l b k =
    let x = Spec.pop_kind t.kind t rest nothing in
    poll_stream-Polled h hs s x.0 x.1.0 x.1.1 o (pop_at s.responses (t ∷ rest) nothing p)
      (pop_kind-Popped s.controller.store h hs t rest t.kind refl d l b k)

-- An operation that was given up.
discard-Polled :
    (h : ℕ) (hs : List ℕ) (s : Tts) (ss rest : Streams) (f : Tts → PollStep)
    → s.controller.operations ≡ h ∷ hs
    → Refines s.responses ss
    → Front (s.controller.store h).id ss rest
    → is_live (s.controller.store h).status ≡ false
    → Tracks s.controller.store hs rest
    → Polled s (do s' ← discard (s.controller.store h).id s; some (remove_front s', f s'))
unfolding OpCtl.remove_front_op OpCtl.drop_front
discard-Polled h hs s ss rest f o p g d k =
    let (q, e, p') = discard-Front (s.controller.store h).id s ss rest p g in
    rw e (
      (rest, p', subst (λ x. Tracks s.controller.store (OpCtl.drop_front x) rest) (sym o) k),
      refl,
      refl,
      inr (refl, front_over h hs s.controller o d),
    )

-- The stream that goes with an operation that was given up.
Tracks-rest :
    (st : ℕ → Operation) (h : ℕ) (hs : List ℕ) (ss : Streams)
    → Tracks st (h ∷ hs) ss
    → (rest : Streams) × Front (st h).id ss rest × Tracks st hs rest
Tracks-rest st h hs ss (d, l, inl (n, k)) = (ss, inl (lookup-none st hs ss (st h).id k d, refl), k)
Tracks-rest st h hs ss (d, l, inr (t, rest, e, b, k)) = (rest, inr (t, e, b.0), k)

-- An operation that is open or has ended.
poll_stream-open :
    (h : ℕ) (hs : List ℕ) (s : Tts) (ss : Streams)
    → s.controller.operations ≡ h ∷ hs
    → Refines s.responses ss
    → ((x : Streams) → Streamless (s.controller.store h).status x → x ≡ [])
    → Tracks s.controller.store (h ∷ hs) ss
    → Polled s (poll_stream (s.controller.store h) s)
unfolding Spec.pop
poll_stream-open h hs s ss o p u (d, l, inl (n, k)) =
    let e = u ss n in
    poll_stream-Polled h hs s [] nothing pop_empty o
      (pop_at s.responses [] nothing (subst (Refines s.responses) e p))
      (subst (Tracks s.controller.store (h ∷ hs)) e (d, l, inl (n, k)))
poll_stream-open h hs s ss o p u (d, l, inr (t, rest, e, b, k)) =
    poll_stream-first h hs s t rest o (subst (Refines s.responses) e p) d l b k

poll_op-Polled :
    (h : ℕ) (hs : List ℕ) (s : Tts) (ss : Streams) (status : Status)
    → (s.controller.store h).status ≡ status
    → s.controller.operations ≡ h ∷ hs
    → Refines s.responses ss
    → Tracks s.controller.store (h ∷ hs) ss
    → Polled s (poll_op status (s.controller.store h) s)
unfolding poll_op
poll_op-Polled h hs s ss Status.start e o p k =
    poll_stream-open h hs s ss o p (λ x n. subst (λ t. Streamless t x) e n) k
poll_op-Polled h hs s ss Status.streaming e o p k =
    poll_stream-open h hs s ss o p (λ x n. absurd (subst (λ t. Streamless t x) e n)) k
poll_op-Polled h hs s ss Status.ended e o p k =
    poll_stream-open h hs s ss o p (λ x n. absurd (subst (λ t. Streamless t x) e n)) k
poll_op-Polled h hs s ss Status.cancelled e o p k =
    let (rest, f, k') = Tracks-rest s.controller.store h hs ss k in
    discard-Polled h hs s ss rest _ o p f (subst (λ t. is_live t ≡ false) (sym e) refl) k'
poll_op-Polled h hs s ss Status.error e o p k =
    let (rest, f, k') = Tracks-rest s.controller.store h hs ss k in
    discard-Polled h hs s ss rest _ o p f (subst (λ t. is_live t ≡ false) (sym e) refl) k'

-- Where the streams of responses match the operations, no assertion of a round of `poll` fails and
-- it dereferences no null data; what it leaves matches again, the requests are untouched, and it has
-- removed at most a front operation that is over.
pub poll-Polled : (s : Tts) → Tracked s → Polled s (poll s)
unfolding poll OpCtl.front_op
poll-Polled s (ss, p, k) = elim (Bool-cases s.initialized) [
  | inl i ↦ front s.controller.operations i refl
  | inr i ↦
      let e : poll s ≡ some (s, PollStep.released) = simp (i, poll) refl in
      subst (Polled s) (sym e) ((ss, p, k), refl, refl, inl refl)
]
  where
    front : (hs : List ℕ) → s.initialized ≡ true → s.controller.operations ≡ hs → Polled s (poll s)
    front [] i o =
        let e : poll s ≡ some (s, PollStep.waits) = simp (i, o, poll, OpCtl.front_op) refl in
        subst (Polled s) (sym e) ((ss, p, k), refl, refl, inl refl)
    front (h ∷ hs) i o = subst (Polled s) (sym (poll-front h hs s i o)) (
        poll_op-Polled h hs s ss (s.controller.store h).status refl o p
          (subst (λ x. Tracks s.controller.store x ss) o k))

-- ===== src/Tts/Track.antt =====
-- How the operations and the streams of responses of `TtsImpl` (src/tts/tts_impl.cc) match: the
-- streams are those of some of the operations, in the same order.
pub mod Pops
pub mod Reports
pub mod Settles
pub mod Opens
pub mod Streams
pub mod Ends
pub mod Begins
pub mod Finishes
pub mod Responds
use rokid_openvoice_sdk.Base.{
  ℕ, ◌≡◌, ◌≢◌, ◌⊎◌, inl, inr, refl, ap, sym, ◌∙◌, subst, Bool, true, false, Option, none, some,
  List, [], ◌∷◌, ◌++◌, All, ◌==◌, if◌then◌else◌, Bool-cases, arith,
}
use rokid_openvoice_sdk.OpCtl.{Status, Operation}
use rokid_openvoice_sdk.OpCtl.Invariant.{is_live}
use rokid_openvoice_sdk.Stream.{Kind}
use rokid_openvoice_sdk.Stream.Spec
use rokid_openvoice_sdk.Stream.Spec.{Stream}
use rokid_openvoice_sdk.Tts.{TtsResultIn}

abbrev pub Streams : Type 0
Streams = List (Stream TtsResultIn ℕ)

abbrev pub HasValue {ℓ} : {A : Type ℓ} → Option A → Type 0
HasValue none = ⊥
HasValue (some x) = Unit

-- The state of a stream for the status of its operation; an operation that has only started has
-- no stream yet.
abbrev pub Matches : Status → Kind → Type 0
Matches Status.streaming Kind.uncompleted = Unit
Matches Status.ended Kind.completed = Unit
Matches Status.cancelled Kind.uncompleted = Unit
Matches Status.cancelled Kind.completed = Unit
Matches Status.error Kind.uncompleted = Unit
Matches Status.error Kind.completed = Unit
Matches _ _ = ⊥

-- An operation without a stream: it was given up, or it has only started; then no stream follows.
abbrev pub Streamless : Status → Streams → Type 0
Streamless Status.start ss = ss ≡ []
Streamless Status.cancelled ss = Unit
Streamless Status.error ss = Unit
Streamless _ ss = ⊥

-- Only the last operation may be live.
abbrev pub LastLive : Status → List ℕ → Type 0
LastLive st [] = Unit
LastLive st (h ∷ hs) = is_live st ≡ false

-- A stream of an operation, with no null data.
abbrev pub Belongs : Operation → Stream TtsResultIn ℕ → Type 0
Belongs o s = (s.id ≡ o.id) × Matches o.status s.kind × All HasValue s.datas

abbrev pub Tracks : (ℕ → Operation) → List ℕ → Streams → Type 0
Tracks st [] ss = ss ≡ []
Tracks st (h ∷ hs) ss =
    All (λ k. (st k).id ≢ (st h).id) hs
    × LastLive (st h).status hs
    × ((Streamless (st h).status ss × Tracks st hs ss)
        ⊎ ((s : Stream TtsResultIn ℕ) × (rest : Streams) × (ss ≡ s ∷ rest)
            × Belongs (st h) s
            × Tracks st hs rest))

-- A stream that is there is one of the operations'.
pub lookup-none :
    (st : ℕ → Operation) (hs : List ℕ) (ss : Streams) (id : ℕ)
    → Tracks st hs ss
    → All (λ k. (st k).id ≢ id) hs
    → Spec.lookup id ss ≡ none
unfolding Spec.lookup
lookup-none st [] ss id e a = rw e refl
lookup-none st (h ∷ hs) ss id (d, l, inl (n, t)) a = lookup-none st hs ss id t a.1
lookup-none st (h ∷ hs) ss id (d, l, inr (s, rest, e, b, t)) a =
    let differs : (s.id == id) ≡ false = let i = b.0 in let n = a.0 in ground arith in
    rw e (simp differs (lookup-none st hs rest id t a.1))

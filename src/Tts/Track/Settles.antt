-- ===== src/Tts/Track/Settles.antt =====
-- The calls of `TtsImpl` (src/tts/tts_impl.cc) that only give up or refresh operations keep the
-- streams of responses matched to them.
use rokid_openvoice_sdk.Base.{
  ℕ, ◌≡◌, ◌≢◌, ◌⊎◌, inl, inr, refl, sym, ◌∙◌, subst, Bool, true, false, not, List, [], ◌∷◌, All,
  ◌==◌, if◌then◌else◌, Bool-cases, Option-cases, is_positive,
}
use rokid_openvoice_sdk.OpCtl
use rokid_openvoice_sdk.OpCtl.{Status, Operation, Controller, write}
use rokid_openvoice_sdk.OpCtl.Cancel.{Later, loop-Later}
use rokid_openvoice_sdk.OpCtl.Invariant.{In, is_live}
use rokid_openvoice_sdk.Stream.{Kind, uncompleted, completed, deleted, error}
use rokid_openvoice_sdk.Tts.{Tts, cancel, mark_deleted}
use rokid_openvoice_sdk.Tts.Track.{Streams, Matches, Streamless, LastLive, Tracks}
use rokid_openvoice_sdk.Tts.Track.Reports.{Tracked}

-- A status stays, or becomes that of an operation that was given up.
abbrev pub GivesUp : Status → Status → Type 0
GivesUp a b = (b ≡ a) ⊎ ((b ≡ Status.cancelled) ⊎ (b ≡ Status.error))

abbrev pub SettlesOn : List ℕ → (ℕ → Operation) → (ℕ → Operation) → Type 0
SettlesOn hs st st' =
    (k : ℕ) → In k hs → ((st' k).id ≡ (st k).id) × GivesUp (st k).status (st' k).status

abbrev pub Settles : (ℕ → Operation) → (ℕ → Operation) → Type 0
Settles st st' = (k : ℕ) → ((st' k).id ≡ (st k).id) × GivesUp (st k).status (st' k).status

Streamless-GivesUp : (a b : Status) (ss : Streams) → GivesUp a b → Streamless a ss → Streamless b ss
Streamless-GivesUp a b ss (inl e) n = subst (λ t. Streamless t ss) (sym e) n
Streamless-GivesUp a b ss (inr (inl e)) n = subst (λ t. Streamless t ss) (sym e) tt
Streamless-GivesUp a b ss (inr (inr e)) n = subst (λ t. Streamless t ss) (sym e) tt

Matches-given_up :
    (a : Status) (k : Kind) → Matches a k → Matches Status.cancelled k × Matches Status.error k
Matches-given_up a uncompleted m = (tt, tt)
Matches-given_up a completed m = (tt, tt)
Matches-given_up Status.start deleted m = absurd m
Matches-given_up Status.streaming deleted m = absurd m
Matches-given_up Status.ended deleted m = absurd m
Matches-given_up Status.cancelled deleted m = absurd m
Matches-given_up Status.error deleted m = absurd m
Matches-given_up Status.start error m = absurd m
Matches-given_up Status.streaming error m = absurd m
Matches-given_up Status.ended error m = absurd m
Matches-given_up Status.cancelled error m = absurd m
Matches-given_up Status.error error m = absurd m

Matches-GivesUp : (a b : Status) (k : Kind) → GivesUp a b → Matches a k → Matches b k
Matches-GivesUp a b k (inl e) m = subst (λ t. Matches t k) (sym e) m
Matches-GivesUp a b k (inr (inl e)) m = subst (λ t. Matches t k) (sym e) (Matches-given_up a k m).0
Matches-GivesUp a b k (inr (inr e)) m = subst (λ t. Matches t k) (sym e) (Matches-given_up a k m).1

LastLive-GivesUp : (a b : Status) (hs : List ℕ) → GivesUp a b → LastLive a hs → LastLive b hs
LastLive-GivesUp a b [] g l = tt
LastLive-GivesUp a b (h ∷ hs) (inl e) l = subst (λ t. is_live t ≡ false) (sym e) l
LastLive-GivesUp a b (h ∷ hs) (inr (inl e)) l = subst (λ t. is_live t ≡ false) (sym e) refl
LastLive-GivesUp a b (h ∷ hs) (inr (inr e)) l = subst (λ t. is_live t ≡ false) (sym e) refl

ids_kept :
    (st st' : ℕ → Operation) (i j : ℕ) (hs : List ℕ)
    → SettlesOn hs st st'
    → j ≡ i
    → All (λ k. (st k).id ≢ i) hs
    → All (λ k. (st' k).id ≢ j) hs
ids_kept st st' i j [] w e a = tt
ids_kept st st' i j (h ∷ hs) w e a =
    ((λ d. a.0 (sym (w h (inl refl)).0 ∙ d ∙ e)), ids_kept st st' i j hs (λ k m. w k (inr m)) e a.1)

-- Operations given up, with the same streams.
pub Tracks-Settles :
    (st st' : ℕ → Operation) (hs : List ℕ) (ss : Streams)
    → SettlesOn hs st st'
    → Tracks st hs ss
    → Tracks st' hs ss
Tracks-Settles st st' [] ss w e = e
Tracks-Settles st st' (h ∷ hs) ss w (d, l, inl (n, k)) = (
  ids_kept st st' (st h).id (st' h).id hs (λ k m. w k (inr m)) (w h (inl refl)).0 d,
  LastLive-GivesUp (st h).status (st' h).status hs (w h (inl refl)).1 l,
  inl (
    Streamless-GivesUp (st h).status (st' h).status ss (w h (inl refl)).1 n,
    Tracks-Settles st st' hs ss (λ k m. w k (inr m)) k,
  ),
)
Tracks-Settles st st' (h ∷ hs) ss w (d, l, inr (t, rest, e, (i, m, v), k)) = (
  ids_kept st st' (st h).id (st' h).id hs (λ k m. w k (inr m)) (w h (inl refl)).0 d,
  LastLive-GivesUp (st h).status (st' h).status hs (w h (inl refl)).1 l,
  inr (
    t,
    rest,
    e,
    (
      i ∙ sym (w h (inl refl)).0,
      Matches-GivesUp (st h).status (st' h).status t.kind (w h (inl refl)).1 m,
      v,
    ),
    Tracks-Settles st st' hs rest (λ k m. w k (inr m)) k,
  ),
)

Settles-refl : (st : ℕ → Operation) → Settles st st
Settles-refl st k = (refl, inl refl)

pub Settles-write :
    (h : ℕ) (f : Operation → Operation) (st : ℕ → Operation)
    → ((o : Operation) → ((f o).id ≡ o.id) × GivesUp o.status (f o).status)
    → Settles st (write h f st)
Settles-write h f st w k = elim (Bool-cases (h == k)) [
  | inl t ↦ rw t (w (st k))
  | inr t ↦ rw t (refl, inl refl)
]

Later-Settles : (st st' : ℕ → Operation) → Later st st' → Settles st st'
Later-Settles st st' l k = ((l k).0, elim (l k).1 [ inl e ↦ inl e | inr e ↦ inr (inl e) ])

-- The calls of the controller keep `operations_` and settle.
abbrev pub Keeps : Controller → Controller → Type 0
Keeps c d = (d.operations ≡ c.operations) × Settles c.store d.store

pub set_op_error-Keeps : (err : ℕ) (c : Controller) → Keeps c (OpCtl.set_op_error err c)
unfolding OpCtl.set_op_error
set_op_error-Keeps err c = elim (Option-cases c.current) [
  | inl e ↦ simp (e, OpCtl.set_op_error) (refl, Settles-refl c.store)
  | inr (h, e) ↦
      let f : Operation → Operation = λ o. record o { status = Status.error; error_code = err } in
      simp (e, OpCtl.set_op_error) (refl, Settles-write h f c.store (λ o. (refl, inr (inr refl))))
]

pub refresh_op_time-Keeps :
    (recv : Bool) (now : ℕ) (c : Controller) → Keeps c (OpCtl.refresh_op_time recv now c)
unfolding OpCtl.refresh_op_time
refresh_op_time-Keeps recv now c = elim (Option-cases c.current) [
  | inl e ↦ simp (e, OpCtl.refresh_op_time) (refl, Settles-refl c.store)
  | inr (h, e) ↦
      let f : Operation → Operation = λ o. record o {
        calc_op_timeout = true;
        begin_timepoint = now;
        lastest_recv_timepoint = if recv then now else o.lastest_recv_timepoint;
      } in
      simp (e, OpCtl.refresh_op_time) (refl, Settles-write h f c.store (λ o. (refl, inl refl)))
]

pub cancel_op-Keeps : (id : ℕ) (c : Controller) → Keeps c (OpCtl.cancel_op id c)
unfolding OpCtl.cancel_op
cancel_op-Keeps id c =
    let l =
      Later-Settles c.store (OpCtl.cancel_loop id c.current c.operations c.store false).0
        (loop-Later id c.current c.operations c.store false) in
    elim (Bool-cases (OpCtl.cancel_loop id c.current c.operations c.store false).1) [
      | inl e ↦ simp e (refl, l)
      | inr e ↦ simp e (refl, l)
    ]

-- The client after such a call.
pub Tracked-Keeps :
    (s : Tts) (d : Controller)
    → Keeps s.controller d
    → Tracked s
    → Tracked (record s { controller = d })
Tracked-Keeps s d (o, w) (ss, p, k) = (
  ss,
  p,
  subst (λ x. Tracks d.store x ss) (sym o)
      (Tracks-Settles s.controller.store d.store s.controller.operations ss (λ h m. w h) k),
)

abbrev next_controller : Bool → Bool → ℕ → Tts → Controller
next_controller b e id s =
    if b
    then OpCtl.cancel_op 0 s.controller
    else if e
    then OpCtl.cancel_op id s.controller
    else s.controller

cancelled_controller :
    (b e : Bool) (id : ℕ) (s : Tts) → Keeps s.controller (next_controller b e id s)
cancelled_controller true e id s = cancel_op-Keeps 0 s.controller
cancelled_controller false true id s = cancel_op-Keeps id s.controller
cancelled_controller false false id s = (refl, Settles-refl s.controller.store)

-- `cancel` of a client whose streams of responses match the operations, with whatever id: they match
-- again, whichever operations it gives up.
pub cancel-Tracked : (id : ℕ) (s : Tts) → Tracked s → Tracked (cancel id s)
unfolding cancel
cancel-Tracked id s t = elim (Bool-cases s.initialized) [
  | inr i ↦ simp i t
  | inl i ↦
      let b = not (is_positive id) in
      let e = not (mark_deleted id s.requests).1 in
      simp i (Tracked-Keeps s (next_controller b e id s) (cancelled_controller b e id s) t)
]

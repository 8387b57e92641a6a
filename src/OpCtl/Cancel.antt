-- ===== src/OpCtl/Cancel.antt =====
-- `OperationController::cancel_op` (src/common/op_ctl.h).
use rokid_openvoice_sdk.Base.{
  ℕ, suc, ◌≡◌, ◌⊎◌, inl, inr, refl, sym, ◌∙◌, ap, subst, Bool, true, false, Option, none, some,
  List, [], ◌∷◌, ◌==◌, if◌then◌else◌, Bool-cases, arith, is_positive, ==-refl,
}
use rokid_openvoice_sdk.OpCtl.{
  cancelled, Operation, Controller, write, with_status, current_is, cancel_loop, cancel_op,
}
use rokid_openvoice_sdk.OpCtl.Invariant.{
  is_live, In, WellFormed, kept-WellFormed, settled-WellFormed,
}

-- A write by the loop: an operation keeps its id, and its status unless it is cancelled.
abbrev pub Later : (ℕ → Operation) → (ℕ → Operation) → Type 0
Later st st' =
    (k : ℕ)
    → ((st' k).id ≡ (st k).id) × (((st' k).status ≡ (st k).status) ⊎ ((st' k).status ≡ cancelled))

Later-refl : (st : ℕ → Operation) → Later st st
Later-refl st k = (refl, inl refl)

Later-trans : (a b c : ℕ → Operation) → Later a b → Later b c → Later a c
Later-trans a b c p q k = (
  (q k).0 ∙ (p k).0,
  elim (q k).1 [
    | inr e ↦ inr e
    | inl e ↦ elim (p k).1 [ inl d ↦ inl (e ∙ d) | inr d ↦ inr (e ∙ d) ]
  ],
)

Later-write : (h : ℕ) (st : ℕ → Operation) → Later st (write h (with_status cancelled) st)
Later-write h st k = elim (Bool-cases (h == k)) [
  | inl t ↦ rw t (refl, inr refl)
  | inr t ↦ rw t (refl, inl refl)
]

-- The three ways through a round of the loop.
pub data Round (id h : ℕ) (hs : List ℕ) (cur : Option ℕ) (st : ℕ → Operation) (need : Bool)
    : Type 0 where
  only :
      cancel_loop id cur (h ∷ hs) st need
        ≡ (write h (with_status cancelled) st, if current_is (st h).id cur st then true else need)
      → Round id h hs cur st need
  every :
      cancel_loop id cur (h ∷ hs) st need
        ≡ cancel_loop id cur hs
            (write h (with_status cancelled) st)
            (if current_is (st h).id cur st then true else need)
      → Round id h hs cur st need
  missed :
      cancel_loop id cur (h ∷ hs) st need ≡ cancel_loop id cur hs st need
      → Round id h hs cur st need

pub round :
    (id h : ℕ) (hs : List ℕ) (cur : Option ℕ) (st : ℕ → Operation) (need : Bool)
    → Round id h hs cur st need
unfolding cancel_loop
round id h hs cur st need = elim (Bool-cases (is_positive id)) [
  | inr p ↦ every (rw (p, cancel_loop) refl)
  | inl p ↦ elim (Bool-cases (id == (st h).id)) [
    | inl e ↦ only (rw (p, cancel_loop) (rw e refl))
    | inr e ↦ missed (rw (p, cancel_loop) (rw e refl))
  ]
]

pub loop-Later :
    (id : ℕ) (cur : Option ℕ) (hs : List ℕ) (st : ℕ → Operation) (need : Bool)
    → Later st (cancel_loop id cur hs st need).0
unfolding cancel_loop
loop-Later id cur [] st need = Later-refl st
loop-Later id cur (h ∷ hs) st need = elim (round id h hs cur st need) [
  | only e ↦ subst (λ r. Later st r.0) (sym e) (Later-write h st)
  | every e ↦
      let w : ℕ → Operation = write h (with_status cancelled) st in
      let n : Bool = if current_is (st h).id cur st then true else need in
      subst (λ r. Later st r.0) (sym e)
        (Later-trans st w (cancel_loop id cur hs w n).0 (Later-write h st)
          (loop-Later id cur hs w n))
  | missed e ↦ subst (λ r. Later st r.0) (sym e) (loop-Later id cur hs st need)
]

-- What the loop says of the current operation, it says of one that it cancelled.
abbrev Hit : List ℕ → Option ℕ → (ℕ → Operation) → (ℕ → Operation) → Type 0
Hit hs cur st st' =
    (k : ℕ) × In k hs × (current_is (st k).id cur st ≡ true) × ((st' k).status ≡ cancelled)

current_is-Later :
    (i j : ℕ) (cur : Option ℕ) (st st' : ℕ → Operation)
    → Later st st'
    → j ≡ i
    → current_is j cur st' ≡ current_is i cur st
unfolding current_is
current_is-Later i j none st st' l e = refl
current_is-Later i j (some h) st st' l e = rw ((l h).0, e) refl

Hit-further :
    (h : ℕ) (hs : List ℕ) (cur : Option ℕ) (st st' end : ℕ → Operation)
    → Later st st'
    → Hit hs cur st' end
    → Hit (h ∷ hs) cur st end
Hit-further h hs cur st st' end l (k, m, c, e) =
    (k, inr m, sym (current_is-Later (st k).id (st' k).id cur st st' l (l k).0) ∙ c, e)

Hit-here :
    (h : ℕ) (hs : List ℕ) (cur : Option ℕ) (st end : ℕ → Operation) (need : Bool)
    → Later (write h (with_status cancelled) st) end
    → (if current_is (st h).id cur st then true else need) ≡ true
    → (need ≡ true) ⊎ Hit (h ∷ hs) cur st end
Hit-here h hs cur st end need l e = elim (Bool-cases (current_is (st h).id cur st)) [
  | inl c ↦ inr (h, inl refl, c, elim (l h).1 [ inl s ↦ s ∙ rw (==-refl h) refl | inr s ↦ s ])
  | inr c ↦ inl (rw (← e, c) refl)
]

loop-Hit :
    (id : ℕ) (cur : Option ℕ) (hs : List ℕ) (st : ℕ → Operation) (need : Bool)
    → (cancel_loop id cur hs st need).1 ≡ true
    → (need ≡ true) ⊎ Hit hs cur st (cancel_loop id cur hs st need).0
unfolding cancel_loop
loop-Hit id cur [] st need e = inl e
loop-Hit id cur (h ∷ hs) st need e = elim (round id h hs cur st need) [
  | only r ↦
      let w : ℕ → Operation = write h (with_status cancelled) st in
      subst (λ x. (need ≡ true) ⊎ Hit (h ∷ hs) cur st x.0) (sym r)
        (Hit-here h hs cur st w need (Later-refl w) (sym (ap (λ x. x.1) r) ∙ e))
  | every r ↦
      let w : ℕ → Operation = write h (with_status cancelled) st in
      let n : Bool = if current_is (st h).id cur st then true else need in
      let end : ℕ → Operation = (cancel_loop id cur hs w n).0 in
      subst (λ x. (need ≡ true) ⊎ Hit (h ∷ hs) cur st x.0) (sym r)
        (elim (loop-Hit id cur hs w n (sym (ap (λ x. x.1) r) ∙ e)) [
          | inl m ↦ Hit-here h hs cur st end need (loop-Later id cur hs w n) m
          | inr m ↦ inr (Hit-further h hs cur st w end (Later-write h st) m)
        ])
  | missed r ↦
      subst (λ x. (need ≡ true) ⊎ Hit (h ∷ hs) cur st x.0) (sym r)
        (elim (loop-Hit id cur hs st need (sym (ap (λ x. x.1) r) ∙ e)) [
          | inl n ↦ inl n
          | inr n ↦
              inr (Hit-further h hs cur st st (cancel_loop id cur hs st need).0 (Later-refl st) n)
        ])
]

-- An operation that is live after the loop was live before it.
live_before :
    (st st' : ℕ → Operation) (k : ℕ)
    → Later st st'
    → is_live (st' k).status ≡ true
    → is_live (st k).status ≡ true
live_before st st' k l e = elim (l k).1 [
  | inl s ↦ rw (← s) e
  | inr s ↦ let dead : is_live (st' k).status ≡ false = rw s refl in absurd (cc)
]

-- When the loop has hit the current operation, it left nothing live.
none_left :
    (c : Controller) (st : ℕ → Operation)
    → WellFormed c
    → Later c.store st
    → Hit c.operations c.current c.store st
    → (k : ℕ) → In k c.operations
    → is_live (st k).status ≡ true
    → ⊥
unfolding current_is
none_left c st w l (h, m, e, dead) k n live =
    let cur = w.one_live k n (live_before c.store st k l live) in
    let same_id : (c.store k).id ≡ (c.store h).id = is_id k cur e in
    let same = w.unique k h n m same_id in
    let gone : is_live (st k).status ≡ false = rw (same, dead) refl in absurd (cc)
  where
    is_id :
        (k : ℕ)
        → c.current ≡ some k
        → current_is (c.store h).id c.current c.store ≡ true
        → (c.store k).id ≡ (c.store h).id
    is_id k cur e =
        let r : ((c.store k).id == (c.store h).id) ≡ true =
          subst (λ o. current_is (c.store h).id o c.store ≡ true) cur e in
        ground arith

-- Cancelling keeps the invariant.
pub cancel_op-WellFormed : (id : ℕ) (c : Controller) → WellFormed c → WellFormed (cancel_op id c)
unfolding cancel_op
cancel_op-WellFormed id c w =
    let r : (ℕ → Operation) × Bool = cancel_loop id c.current c.operations c.store false in
    let l : Later c.store r.0 = loop-Later id c.current c.operations c.store false in
    elim (Bool-cases r.1) [
      | inr e ↦ rw e (kept-WellFormed c r.0 w (λ k. (l k).0) (λ k. live_before c.store r.0 k l))
      | inl e ↦ rw e (
          settled-WellFormed c r.0 (suc c.notified) (suc c.polled) w (λ k. (l k).0)
            (elim (loop-Hit id c.current c.operations c.store false e) [
              | inl f ↦ absurd (cc)
              | inr hit ↦ none_left c r.0 w l hit
            ]))
    ]

all_round :
    (id h : ℕ) (hs : List ℕ) (cur : Option ℕ) (st : ℕ → Operation) (need : Bool)
    → is_positive id ≡ false
    → cancel_loop id cur (h ∷ hs) st need
      ≡ cancel_loop id cur hs
          (write h (with_status cancelled) st)
          (if current_is (st h).id cur st then true else need)
unfolding cancel_loop
all_round id h hs cur st need p = rw (p, cancel_loop) refl

loop_all :
    (id : ℕ) (cur : Option ℕ) (hs : List ℕ) (st : ℕ → Operation) (need : Bool) (k : ℕ)
    → is_positive id ≡ false
    → In k hs
    → ((cancel_loop id cur hs st need).0 k).status ≡ cancelled
loop_all id cur [] st need k p m = elim m [ ]
loop_all id cur (h ∷ hs) st need k p m =
    let w : ℕ → Operation = write h (with_status cancelled) st in
    let n : Bool = if current_is (st h).id cur st then true else need in
    rw (all_round id h hs cur st need p) (elim m [
      | inl e ↦ elim (loop-Later id cur hs w n k).1 [
        | inl s ↦ s ∙ rw (e, ==-refl h) refl
        | inr s ↦ s
      ]
      | inr t ↦ loop_all id cur hs w n k p t
    ])

-- Cancelling every operation (`id <= 0`) cancels each that `poll` has still to report.
pub cancel_op-all :
    (id h : ℕ) (c : Controller)
    → is_positive id ≡ false
    → In h c.operations
    → ((cancel_op id c).store h).status ≡ cancelled
unfolding cancel_op
cancel_op-all id h c p m =
    let r : (ℕ → Operation) × Bool = cancel_loop id c.current c.operations c.store false in
    elim (Bool-cases r.1) [
      | inl e ↦ rw e (loop_all id c.current c.operations c.store false h p m)
      | inr e ↦ rw e (loop_all id c.current c.operations c.store false h p m)
    ]

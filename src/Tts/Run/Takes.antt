-- ===== src/Tts/Run/Takes.antt =====
-- The sending thread of `TtsImpl` (src/tts/tts_impl.cc) that takes a request, as a step of the client.
use rokid_openvoice_sdk.Base.{
  ℕ, suc, ◌<◌, ◌≤◌, ◌≡◌, ◌≢◌, inl, inr, refl, sym, ap, subst, true, false, none, List, [], ◌∷◌,
  ◌==◌, Bool-cases, Option-cases, arith, ==-refl,
}
use rokid_openvoice_sdk.OpCtl
use rokid_openvoice_sdk.OpCtl.{Status, Operation, Controller, write}
use rokid_openvoice_sdk.OpCtl.Ends.{new_op-WellFormed}
use rokid_openvoice_sdk.OpCtl.Invariant.{is_live, In, WellFormed, In-append}
use rokid_openvoice_sdk.Tts.{Tts, TtsReq}
use rokid_openvoice_sdk.Tts.Requests.{Send, skips, sends, send_take, do_ctl_new_op}
use rokid_openvoice_sdk.Tts.Run.{idle, gone, taken, after_take}
use rokid_openvoice_sdk.Tts.Run.Serves.{Ascends, Sane, Serves-refl, Serves-Sane}
use rokid_openvoice_sdk.Tts.Track.Opens.{new_op-Tracks}
use rokid_openvoice_sdk.Tts.Track.Reports.{Tracked}

-- The operations with the one of the request that is taken.
new_op-below :
    (id now : ℕ) (status : Status) (c : Controller)
    → WellFormed c
    → ((h : ℕ) → In h c.operations → (c.store h).id < id)
    → (h : ℕ) → In h (OpCtl.new_op id status now c).operations
    → ((OpCtl.new_op id status now c).store h).id ≤ id
unfolding OpCtl.new_op
new_op-below id now status c w below h i = elim (In-append h c.next c.operations i) [
  | inl j ↦
      let fresh = w.fresh h j in
      let other : (c.next == h) ≡ false = ground arith in
      let old = below h j in rw other (omega (arith, old))
  | inr e ↦ rw e (rw (==-refl c.next) (omega arith))
]

-- A request is taken while no operation is current.
record Takes (req : TtsReq) (s : Tts) : Type 0 where
  well : WellFormed s.controller
  tracked : Tracked s
  free : s.controller.current ≡ none
  below : (h : ℕ) → In h s.controller.operations → (s.controller.store h).id < req.id
  after : Ascends req.id s.requests s.next_id

unused :
    (req : TtsReq) (s : Tts)
    → Takes req s
    → (h : ℕ) → In h s.controller.operations
    → (s.controller.store h).id ≢ req.id
unused req s w h i e = let b = w.below h i in absurd (omega (arith, b, e))

-- One that was cancelled leaves a cancelled operation.
recorded-Sane :
    (req : TtsReq) (now n : ℕ) (s : Tts)
    → Takes req s
    → Sane (record {
      tts = record s {
        controller = OpCtl.new_op req.id Status.cancelled now s.controller;
        resp_notified = n;
      };
      sender = idle;
    })
unfolding OpCtl.new_op OpCtl.is_start
recorded-Sane req now n s w =
    let (ss, p, k) = w.tracked in
    record {
      well =
          new_op-WellFormed req.id Status.cancelled now s.controller w.well (unused req s w)
            (inr refl);
      tracked = (
        ss,
        p,
        new_op-Tracks req.id now Status.cancelled s.controller ss w.well w.free (unused req s w)
            (λ x e. tt) k,
      );
      live = λ h d. let no = w.free in absurd (cc);
      busy = λ h d. let no = w.free in absurd (cc);
      ordered =
          (req.id, new_op-below req.id now Status.cancelled s.controller w.well w.below, w.after);
    }

-- Any other opens one, which the sending thread is at.
opened-Sane :
    (req : TtsReq) (now : ℕ) (s : Tts)
    → Takes req s
    → Sane (record {
      tts = record s { controller = OpCtl.new_op req.id Status.start now s.controller };
      sender = taken req;
    })
unfolding OpCtl.new_op OpCtl.is_start
opened-Sane req now s w =
    let (ss, p, k) = w.tracked in
    record {
      well =
          new_op-WellFormed req.id Status.start now s.controller w.well (unused req s w)
            (inl (refl, w.free));
      tracked = (
        ss,
        p,
        new_op-Tracks req.id now Status.start s.controller ss w.well w.free (unused req s w)
            (λ x e. e) k,
      );
      live = λ h d.
          let same : s.controller.next ≡ h = cc in
          ap (λ (o : Operation). is_live o.status) (own h same);
      busy =
          λ h d. let same : s.controller.next ≡ h = cc in ap (λ (o : Operation). o.id) (own h same);
      ordered = (req.id, new_op-below req.id now Status.start s.controller w.well w.below, w.after);
    }
  where
    made : Operation
    made = record {
      id = req.id;
      status = Status.start;
      error_code = 0;
      begin_timepoint = 0;
      lastest_recv_timepoint = now;
      calc_op_timeout = false;
    }

    own :
        (h : ℕ)
        → s.controller.next ≡ h
        → write s.controller.next (λ o. made) s.controller.store h ≡ made
    own h e = rw (← e) (rw (==-refl s.controller.next) refl)

taken-Sane :
    (req : TtsReq) (now : ℕ) (s : Tts)
    → Takes req s
    → let (t, status) = do_ctl_new_op req now s in
      Sane (record {
        tts = t;
        sender = after_take (elim status [ Status.start ↦ sends req | _ ↦ skips ]);
      })
unfolding do_ctl_new_op after_take
taken-Sane req now s w = elim (Bool-cases req.deleted) [
  | inl e ↦ simp e (recorded-Sane req now (suc s.resp_notified) s w)
  | inr e ↦ simp e (opened-Sane req now s w)
]

-- A round of the sending thread at the head of its loop.
pub send_take-Sane :
    (now : ℕ) (s : Tts)
    → Sane (record { tts = s; sender = idle })
    → Sane (record { tts = (send_take now s).0; sender = after_take (send_take now s).1 })
unfolding send_take after_take
send_take-Sane now s w = elim (Bool-cases s.initialized) [
  | inr e ↦
      simp (e, send_take) (Serves-Sane s s idle gone (Serves-refl s w.well) w.tracked (λ id a. a) w)
  | inl e ↦ requests s.requests refl e
]
  where
    free : s.controller.current ≡ none
    free = elim (Option-cases s.controller.current) [ inl e ↦ e | inr (h, e) ↦ absurd (w.busy h e) ]

    requests :
        (rs : List TtsReq)
        → s.requests ≡ rs
        → s.initialized ≡ true
        → Sane (record { tts = (send_take now s).0; sender = after_take (send_take now s).1 })
    requests [] e i = simp (i, e, send_take) w
    requests (req ∷ rest) e i =
        let (m, below, a) = w.ordered in
        let b : Ascends m (req ∷ rest) s.next_id = subst (λ rs. Ascends m rs s.next_id) e a in
        let r : Tts × Status = do_ctl_new_op req now (record s { requests = rest }) in
        let same : send_take now s ≡ (r.0, elim r.1 [ Status.start ↦ sends req | _ ↦ skips ]) =
          simp (i, e, send_take) in
        subst (λ (x : Tts × Send). Sane (record { tts = x.0; sender = after_take x.1 })) (sym same)
          (taken-Sane req now (record s { requests = rest })
            (record {
              well = w.well;
              tracked = w.tracked;
              free = free;
              below = λ h j. let l = below h j in let g = b.0 in omega (arith, l, g);
              after = b.1;
            }))

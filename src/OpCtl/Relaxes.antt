-- ===== src/OpCtl/Relaxes.antt =====
-- The calls of `OperationController` (src/common/op_ctl.h) that open no operation and report none:
-- they keep the operations and their ids, and an operation that is current afterwards was current
-- before, as live as it was.
use rokid_openvoice_sdk.Base.{
  ℕ, suc, ◌≡◌, inl, inr, refl, sym, ◌∙◌, ap, subst, Bool, true, false, not, none, some, List, [],
  ◌∷◌, ◌==◌, if◌then◌else◌, Bool-cases, Option-cases, arith, ==-refl,
}
use rokid_openvoice_sdk.OpCtl.{
  ended, cancelled, error, Operation, Controller, write, with_status, is_final, current_is,
  cancel_loop, set_op_error, finish_op, cancel_op, refresh_op_time,
}
use rokid_openvoice_sdk.OpCtl.Invariant.{is_live, write-id}
use rokid_openvoice_sdk.OpCtl.Cancel.{round, only, every, missed, loop-Later}

pub record Relaxes (c d : Controller) : Type 0 where
  pub kept : d.operations ≡ c.operations
  pub ids : (k : ℕ) → (d.store k).id ≡ (c.store k).id
  pub was : (h : ℕ) → d.current ≡ some h → c.current ≡ some h
  pub still :
      (h : ℕ)
      → d.current ≡ some h
      → is_live (c.store h).status ≡ true
      → is_live (d.store h).status ≡ true

pub Relaxes-refl : (c : Controller) → Relaxes c c
Relaxes-refl c = record { kept = refl; ids = λ k. refl; was = λ h e. e; still = λ h e l. l }

pub Relaxes-trans : (a b c : Controller) → Relaxes a b → Relaxes b c → Relaxes a c
Relaxes-trans a b c p q = record {
  kept = q.kept ∙ p.kept;
  ids = λ k. q.ids k ∙ p.ids k;
  was = λ h e. p.was h (q.was h e);
  still = λ h e l. q.still h e (p.still h (q.was h e) l);
}

-- No operation is current afterwards.
pub settled-Relaxes :
    (c : Controller) (st : ℕ → Operation) (n p : ℕ)
    → ((k : ℕ) → (st k).id ≡ (c.store k).id)
    → Relaxes c (record c { store = st; current = none; notified = n; polled = p })
settled-Relaxes c st n p ids = record {
  kept = refl;
  ids = ids;
  was = λ h e. absurd (cc);
  still = λ h e l. absurd (cc);
}

-- What is current stays so.
pub kept-Relaxes :
    (c : Controller) (st : ℕ → Operation)
    → ((k : ℕ) → (st k).id ≡ (c.store k).id)
    → ((h : ℕ)
        → c.current ≡ some h
        → is_live (c.store h).status ≡ true
        → is_live (st h).status ≡ true)
    → Relaxes c (record c { store = st })
kept-Relaxes c st ids live = record { kept = refl; ids = ids; was = λ h e. e; still = live }

pub set_op_error-Relaxes : (err : ℕ) (c : Controller) → Relaxes c (set_op_error err c)
unfolding set_op_error
set_op_error-Relaxes err c = elim (Option-cases c.current) [
  | inl e ↦ simp (e, set_op_error) (Relaxes-refl c)
  | inr (h, e) ↦
      let f : Operation → Operation = λ o. record o { status = error; error_code = err } in
      simp (e, set_op_error)
        (settled-Relaxes c (write h f c.store) (suc c.notified) c.polled
          (λ k. write-id h k f c.store (λ o. refl)))
]

pub finish_op-Relaxes : (c : Controller) → Relaxes c (finish_op c)
unfolding finish_op is_final
finish_op-Relaxes c = elim (Option-cases c.current) [
  | inl e ↦ simp (e, finish_op) (Relaxes-refl c)
  | inr (h, e) ↦
      let f : Operation → Operation =
        λ o. if not (is_final o.status) then with_status ended o else o in
      simp (e, finish_op)
        (settled-Relaxes c (write h f c.store) (suc c.notified) c.polled
          (λ k. write-id h k f c.store (λ o. ground arith)))
]

pub refresh_op_time-Relaxes :
    (recv : Bool) (now : ℕ) (c : Controller) → Relaxes c (refresh_op_time recv now c)
unfolding refresh_op_time
refresh_op_time-Relaxes recv now c = elim (Option-cases c.current) [
  | inl e ↦ simp (e, refresh_op_time) (Relaxes-refl c)
  | inr (h, e) ↦
      let f : Operation → Operation = λ o. record o {
        calc_op_timeout = true;
        begin_timepoint = now;
        lastest_recv_timepoint = if recv then now else o.lastest_recv_timepoint;
      } in
      let same : record c { store = write h f c.store } ≡ refresh_op_time recv now c =
        simp (e, refresh_op_time) in
      subst (Relaxes c) same (
        kept-Relaxes c (write h f c.store) (λ k. write-id h k f c.store (λ o. refl))
          (λ j d l. write_status h j f c.store (λ o. refl) l))
]
  where
    write_status :
        (h j : ℕ) (f : Operation → Operation) (st : ℕ → Operation)
        → ((o : Operation) → (f o).status ≡ o.status)
        → is_live (st j).status ≡ true
        → is_live (write h f st j).status ≡ true
    write_status h j f st e l = elim (Bool-cases (h == j)) [
      | inl t ↦ rw t (rw (e (st j)) l)
      | inr t ↦ rw t l
    ]

-- The loop of `cancel_op` that says nothing of the current operation did not cancel it.
loop_spares :
    (id h : ℕ) (hs : List ℕ) (st : ℕ → Operation) (need : Bool)
    → (cancel_loop id (some h) hs st need).1 ≡ false
    → (need ≡ false) × (((cancel_loop id (some h) hs st need).0 h).status ≡ (st h).status)
unfolding cancel_loop
loop_spares id h [] st need e = (e, refl)
loop_spares id h (k ∷ ks) st need e = elim (round id k ks (some h) st need) [
  | only r ↦ let (a, b) = spared (sym (ap (λ x. x.1) r) ∙ e) in (a, ap (λ x. (x.0 h).status) r ∙ b)
  | every r ↦
      let (n, d) =
        loop_spares id h ks (write k (with_status cancelled) st) _ (sym (ap (λ x. x.1) r) ∙ e) in
      let (a, b) = spared n in (a, ap (λ x. (x.0 h).status) r ∙ d ∙ b)
  | missed r ↦
      let (n, d) = loop_spares id h ks st need (sym (ap (λ x. x.1) r) ∙ e) in
      (n, ap (λ x. (x.0 h).status) r ∙ d)
]
  where
    spared :
        (if current_is (st k).id (some h) st then true else need) ≡ false
        → (need ≡ false) × ((write k (with_status cancelled) st h).status ≡ (st h).status)
    spared n = elim (Bool-cases (k == h)) [
      | inl t ↦
          let same : k ≡ h = ground arith in
          let hit : current_is (st k).id (some h) st ≡ true =
            unfold current_is in (rw same (==-refl (st h).id)) in
          let no : (if true then true else need) ≡ false =
            subst (λ b. (if b then true else need) ≡ false) hit n in
          absurd (cc)
      | inr t ↦ elim (Bool-cases (current_is (st k).id (some h) st)) [
        | inl c ↦
            let no : (if true then true else need) ≡ false =
              subst (λ b. (if b then true else need) ≡ false) c n in
            absurd (cc)
        | inr c ↦ (subst (λ b. (if b then true else need) ≡ false) c n, rw t refl)
      ]
    ]

pub cancel_op-Relaxes : (id : ℕ) (c : Controller) → Relaxes c (cancel_op id c)
unfolding cancel_op
cancel_op-Relaxes id c =
    let r : (ℕ → Operation) × Bool = cancel_loop id c.current c.operations c.store false in
    let ids : (k : ℕ) → (r.0 k).id ≡ (c.store k).id =
      λ k. (loop-Later id c.current c.operations c.store false k).0 in
    elim (Bool-cases r.1) [
      | inl e ↦ rw e (settled-Relaxes c r.0 (suc c.notified) (suc c.polled) ids)
      | inr e ↦
          rw e
            (kept-Relaxes c r.0 ids (λ h d l. subst (λ t. is_live t ≡ true) (sym (spared h d e)) l))
    ]
  where
    spared :
        (h : ℕ)
        → c.current ≡ some h
        → (cancel_loop id c.current c.operations c.store false).1 ≡ false
        → ((cancel_loop id c.current c.operations c.store false).0 h).status ≡ (c.store h).status
    spared h d e =
        subst (λ o. ((cancel_loop id o c.operations c.store false).0 h).status ≡ (c.store h).status)
          (sym d)
          (loop_spares id h c.operations c.store false
            (subst (λ o. (cancel_loop id o c.operations c.store false).1 ≡ false) d e)).1

-- ===== src/OpCtl/Ends.antt =====
-- The list of operations of `OperationController` (src/common/op_ctl.h): `new_op` at its end,
-- `remove_front_op` at its front.
use rokid_openvoice_sdk.Base.{
  ℕ, ◌<◌, ◌≡◌, ◌≢◌, ◌⊎◌, inl, inr, refl, sym, ◌∙◌, ap, subst, true, false, none, some, List, [],
  ◌∷◌, ◌++◌, if◌then◌else◌, arith, ==-refl,
}
use rokid_openvoice_sdk.OpCtl.{
  Status, start, cancelled, Operation, Controller, write, is_start, new_op, remove_front_op,
  drop_front, front_op,
}
use rokid_openvoice_sdk.OpCtl.Invariant.{is_live, In, WellFormed, In-append, In-last, In-first}

write-other :
    (h k : ℕ) (f : Operation → Operation) (st : ℕ → Operation) → k < h → write h f st k ≡ st k
write-other h k f st l = ground arith

write_self : (h : ℕ) (f : Operation → Operation) (st : ℕ → Operation) → write h f st h ≡ f (st h)
write_self h f st = rw (==-refl h) refl

-- The list of operations with one more, and the store with it at its handle.
added_unique :
    (c : Controller) (o : Operation)
    → WellFormed c
    → ((h : ℕ) → In h c.operations → (c.store h).id ≢ o.id)
    → (h k : ℕ) → In h (c.operations ++ c.next ∷ [])
    → In k (c.operations ++ c.next ∷ [])
    → (write c.next (λ x. o) c.store h).id ≡ (write c.next (λ x. o) c.store k).id
    → h ≡ k
added_unique c o w unused h k m n e = elim (In-append h c.next c.operations m) [
  | inl m' ↦ elim (In-append k c.next c.operations n) [
    | inl n' ↦ w.unique h k m' n' (sym (old h m') ∙ e ∙ old k n')
    | inr e' ↦ absurd (unused h m' (sym (old h m') ∙ e ∙ new k e'))
  ]
  | inr d ↦ elim (In-append k c.next c.operations n) [
    | inl n' ↦ absurd (unused k n' (sym (old k n') ∙ sym e ∙ new h d))
    | inr e' ↦ d ∙ sym e'
  ]
]
  where
    old : (h : ℕ) → In h c.operations → (write c.next (λ x. o) c.store h).id ≡ (c.store h).id
    old h m = ap (λ x. x.id) (write-other c.next h (λ x. o) c.store (w.fresh h m))

    new : (h : ℕ) → h ≡ c.next → (write c.next (λ x. o) c.store h).id ≡ o.id
    new h e =
        ap (λ k. (write c.next (λ x. o) c.store k).id) e
        ∙ ap (λ x. x.id) (write_self c.next (λ x. o) c.store)

-- A new operation's id is not that of one that is kept, and a live one is made only when there is
-- no current one.
pub new_op-WellFormed :
    (id : ℕ) (status : Status) (now : ℕ) (c : Controller)
    → WellFormed c
    → ((h : ℕ) → In h c.operations → (c.store h).id ≢ id)
    → ((status ≡ start) × (c.current ≡ none)) ⊎ (status ≡ cancelled)
    → WellFormed (new_op id status now c)
unfolding new_op is_start
new_op-WellFormed id status now c w unused kind = record {
  fresh = λ h m. elim (In-append h c.next c.operations m) [
    | inl n ↦ let old = w.fresh h n in omega arith
    | inr e ↦ omega (arith, e)
  ];
  unique = added_unique c made w unused;
  one_live = λ h m e. elim (In-append h c.next c.operations m) [
    | inl n ↦
        old_live kind h n (rw (← e, write-other c.next h (λ x. made) c.store (w.fresh h n)) refl)
    | inr n ↦ new_live kind h n (
        rw (← e) (
          sym (
            ap (λ k. is_live (write c.next (λ x. made) c.store k).status) n
            ∙ ap (λ x. is_live x.status) (write_self c.next (λ x. made) c.store))))
  ];
  listed = λ h e. became kind h e;
}
  where
    made : Operation
    made = record {
      id = id;
      status = status;
      error_code = 0;
      begin_timepoint = 0;
      lastest_recv_timepoint = now;
      calc_op_timeout = false;
    }

    old_live :
        ((status ≡ start) × (c.current ≡ none)) ⊎ (status ≡ cancelled)
        → (h : ℕ) → In h c.operations
        → is_live (c.store h).status ≡ true
        → (if is_start status then some c.next else c.current) ≡ some h
    old_live (inl (s, e)) h n l = let was = w.one_live h n l in absurd (cc)
    old_live (inr s) h n l = rw s (w.one_live h n l)

    new_live :
        ((status ≡ start) × (c.current ≡ none)) ⊎ (status ≡ cancelled)
        → (h : ℕ) → h ≡ c.next
        → is_live status ≡ true
        → (if is_start status then some c.next else c.current) ≡ some h
    new_live (inl (s, e)) h n l = rw s (ap some (sym n))
    new_live (inr s) h n l = let dead : is_live status ≡ false = rw s refl in absurd (cc)

    became :
        ((status ≡ start) × (c.current ≡ none)) ⊎ (status ≡ cancelled)
        → (h : ℕ) → (if is_start status then some c.next else c.current) ≡ some h
        → In h (c.operations ++ c.next ∷ [])
    became (inl (s, e)) h n =
        let same : h ≡ c.next = ground arith in
        subst (λ k. In k (c.operations ++ c.next ∷ [])) (sym same) (In-last c.next c.operations)
    became (inr s) h n =
        let cur : c.current ≡ some h = rw (← n, s) refl in
        In-first h c.next c.operations (w.listed h cur)

-- The front operation is not the current one.
pub remove_front_op-WellFormed :
    (c : Controller)
    → WellFormed c
    → ((h : ℕ) → c.current ≡ some h → front_op c ≢ some h)
    → WellFormed (remove_front_op c)
unfolding remove_front_op drop_front front_op
remove_front_op-WellFormed c w other = record {
  fresh = λ h m. w.fresh h (later h c.operations m);
  unique = λ h k m n e. w.unique h k (later h c.operations m) (later k c.operations n) e;
  one_live = λ h m e. w.one_live h (later h c.operations m) e;
  listed = λ h e. behind h c.operations (w.listed h e) (other h e);
}
  where
    later : (h : ℕ) (hs : List ℕ) → In h (drop_front hs) → In h hs
    later h [] m = elim m [ ]
    later h (x ∷ hs) m = inr m

    behind :
        (h : ℕ) (hs : List ℕ)
        → In h hs
        → elim hs [ [] ↦ none | k ∷ ks ↦ some k ] ≢ some h
        → In h (drop_front hs)
    behind h [] m d = elim m [ ]
    behind h (x ∷ hs) (inl e) d = absurd (d (ap some (sym e)))
    behind h (x ∷ hs) (inr m) d = m

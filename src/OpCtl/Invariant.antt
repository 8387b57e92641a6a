-- ===== src/OpCtl/Invariant.antt =====
-- The invariant of `OperationController` (src/common/op_ctl.h): which of the operations that `poll`
-- has still to report are live, and what its calls make of it.
use rokid_openvoice_sdk.Base.{
  ℕ, suc, ◌<◌, ◌≡◌, ◌⊎◌, inl, inr, refl, sym, ◌∙◌, subst, not, Bool, true, false, none, some, List,
  [], ◌∷◌, ◌++◌, ◌==◌, if◌then◌else◌, Bool-cases, Option-cases, arith,
}
use rokid_openvoice_sdk.OpCtl.{
  Status, start, streaming, ended, error, Operation, Controller, write, with_status, is_final,
  set_op_error, finish_op, refresh_op_time, init,
}

abbrev pub is_live : Status → Bool
is_live start = true
is_live streaming = true
is_live _ = false

abbrev pub In : ℕ → List ℕ → Type 0
In h [] = ⊥
In h (k ∷ ks) = (h ≡ k) ⊎ In h ks

pub record WellFormed (c : Controller) : Type 0 where
  pub fresh : (h : ℕ) → In h c.operations → h < c.next
  pub unique :
      (h k : ℕ) → In h c.operations → In k c.operations → (c.store h).id ≡ (c.store k).id → h ≡ k
  pub one_live :
      (h : ℕ) → In h c.operations → is_live (c.store h).status ≡ true → c.current ≡ some h
  pub listed : (h : ℕ) → c.current ≡ some h → In h c.operations

pub In-append : (h k : ℕ) (hs : List ℕ) → In h (hs ++ k ∷ []) → In h hs ⊎ (h ≡ k)
In-append h k [] (inl e) = inr e
In-append h k [] (inr m) = elim m [ ]
In-append h k (x ∷ hs) (inl e) = inl (inl e)
In-append h k (x ∷ hs) (inr m) = elim (In-append h k hs m) [ inl n ↦ inl (inr n) | inr e ↦ inr e ]

pub In-last : (k : ℕ) (hs : List ℕ) → In k (hs ++ k ∷ [])
In-last k [] = inl refl
In-last k (x ∷ hs) = inr (In-last k hs)

pub In-first : (h k : ℕ) (hs : List ℕ) → In h hs → In h (hs ++ k ∷ [])
In-first h k [] m = elim m [ ]
In-first h k (x ∷ hs) (inl e) = inl e
In-first h k (x ∷ hs) (inr m) = inr (In-first h k hs m)

pub write-id :
    (h k : ℕ) (f : Operation → Operation) (st : ℕ → Operation)
    → ((o : Operation) → (f o).id ≡ o.id)
    → (write h f st k).id ≡ (st k).id
write-id h k f st e = elim (Bool-cases (h == k)) [ inl t ↦ rw t (e (st k)) | inr t ↦ rw t refl ]

-- A store with the same ids, in which no more operations are live.
pub kept-WellFormed :
    (c : Controller) (st : ℕ → Operation)
    → WellFormed c
    → ((k : ℕ) → (st k).id ≡ (c.store k).id)
    → ((k : ℕ) → is_live (st k).status ≡ true → is_live (c.store k).status ≡ true)
    → WellFormed (record c { store = st })
kept-WellFormed c st w ids less = record {
  fresh = w.fresh;
  unique = λ h k m n e. w.unique h k m n (sym (ids h) ∙ e ∙ ids k);
  one_live = λ h m e. w.one_live h m (less h e);
  listed = w.listed;
}

-- The same, when the operation that was current is no longer live.
pub settled-WellFormed :
    (c : Controller) (st : ℕ → Operation) (n p : ℕ)
    → WellFormed c
    → ((k : ℕ) → (st k).id ≡ (c.store k).id)
    → ((k : ℕ) → In k c.operations → is_live (st k).status ≡ true → ⊥)
    → WellFormed (record c { store = st; current = none; notified = n; polled = p })
settled-WellFormed c st n p w ids dead = record {
  fresh = w.fresh;
  unique = λ h k m n e. w.unique h k m n (sym (ids h) ∙ e ∙ ids k);
  one_live = λ h m e. absurd (dead h m e);
  listed = λ h e. absurd (cc);
}

-- When the current operation is given a status that is not live, no operation is live.
pub none_live :
    (c : Controller) (h : ℕ) (f : Operation → Operation)
    → WellFormed c
    → c.current ≡ some h
    → is_live (f (c.store h)).status ≡ false
    → (k : ℕ) → In k c.operations
    → is_live (write h f c.store k).status ≡ true
    → ⊥
none_live c h f w e d k m l = elim (Bool-cases (h == k)) [
  | inl t ↦
      let same : h ≡ k = ground arith in
      let alive : is_live (f (c.store k)).status ≡ true = rw (← l, t) refl in
      let dead : is_live (f (c.store k)).status ≡ false = rw (← same) d in absurd (cc)
  | inr t ↦
      let alive : is_live (c.store k).status ≡ true = rw (← l, t) refl in
      let other : c.current ≡ some k = w.one_live k m alive in ground arith
]

-- A function that ends the current operation, by an update `f` that leaves it not live.
ends_current :
    (act : Controller → Controller) (f : Operation → Operation) (c : Controller)
    → WellFormed c
    → ((o : Operation) → (f o).id ≡ o.id)
    → ((o : Operation) → is_live (f o).status ≡ false)
    → (c.current ≡ none → act c ≡ c)
    → ((h : ℕ)
        → c.current ≡ some h
        → act c ≡ record c { store = write h f c.store; current = none; notified = suc c.notified })
    → WellFormed (act c)
ends_current act f c w ids dead idle ends = elim (Option-cases c.current) [
  | inl e ↦ subst WellFormed (sym (idle e)) w
  | inr (h, e) ↦ subst WellFormed (sym (ends h e)) (
      settled-WellFormed c (write h f c.store) (suc c.notified) c.polled w
        (λ k. write-id h k f c.store ids) (none_live c h f w e (dead (c.store h))))
]

pub set_op_error-WellFormed :
    (err : ℕ) (c : Controller) → WellFormed c → WellFormed (set_op_error err c)
unfolding set_op_error
set_op_error-WellFormed err c w =
    ends_current (set_op_error err) (λ o. record o { status = error; error_code = err }) c w
      (λ o. refl) (λ o. refl) (λ e. simp (e, set_op_error)) (λ h e. simp (e, set_op_error))

pub finish_op-WellFormed : (c : Controller) → WellFormed c → WellFormed (finish_op c)
unfolding finish_op is_final
finish_op-WellFormed c w =
    ends_current finish_op (λ o. if not (is_final o.status) then with_status ended o else o) c w
      (λ o. ground arith) (λ o. ground arith) (λ e. simp (e, finish_op))
      (λ h e. simp (e, finish_op))

pub refresh_op_time-WellFormed :
    (recv : Bool) (now : ℕ) (c : Controller)
    → WellFormed c
    → WellFormed (refresh_op_time recv now c)
unfolding refresh_op_time
refresh_op_time-WellFormed recv now c w =
    let f : Operation → Operation = λ o. record o {
      calc_op_timeout = true;
      begin_timepoint = now;
      lastest_recv_timepoint = if recv then now else o.lastest_recv_timepoint;
    } in
    elim (Option-cases c.current) [
      | inl e ↦
          let same : c ≡ refresh_op_time recv now c = simp (e, refresh_op_time) in
          subst WellFormed same w
      | inr (h, e) ↦
          let same : record c { store = write h f c.store } ≡ refresh_op_time recv now c =
            simp (e, refresh_op_time) in
          subst WellFormed same (
            kept-WellFormed c (write h f c.store) w (λ k. write-id h k f c.store (λ o. refl))
              (λ k l. write_live h k f c.store l (λ o. refl)))
    ]
  where
    write_live :
        (h k : ℕ) (f : Operation → Operation) (st : ℕ → Operation)
        → is_live (write h f st k).status ≡ true
        → ((o : Operation) → (f o).status ≡ o.status)
        → is_live (st k).status ≡ true
    write_live h k f st l e = elim (Bool-cases (h == k)) [
      | inl t ↦ rw (← e (st k)) (rw (← l, t) refl)
      | inr t ↦ rw (← l, t) refl
    ]

pub init-WellFormed : WellFormed init
unfolding init
init-WellFormed = record {
  fresh = λ h m. elim m [ ];
  unique = λ h k m n e. elim m [ ];
  one_live = λ h m e. elim m [ ];
  listed = λ h e. absurd (cc);
}

-- ===== src/Stream/Protocol.antt =====
-- What a reader of a `StreamQueue` (src/common/pending_queue.h) sees: the order of the results of
-- one stream, cancellation, and the agreement of `available` with `pop`.
use rokid_openvoice_sdk.Base.{
  ℕ, suc, ◌%◌, ◌≡◌, ◌≢◌, ◌↔◌, refl, ap, subst, ◌∙◌, inl, inr, Bool, true, false, Option, none, some,
  List, [], ◌∷◌, map, ◌==◌, if◌then◌else◌, Bool-cases, length, arith, replicate, ==-refl,
}
use rokid_openvoice_sdk.Stream.{
  Queue, Out, completed, PopType, pop_empty, pop_start, pop_data, pop_end, pop_removed, pop_error,
  pop, available, or_keep,
}
use rokid_openvoice_sdk.Stream.Spec
use rokid_openvoice_sdk.Stream.Spec.{Stream}
use rokid_openvoice_sdk.Stream.Refine.{Refines, Simulates}
use rokid_openvoice_sdk.Stream.Layout.{view}
use rokid_openvoice_sdk.Stream.Pop.{available-Refines, pop-Simulates}
use rokid_openvoice_sdk.Stream.History.{
  Call, pops, erases, ends, Reply, flag, popped, calls, spec_call, spec_calls, calls-Refines,
}

-- A call of `pop` whose reference parameters hold nothing yet.
abbrev pub nothing {ℓ} : {T : Type ℓ} → Out T
nothing = record { id = 0; res = none; err = 0 }

-- What a completed stream still gives: its data in order, then its end.
abbrev pub data_results {ℓ} : {T : Type ℓ} → ℕ → Option T → List (Option T) → List (Reply T)
data_results i last [] = popped (record { id = i; res = or_keep last none; err = 0 }, pop_end) ∷ []
data_results i last (d ∷ ds) =
    popped (record { id = i; res = d; err = 0 }, pop_data) ∷ data_results i last ds

-- What `pop` gives for a stream at the front that has been erased.
abbrev pub erased_result {ℓ} : {T : Type ℓ} → ℕ → ℕ → Out T → Out T × PopType
erased_result i err out =
    if err == 0
    then (record out { id = i }, pop_removed)
    else (record out { id = i; err = err % 65536 }, pop_error)

module _ {ℓ κ} {T : Type ℓ} {A : Type κ} where
  abbrev pub pops_of : ℕ → List (Call T A)
  pops_of n = replicate n (pops nothing)

  -- One call, then the others.
  spec_cons :
      (c : Call T A) (cs : List (Call T A)) (ss ss' ss'' : List (Stream T A)) (r : Reply T)
      (rs : List (Reply T))
      → spec_call c ss ≡ (ss', r)
      → spec_calls cs ss' ≡ (ss'', rs)
      → spec_calls (c ∷ cs) ss ≡ (ss'', r ∷ rs)
  unfolding spec_calls
  spec_cons c cs ss ss' ss'' r rs e e' = rw e (rw e')

  by_spec :
      (cs : List (Call T A)) (q : Queue T A) (ss ss' : List (Stream T A)) (rs : List (Reply T))
      → Refines q ss
      → spec_calls cs ss ≡ (ss', rs)
      → Simulates (calls cs q) (ss', rs)
  by_spec cs q ss ss' rs p e = subst (Simulates (calls cs q)) e (calls-Refines cs q ss p)

  abbrev whole : ℕ → Bool → ℕ → Option T → Option A → List (Option T) → Stream T A
  whole i b e l a ds = record {
    id = i;
    kind = completed;
    polling = b;
    err = e;
    content = l;
    arg = a;
    datas = ds;
  }

  spec_data :
      (i e : ℕ) (l : Option T) (a : Option A) (ds : List (Option T)) (rest : List (Stream T A))
      → spec_calls (pops_of (suc (length ds))) (whole i true e l a ds ∷ rest)
        ≡ (rest, data_results i l ds)
  unfolding spec_calls Spec.pop
  spec_data i e l a [] rest = refl
  spec_data i e l a (d ∷ ds) rest =
      spec_cons (pops nothing) (pops_of (suc (length ds))) (whole i true e l a (d ∷ ds) ∷ rest)
        (whole i true e l a ds ∷ rest) rest (popped (record { id = i; res = d; err = 0 }, pop_data))
        (data_results i l ds) refl (spec_data i e l a ds rest)

  spec_whole :
      (i e : ℕ) (l : Option T) (a : Option A) (ds : List (Option T)) (rest : List (Stream T A))
      → spec_calls (pops_of (suc (suc (length ds)))) (whole i false e l a ds ∷ rest)
        ≡ (rest, popped (record { id = i; res = none; err = 0 }, pop_start) ∷ data_results i l ds)
  unfolding spec_call Spec.pop
  spec_whole i e l a ds rest =
      spec_cons (pops nothing) (pops_of (suc (length ds))) (whole i false e l a ds ∷ rest)
        (whole i true e l a ds ∷ rest) rest
        (popped (record { id = i; res = none; err = 0 }, pop_start)) (data_results i l ds) refl
        (spec_data i e l a ds rest)

  -- A completed stream at the front, not begun: as many calls of `pop` as it has data and two more
  -- return its start, each of its data in order, and its end with its last content; then the next
  -- stream is at the front.
  pub pops_of-completed :
      (q : Queue T A) (s : Stream T A) (rest : List (Stream T A))
      → Refines q (s ∷ rest)
      → s.kind ≡ completed
      → s.polling ≡ false
      → Simulates (calls (pops_of (suc (suc (length s.datas)))) q) (
        rest,
        popped (record { id = s.id; res = none; err = 0 }, pop_start)
            ∷ data_results s.id s.content s.datas,
      )
  pops_of-completed q s rest p k b =
      let same : s ≡ whole s.id false s.err s.content s.arg s.datas =
        λ j. record s { kind = k j; polling = b j } in
      by_spec (pops_of (suc (suc (length s.datas)))) q (s ∷ rest) rest _ p (
        ap (λ t. spec_calls (pops_of (suc (suc (length s.datas)))) (t ∷ rest)) same
        ∙ spec_whole s.id s.err s.content s.arg s.datas rest)

  pub lookup_self :
      (s : Stream T A) (rest : List (Stream T A)) → Spec.lookup s.id (s ∷ rest) ≡ some s
  unfolding Spec.lookup
  lookup_self s rest = rw (==-refl s.id)

  pub update_self :
      (f : Stream T A → Stream T A) (s : Stream T A) (rest : List (Stream T A))
      → Spec.update s.id f (s ∷ rest) ≡ f s ∷ rest
  unfolding Spec.update
  update_self f s rest = rw (==-refl s.id)

  spec_erases :
      (s : Stream T A) (rest : List (Stream T A)) (err : ℕ)
      → spec_call (erases s.id err) (s ∷ rest) ≡ (Spec.kill err s ∷ rest, flag true)
  unfolding spec_call Spec.erase
  spec_erases s rest err =
      rw (lookup_self s rest, Spec.erase) (rw (update_self (Spec.kill err) s rest))

  spec_ends :
      (s : Stream T A) (rest : List (Stream T A))
      → spec_call (ends s.id none) (s ∷ rest) ≡ (record s { kind = completed } ∷ rest, flag true)
  unfolding spec_call Spec.end Spec.finish
  spec_ends s rest = rw (lookup_self s rest, Spec.end) (rw (update_self (Spec.finish none) s rest))

  spec_pops-killed :
      (s : Stream T A) (rest : List (Stream T A)) (err : ℕ) (out : Out T)
      → spec_call (pops out) (Spec.kill err s ∷ rest) ≡ (rest, popped (erased_result s.id err out))
  unfolding spec_call Spec.pop Spec.kill
  spec_pops-killed s rest err out = elim (Bool-cases (err == 0)) [ inl e ↦ rw e | inr e ↦ rw e ]

  -- A stream at the front that is erased gives one more result and none of its data, begun or not,
  -- completed or not: that it was removed, or the low 16 bits of its error. The next stream is then
  -- at the front.
  pub erases-pops :
      (q : Queue T A) (s : Stream T A) (rest : List (Stream T A)) (err : ℕ) (out : Out T)
      → Refines q (s ∷ rest)
      → Simulates
          (calls (erases s.id err ∷ pops out ∷ []) q)
          (rest, flag true ∷ popped (erased_result s.id err out) ∷ [])
  unfolding spec_calls
  erases-pops q s rest err out p = by_spec (erases s.id err ∷ pops out ∷ []) q (s ∷ rest) rest _ p (
      spec_cons (erases s.id err) (pops out ∷ []) (s ∷ rest) (Spec.kill err s ∷ rest) rest
        (flag true) (popped (erased_result s.id err out) ∷ []) (spec_erases s rest err)
        (spec_cons (pops out) [] (Spec.kill err s ∷ rest) rest rest
          (popped (erased_result s.id err out)) [] (spec_pops-killed s rest err out) refl))

  -- A stream at the front, not begun, that is erased and then ended before it is popped comes back:
  -- `pop` returns its start and then its end, and not that it was removed.
  pub erases-ends_revives :
      (q : Queue T A) (s : Stream T A) (rest : List (Stream T A))
      → Refines q (s ∷ rest)
      → s.polling ≡ false
      → Simulates (calls (erases s.id 0 ∷ ends s.id none ∷ pops_of 2) q) (
        rest,
        flag true
            ∷ flag true
            ∷ popped (record { id = s.id; res = none; err = 0 }, pop_start)
            ∷ popped (record { id = s.id; res = none; err = 0 }, pop_end)
            ∷ [],
      )
  unfolding Spec.kill or_keep
  erases-ends_revives q s rest p b =
      let dead = Spec.kill 0 s in
      let same : record dead { kind = completed } ≡ whole s.id false s.err none s.arg [] =
        λ j. record dead { kind = completed; polling = b j } in
      by_spec (erases s.id 0 ∷ ends s.id none ∷ pops_of 2) q (s ∷ rest) rest _ p (
        spec_cons (erases s.id 0) (ends s.id none ∷ pops_of 2) (s ∷ rest) (dead ∷ rest) rest
          (flag true) _ (spec_erases s rest 0)
          (spec_cons (ends s.id none) (pops_of 2) (dead ∷ rest)
            (whole s.id false s.err none s.arg [] ∷ rest) rest (flag true) _
            (spec_ends dead rest ∙ ap (λ t. (t ∷ rest, flag true)) same)
            (spec_whole s.id s.err none s.arg [] rest)))

  spec_available_iff :
      (ss : List (Stream T A)) (out : Out T)
      → (Spec.available ss ≡ true) ↔ ((Spec.pop ss out).1.1 ≢ pop_empty)
  unfolding Spec.available Spec.pop
  spec_available_iff [] out = ground arith
  spec_available_iff (s ∷ ss) out = ground arith

  -- On containers that stand for some streams, `available` is true exactly when `pop` has a result,
  -- and neither meets a fault.
  pub available_iff :
      (q : Queue T A) (ss : List (Stream T A)) (out : Out T)
      → Refines q ss
      → (b : Bool) × (q' : Queue T A) × (r : Out T × PopType) × (available q ≡ some b)
        × (pop q out ≡ some (q', r))
        × ((b ≡ true) ↔ (r.1 ≢ pop_empty))
  available_iff q ss out (cs, r, v) =
      let (q', e, p) = pop-Simulates q cs out r in
      (
        Spec.available (map view cs),
        q',
        (Spec.pop (map view cs) out).1,
        available-Refines q cs r,
        e,
        spec_available_iff (map view cs) out,
      )

-- ===== src/Stream/Refine.antt =====
-- The operations of `StreamQueue` (src/common/pending_queue.h) against their specifications.
use rokid_openvoice_sdk.Base.{
  ℕ, ◌≡◌, refl, ap, sym, subst, ◌∙◌, inl, inr, true, false, Option, none, some, List, [], ◌∷◌, ◌++◌,
  map, arith, Bool-cases, Option-cases,
}
use rokid_openvoice_sdk.Stream.{
  Kind, uncompleted, completed, deleted, error, Node, Queue, find, deref, assign, insert_before,
  is_uncompleted, more_data, new_tag, complete, start, stream, end, clear, empty,
}
use rokid_openvoice_sdk.Stream.Spec
use rokid_openvoice_sdk.Stream.Spec.{Stream, lookup, update, feed, finish, kill}
use rokid_openvoice_sdk.Stream.Layout.{
  Cell, layout, view, address_of, tag_of, change, on_tag, push, deref-layout, assign-layout,
  insert-layout,
}
use rokid_openvoice_sdk.Stream.Rep.{Silent, Quiet, Rep, Found, find_cell, lookup-none}
use rokid_openvoice_sdk.Stream.Keep.{Keeps, change-Rep, change-change, start-Rep, new_cell}
use rokid_openvoice_sdk.Stream.Shrink.{clear-Rep, cleared, view-cleared, id_range-layout}

Silent-uncompleted {ℓ} :
    {T : Type ℓ} (k : Kind) (ds : List (Option T)) → is_uncompleted k ≡ true → Silent k ds
Silent-uncompleted uncompleted ds e = tt
Silent-uncompleted completed ds e = absurd (cc)
Silent-uncompleted deleted ds e = absurd (cc)
Silent-uncompleted error ds e = absurd (cc)

module _ {ℓ κ} {T : Type ℓ} {A : Type κ} where
  -- The containers stand for these streams.
  abbrev pub Refines : Queue T A → List (Stream T A) → Type (ℓ ⊔ κ)
  Refines q ss = (cs : List (Cell T A)) × Rep q cs × (map view cs ≡ ss)

  -- A call returns, with the result of the specification, and the containers stand for its streams.
  abbrev pub Simulates {ι} :
      {R : Type ι} → Option (Queue T A × R) → List (Stream T A) × R → Type (ℓ ⊔ κ ⊔ ι)
  Simulates m s = (q : Queue T A) × (m ≡ some (q, s.1)) × Refines q s.0

  pub empty-Refines : Refines empty []
  unfolding empty find
  empty-Refines = (
    [],
    record {
      nodes = refl;
      tags = refl;
      ids = λ i. refl;
      rising = omega arith;
      distinct = tt;
      quiet = tt;
    },
    refl,
  )

  -- The tag that an id names.
  abbrev pub Located : ℕ → ℕ → Queue T A → List (Cell T A) → Type (ℓ ⊔ κ)
  Located i a q cs =
      (f : Found i a cs) × (find i q.item_tags ≡ some a) × (deref a q.queue ≡ some f.cell.tag_item)

  pub located :
      (i a : ℕ) (q : Queue T A) (cs : List (Cell T A))
      → Rep q cs
      → address_of i cs ≡ some a
      → Located i a q cs
  located i a q cs r e =
      let f = find_cell i a 0 q.next cs r.rising e in
      (f, r.ids i ∙ e, rw r.nodes (deref-layout a cs ∙ ap tag_of f.by_at))

  -- A write to one stream.
  pub changed :
      (i a : ℕ) (q : Queue T A) (cs : List (Cell T A)) (f : Found i a cs) (g : Cell T A → Cell T A)
      (h : Stream T A → Stream T A) (ns : List (Node T A))
      → Rep q cs
      → Keeps g
      → ((c : Cell T A) → view (g c) ≡ h (view c))
      → Quiet (g f.cell)
      → ns ≡ layout (change a g cs)
      → Refines (record q { queue = ns }) (update i h (map view cs))
  changed i a q cs f g h ns r k v quiet e = (
    change a g cs,
    change-Rep a g k q cs ns e (λ c at. same c (sym at ∙ f.by_at)) r,
    f.updated g h v,
  )
    where
      same : (c : Cell T A) → some c ≡ some f.cell → Quiet (g c)
      same c p = let e : f.cell ≡ c = cc in subst (λ d. Quiet (g d)) e quiet

  pub Simulates-by {ι} :
      {R : Type ι} (m : Option (Queue T A × R)) (s : List (Stream T A) × R) (q : Queue T A)
      (ss : List (Stream T A)) (r : R)
      → m ≡ some (q, r)
      → s ≡ (ss, r)
      → Refines q ss
      → Simulates m s
  Simulates-by m s q ss r e k p =
      (q, e ∙ ap (λ x. some (q, x)) (sym (ap (λ x. x.1) k)), subst (λ x. Refines q x.0) (sym k) p)

  view-append :
      (at id : ℕ) (cs : List (Cell T A))
      → map view (cs ++ new_cell at id ∷ []) ≡ map view cs ++ Spec.fresh id ∷ []
  unfolding Spec.fresh new_tag
  view-append at id [] = refl
  view-append at id (c ∷ cs) = ap (◌∷◌ (view c)) (view-append at id cs)

  pub start-Simulates :
      (id : ℕ) (q : Queue T A) (cs : List (Cell T A))
      → Rep q cs
      → Simulates (some (start id q)) (Spec.start id (map view cs))
  unfolding start Spec.start
  start-Simulates id q cs r = elim (Option-cases (address_of id cs)) [
    | inl e ↦
        Simulates-by _ _ _ (map view (cs ++ new_cell q.next id ∷ [])) true
          (rw (r.ids id ∙ e, start))
          (rw (lookup-none id cs e, Spec.start)
            (ap (λ ss. (ss, true)) (sym (view-append q.next id cs))))
          (_, start-Rep q cs id e r, refl)
    | inr (a, e) ↦
        let (f, found, at) = located id a q cs r e in
        Simulates-by _ _ q (map view cs) false (rw (found, start)) (rw (f.by_id, Spec.start))
          (cs, r, refl)
  ]

  feed_cell : Option T → Cell T A → Cell T A
  feed_cell d c = on_tag more_data (push d c)

  feed_nodes :
      (a : ℕ) (d : Option T) (q : Queue T A) (cs : List (Cell T A))
      → Rep q cs
      → assign a more_data (insert_before a d q.queue) ≡ layout (change a (feed_cell d) cs)
  unfolding feed_cell more_data
  feed_nodes a d q cs r = rw r.nodes (
      ap (assign a more_data) (insert-layout a d cs)
      ∙ assign-layout a more_data (change a (push d) cs)
      ∙ ap layout (change-change a (on_tag more_data) (push d) cs (λ c. (refl, refl))))

  pub stream-Simulates :
      (id : ℕ) (d : Option T) (q : Queue T A) (cs : List (Cell T A))
      → Rep q cs
      → Simulates (stream id d q) (Spec.stream id d (map view cs))
  unfolding stream Spec.stream feed_cell more_data feed
  stream-Simulates id d q cs r = elim (Option-cases (address_of id cs)) [
    | inl e ↦
        Simulates-by _ _ q (map view cs) false (rw (r.ids id ∙ e, stream))
          (rw (lookup-none id cs e, Spec.stream)) (cs, r, refl)
    | inr (a, e) ↦
        let (f, found, at) = located id a q cs r e in
        elim (Bool-cases (is_uncompleted f.cell.tag_item.kind)) [
          | inl live ↦
              Simulates-by _ _ _ (update id (feed d) (map view cs)) true
                (rw (found, stream) (rw at (rw live))) (rw (f.by_id, Spec.stream) (rw live))
                (changed id a q cs f (feed_cell d) (feed d) _ r (λ c. (refl, refl)) (λ c. refl)
                  (Silent-uncompleted f.cell.tag_item.kind _ live) (feed_nodes a d q cs r))
          | inr shut ↦
              Simulates-by _ _ q (map view cs) false (rw (found, stream) (rw at (rw shut)))
                (rw (f.by_id, Spec.stream) (rw shut)) (cs, r, refl)
        ]
  ]

  end_cell : Option T → Cell T A → Cell T A
  end_cell d = on_tag (complete d)

  end_cell-Keeps : (d : Option T) → Keeps (end_cell d)
  unfolding end_cell complete
  end_cell-Keeps none c = (refl, refl)
  end_cell-Keeps (some e) c = (refl, refl)

  view-end_cell : (d : Option T) (c : Cell T A) → view (end_cell d c) ≡ finish d (view c)
  unfolding end_cell complete finish
  view-end_cell none c = refl
  view-end_cell (some e) c = refl

  end_cell-Quiet : (d : Option T) (c : Cell T A) → Quiet (end_cell d c)
  unfolding end_cell complete
  end_cell-Quiet none c = tt
  end_cell-Quiet (some e) c = tt

  pub end-Simulates :
      (id : ℕ) (d : Option T) (q : Queue T A) (cs : List (Cell T A))
      → Rep q cs
      → Simulates (end id d q) (Spec.end id d (map view cs))
  unfolding end Spec.end end_cell
  end-Simulates id d q cs r = elim (Option-cases (address_of id cs)) [
    | inl e ↦
        Simulates-by _ _ q (map view cs) false (rw (r.ids id ∙ e, end))
          (rw (lookup-none id cs e, Spec.end)) (cs, r, refl)
    | inr (a, e) ↦
        let (f, found, at) = located id a q cs r e in
        Simulates-by _ _ _ (update id (finish d) (map view cs)) true (rw (found, end) (rw at))
          (rw (f.by_id, Spec.end))
          (changed id a q cs f (end_cell d) (finish d) (assign a (complete d) q.queue) r
            (end_cell-Keeps d) (view-end_cell d) (end_cell-Quiet d f.cell)
            (rw r.nodes (assign-layout a (complete d) cs)))
  ]

  pub clear-Simulates :
      (q : Queue T A) (cs : List (Cell T A))
      → Rep q cs
      → Simulates (clear q) (Spec.clear (map view cs))
  unfolding clear Spec.clear
  clear-Simulates q cs r =
      Simulates-by _ _ _ (map (kill 0) (map view cs)) (Spec.range (map view cs))
        (rw (r.nodes, r.tags) (rw (id_range-layout q.next cs r.rising))) refl
        (cleared 0 cs, clear-Rep q cs r, view-cleared 0 cs)

-- ===== src/Stream/Pop.antt =====
-- `StreamQueue::pop` and `available` (src/common/pending_queue.h) against their
-- specifications.
use rokid_openvoice_sdk.Base.{
  ℕ, ◌≡◌, refl, ap, sym, ◌∙◌, inl, inr, true, false, Option, none, some, List, [], ◌∷◌, map,
  if◌then◌else◌, Bool-cases, arith, not, subst, ◌&&◌, ==-refl,
}
use rokid_openvoice_sdk.Stream.{
  Kind, uncompleted, completed, deleted, error, Queue, Out, Tag, pop_empty, pop_end, pop_data,
  pop_start, Node, deref, assign, less_data, pop_tag, pop_live, pop, available, is_uncompleted,
  front_data, at_begin, retire, or_keep,
}
use rokid_openvoice_sdk.Stream.Spec
use rokid_openvoice_sdk.Stream.Spec.{Stream}
use rokid_openvoice_sdk.Stream.Layout.{
  Cell, layout, view, change, on_tag, deref-layout, assign-layout, at_begin-layout,
}
use rokid_openvoice_sdk.Stream.Rep.{Quiet, Silent, Rep}
use rokid_openvoice_sdk.Stream.Keep.{Keeps, change-Rep}
use rokid_openvoice_sdk.Stream.Shrink.{retire-Rep}
use rokid_openvoice_sdk.Stream.Refine.{Refines, Simulates, Simulates-by}

abbrev IsLive : Kind → Type 0
IsLive uncompleted = Unit
IsLive completed = Unit
IsLive deleted = ⊥
IsLive error = ⊥

Silent-live {ℓ} : {T : Type ℓ} (k : Kind) (ds : List (Option T)) → IsLive k → Silent k ds
Silent-live uncompleted ds h = tt
Silent-live completed ds h = tt
Silent-live deleted ds h = absurd h
Silent-live error ds h = absurd h

module _ {ℓ κ} {T : Type ℓ} {A : Type κ} where
  -- A change to the front stream alone.
  front-Refines :
      (q : Queue T A) (c : Cell T A) (cs : List (Cell T A)) (g : Cell T A → Cell T A)
      (ns : List (Node T A))
      → Rep q (c ∷ cs)
      → Keeps g
      → Quiet (g c)
      → ns ≡ layout (g c ∷ cs)
      → Refines (record q { queue = ns }) (view (g c) ∷ map view cs)
  front-Refines q c cs g ns r k quiet e = (
    change c.tag_item.at g (c ∷ cs),
    change-Rep c.tag_item.at g k q (c ∷ cs) ns (rw (==-refl c.tag_item.at) e)
        (λ d p. let same : c ≡ d = ground arith in subst (λ x. Quiet (g x)) same quiet) r,
    rw (==-refl c.tag_item.at),
  )

  pop_live_data :
      (a : ℕ) (t : Tag T A) (q : Queue T A) (out : Out T) (d : Option T) (ns : List (Node T A))
      → t.polling ≡ true
      → at_begin a q.queue ≡ false
      → front_data (assign a (less_data 1) q.queue) ≡ some (d, ns)
      → pop_live a t q out
        ≡ some (record q { queue = ns }, (record out { id = t.id; res = d }, pop_data))
  unfolding pop_live
  pop_live_data a t q out d ns p b e = rw p (rw b (rw e))

  -- The queue and the front stream that `pop` looks at.
  module _ (q : Queue T A) (c : Cell T A) (cs : List (Cell T A)) (out : Out T)
      (r : Rep q (c ∷ cs)) where
    began-Simulates :
        c.tag_item.polling ≡ false
        → IsLive c.tag_item.kind
        → Simulates
            (pop_live c.tag_item.at c.tag_item q out)
            (Spec.pop_live (view c) (map view cs) out)
    unfolding pop_live Spec.pop_live
    began-Simulates p live =
        Simulates-by _ _ _ (record (view c) { polling = true } ∷ map view cs)
          (record out { id = c.tag_item.id }, pop_start) (rw p) (rw p)
          (front-Refines q c cs (on_tag (λ u. record u { polling = true }))
            (assign c.tag_item.at (λ u. record u { polling = true }) q.queue) r (λ d. (refl, refl))
            (Silent-live c.tag_item.kind c.datas live)
            (ap (assign c.tag_item.at (λ u. record u { polling = true })) r.nodes
              ∙ assign-layout c.tag_item.at (λ u. record u { polling = true }) (c ∷ cs)
              ∙ rw (==-refl c.tag_item.at)))

    at_front :
        (ds : List (Option T))
        → c.datas ≡ ds
        → at_begin c.tag_item.at q.queue ≡ elim ds [ [] ↦ true | e ∷ es ↦ false ]
    at_front ds e =
        ap (at_begin c.tag_item.at) r.nodes
        ∙ at_begin-layout c cs
        ∙ ap (λ (xs : List (Option T)). elim xs [ [] ↦ true | e ∷ es ↦ false ]) e

    drained-Simulates :
        c.tag_item.polling ≡ true
        → IsLive c.tag_item.kind
        → c.datas ≡ []
        → Simulates
            (pop_live c.tag_item.at c.tag_item q out)
            (Spec.pop_live (view c) (map view cs) out)
    unfolding pop_live Spec.pop_live
    drained-Simulates p live e = elim (Bool-cases (is_uncompleted c.tag_item.kind)) [
      | inl more ↦
          Simulates-by _ _ q (view c ∷ map view cs) (out, pop_empty)
            (rw p (rw (at_front [] e) (rw more))) (rw p (rw e (rw more))) (c ∷ cs, r, refl)
      | inr done ↦
          Simulates-by _ _ (retire c.tag_item q) (map view cs)
            (record out { id = c.tag_item.id; res = or_keep c.tag_item.content out.res }, pop_end)
            (rw p (rw (at_front [] e) (rw done))) (rw p (rw e (rw done)))
            (cs, retire-Rep q c cs e r, refl)
    ]

    data-Simulates :
        (d : Option T) (ds : List (Option T))
        → c.tag_item.polling ≡ true
        → IsLive c.tag_item.kind
        → c.datas ≡ d ∷ ds
        → Simulates
            (pop_live c.tag_item.at c.tag_item q out)
            (Spec.pop_live (view c) (map view cs) out)
    unfolding pop_live Spec.pop_live front_data less_data
    data-Simulates d ds p live e =
        let popped : Cell T A = record { tag_item = less_data 1 c.tag_item; datas = ds } in
        let front : front_data (assign c.tag_item.at (less_data 1) q.queue)
            ≡ some (d, layout (popped ∷ cs)) =
          ap (λ ns. front_data (assign c.tag_item.at (less_data 1) ns)) r.nodes
          ∙ ap front_data (assign-layout c.tag_item.at (less_data 1) (c ∷ cs))
          ∙ rw (==-refl c.tag_item.at) (rw e) in
        Simulates-by _ _ _ (record (view c) { datas = ds } ∷ map view cs)
          (record out { id = c.tag_item.id; res = d }, pop_data)
          (pop_live_data c.tag_item.at c.tag_item q out d _ p (at_front (d ∷ ds) e) front)
          (rw p (rw e))
          (front-Refines q c cs (λ x. record { tag_item = less_data 1 x.tag_item; datas = ds })
            (layout (popped ∷ cs)) r (λ x. (refl, refl)) (Silent-live c.tag_item.kind ds live) refl)

    live-Simulates :
        (ds : List (Option T))
        → c.datas ≡ ds
        → IsLive c.tag_item.kind
        → Simulates
            (pop_live c.tag_item.at c.tag_item q out)
            (Spec.pop_live (view c) (map view cs) out)
    live-Simulates ds e live = elim (Bool-cases c.tag_item.polling) [
      | inl p ↦ polled ds e p
      | inr p ↦ began-Simulates p live
    ]
      where
        polled :
            (ds : List (Option T))
            → c.datas ≡ ds
            → c.tag_item.polling ≡ true
            → Simulates
                (pop_live c.tag_item.at c.tag_item q out)
                (Spec.pop_live (view c) (map view cs) out)
        polled [] e p = drained-Simulates p live e
        polled (d ∷ ds) e p = data-Simulates d ds p live e

    kind-Simulates :
        (k : Kind)
        → c.tag_item.kind ≡ k
        → Simulates
            (pop_tag k c.tag_item.at c.tag_item q out)
            (Spec.pop_kind k (view c) (map view cs) out)
    unfolding pop_tag Spec.pop_kind
    kind-Simulates uncompleted e = live-Simulates c.datas refl (subst IsLive (sym e) tt)
    kind-Simulates completed e = live-Simulates c.datas refl (subst IsLive (sym e) tt)
    kind-Simulates deleted e =
        Simulates-by _ _ _ (map view cs) _ refl refl
          (cs, retire-Rep q c cs (subst (λ k. Silent k c.datas) e r.quiet.0) r, refl)
    kind-Simulates error e =
        Simulates-by _ _ _ (map view cs) _ refl refl
          (cs, retire-Rep q c cs (subst (λ k. Silent k c.datas) e r.quiet.0) r, refl)

    front_tag : deref c.tag_item.at q.queue ≡ some c.tag_item
    front_tag =
        ap (deref c.tag_item.at) r.nodes
        ∙ deref-layout c.tag_item.at (c ∷ cs)
        ∙ rw (==-refl c.tag_item.at)

  pub pop-Simulates :
      (q : Queue T A) (cs : List (Cell T A)) (out : Out T)
      → Rep q cs
      → Simulates (pop q out) (Spec.pop (map view cs) out)
  unfolding pop Spec.pop
  pop-Simulates q [] out r =
      Simulates-by _ _ q [] (out, pop_empty) (simp (r.tags, pop)) refl ([], r, refl)
  pop-Simulates q (c ∷ cs) out r =
      let (q', e, p) = kind-Simulates q c cs out r c.tag_item.kind refl in
      (q', rw (r.tags, pop) (rw (front_tag q c cs out r) e), p)

  pub available-Refines :
      (q : Queue T A) (cs : List (Cell T A))
      → Rep q cs
      → available q ≡ some (Spec.available (map view cs))
  unfolding available Spec.available
  available-Refines q [] r = simp (r.tags, available)
  available-Refines q (c ∷ cs) r =
      rw (r.tags, available)
        (rw (front_tag q c cs fresh_out r)
          (rw (at_front q c cs fresh_out r c.datas refl) (by_data c.datas)))
    where
      fresh_out : Out T
      fresh_out = record { id = 0; res = none; err = 0 }

      by_data :
          (ds : List (Option T))
          → some (
              if is_uncompleted c.tag_item.kind && c.tag_item.polling
              then not (elim ds [ [] ↦ true | e ∷ es ↦ false ])
              else true)
            ≡ some (
                if is_uncompleted c.tag_item.kind && c.tag_item.polling
                then elim ds [ [] ↦ false | e ∷ es ↦ true ]
                else true)
      by_data [] = refl
      by_data (d ∷ ds) = refl

-- ===== src/Stream/Erase.antt =====
-- `StreamQueue::erase` (src/common/pending_queue.h) against its specification.
use rokid_openvoice_sdk.Base.{
  ℕ, ◌≡◌, refl, ap, ◌∙◌, inl, inr, true, false, List, [], ◌∷◌, map, ◌==◌, Option-cases, Bool-cases,
  length, word, ◌%◌, reverse_append, arith,
}
use rokid_openvoice_sdk.Stream.{Queue, seek, strip, mark_erased, less_data, erase, tag}
use rokid_openvoice_sdk.Stream.Spec
use rokid_openvoice_sdk.Stream.Spec.{update, kill}
use rokid_openvoice_sdk.Stream.Layout.{Cell, layout, view, address_of}
use rokid_openvoice_sdk.Stream.Seek.{Sought, seek-layout}
use rokid_openvoice_sdk.Stream.Rep.{Quiet, Rep, lookup-none}
use rokid_openvoice_sdk.Stream.Keep.{Keeps, change_eq}
use rokid_openvoice_sdk.Stream.Refine.{Simulates, Simulates-by, located, changed}

module _ {ℓ κ} {T : Type ℓ} {A : Type κ} where
  erase_cell : ℕ → Cell T A → Cell T A
  erase_cell err c = record {
    tag_item = less_data (length c.datas % word) (mark_erased err c.tag_item);
    datas = [];
  }

  erase_cell-Keeps : (err : ℕ) → Keeps (erase_cell err)
  unfolding erase_cell less_data mark_erased
  erase_cell-Keeps err c = ground arith

  view-erase_cell : (err : ℕ) (c : Cell T A) → view (erase_cell err c) ≡ kill err (view c)
  unfolding erase_cell less_data mark_erased kill
  view-erase_cell err c = elim (Bool-cases (err == 0)) [ inl e ↦ rw e | inr e ↦ rw e ]

  erase_cell-Quiet : (err : ℕ) (c : Cell T A) → Quiet (erase_cell err c)
  unfolding erase_cell less_data mark_erased
  erase_cell-Quiet err c = elim (Bool-cases (err == 0)) [ inl e ↦ rw e | inr e ↦ rw e ]

  pub erase-Simulates :
      (id err : ℕ) (q : Queue T A) (cs : List (Cell T A))
      → Rep q cs
      → Simulates (erase id err q) (Spec.erase id err (map view cs))
  unfolding erase Spec.erase erase_cell strip
  erase-Simulates id err q cs r = elim (Option-cases (address_of id cs)) [
    | inl e ↦
        Simulates-by _ _ q (map view cs) false (rw (r.ids id ∙ e, erase))
          (rw (lookup-none id cs e, Spec.erase)) (cs, r, refl)
    | inr (a, e) ↦
        let (f, found, at) = located id a q cs r e in
        let s : Sought [] a cs f.cell = seek-layout cs [] a f.cell refl f.by_at in
        let sought = ap (seek a []) r.nodes ∙ s.found in
        let same : (id == f.cell.tag_item.id) ≡ true = ground (arith, f.named) in
        Simulates-by _ _
          (record q {
            queue = reverse_append s.kept (tag (erase_cell err f.cell).tag_item ∷ s.after);
          })
          (update id (kill err) (map view cs)) true
          (rw (found, erase) (rw sought (rw same (rw s.stripped)))) (rw (f.by_id, Spec.erase))
          (changed id a q cs f (erase_cell err) (kill err) _ r (erase_cell-Keeps err)
            (view-erase_cell err) (erase_cell-Quiet err f.cell)
            (s.rebuilt _ ∙ ap layout (change_eq a _ (erase_cell err) cs f.cell f.by_at refl)))
  ]

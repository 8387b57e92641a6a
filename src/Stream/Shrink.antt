-- ===== src/Stream/Shrink.antt =====
-- The operations of `StreamQueue` (src/common/pending_queue.h) that take nodes away at the front or
-- everywhere: the retirement of the front tag, and `clear`.
use rokid_openvoice_sdk.Base.{
  ℕ, suc, ◌≤◌, ◌≡◌, refl, ap, sym, ◌∙◌, Option, none, some, List, [], ◌∷◌, map, arith, ◌==◌,
  if◌then◌else◌, All, add32, sub32,
}
use rokid_openvoice_sdk.Stream.{
  deleted, Node, Queue, tag, find, forget, retire, deref, last_of, id_range, pop_front, clear_from,
}
use rokid_openvoice_sdk.Stream.Spec.{kill, last_id, range}
use rokid_openvoice_sdk.Stream.Layout.{
  Cell, layout, with_data, view, cell_at, address_of, tag_of, deref-layout,
}
use rokid_openvoice_sdk.Stream.Rep.{Rising, Distinct, Quiet, ats, Rep}

find-forget :
    (i j : ℕ) (m : List (ℕ × ℕ)) → find i (forget j m) ≡ (if j == i then none else find i m)
unfolding find forget
find-forget i j [] = ground arith
find-forget i j ((k, a) ∷ m) = ground (arith, find-forget i j m)

-- The counter of `clear` after some data nodes.
abbrev pub counted {ℓ} : {T : Type ℓ} → ℕ → List (Option T) → ℕ
counted n [] = n
counted n (d ∷ ds) = counted (add32 n 1) ds

module _ {ℓ κ} {T : Type ℓ} {A : Type κ} where
  Rising-weaken :
      (lo lo' hi : ℕ) (cs : List (Cell T A)) → lo ≤ lo' → Rising lo' cs hi → Rising lo cs hi
  Rising-weaken lo lo' hi [] h r = omega arith
  Rising-weaken lo lo' hi (c ∷ cs) h r = (omega arith, r.1)

  -- The front tag, once its data are gone, leaves all three containers.
  pub retire-Rep :
      (q : Queue T A) (c : Cell T A) (cs : List (Cell T A))
      → c.datas ≡ []
      → Rep q (c ∷ cs)
      → Rep (retire c.tag_item q) cs
  unfolding retire
  retire-Rep q c cs e r = record {
    nodes = ap pop_front (r.nodes ∙ ap (λ ds. with_data ds (tag c.tag_item ∷ layout cs)) e);
    tags = rw r.tags;
    ids = λ i. find-forget i c.tag_item.id q.item_tags ∙ ground (arith, r.ids i, r.distinct.0);
    rising = Rising-weaken 0 (suc c.tag_item.at) q.next cs (omega arith) r.rising.1;
    distinct = r.distinct.1;
    quiet = r.quiet.1;
  }

  -- The streams after `clear`, with the count that the loop carries from one to the next.
  abbrev pub cleared_cell : ℕ → Cell T A → Cell T A
  cleared_cell n c = record {
    tag_item = record c.tag_item {
      kind = deleted;
      content = none;
      data_count = sub32 c.tag_item.data_count (counted n c.datas);
    };
    datas = [];
  }

  abbrev pub cleared : ℕ → List (Cell T A) → List (Cell T A)
  cleared n [] = []
  cleared n (c ∷ cs) = cleared_cell n c ∷ cleared (counted n c.datas) cs

  clear_from-with_data :
      (n : ℕ) (ds : List (Option T)) (ns : List (Node T A))
      → clear_from n (with_data ds ns) ≡ clear_from (counted n ds) ns
  unfolding clear_from
  clear_from-with_data n [] ns = refl
  clear_from-with_data n (d ∷ ds) ns = clear_from-with_data (add32 n 1) ds ns

  clear_from-layout :
      (n : ℕ) (cs : List (Cell T A)) → clear_from n (layout cs) ≡ layout (cleared n cs)
  unfolding clear_from
  clear_from-layout n [] = refl
  clear_from-layout n (c ∷ cs) =
      clear_from-with_data n c.datas (tag c.tag_item ∷ layout cs)
      ∙ ap (◌∷◌ (tag (cleared_cell n c).tag_item)) (clear_from-layout (counted n c.datas) cs)

  pub view-cleared :
      (n : ℕ) (cs : List (Cell T A)) → map view (cleared n cs) ≡ map (kill 0) (map view cs)
  unfolding kill
  view-cleared n [] = refl
  view-cleared n (c ∷ cs) = ap (◌∷◌ (view (cleared_cell n c))) (view-cleared (counted n c.datas) cs)

  ats-cleared : (n : ℕ) (cs : List (Cell T A)) → ats (cleared n cs) ≡ ats cs
  ats-cleared n [] = refl
  ats-cleared n (c ∷ cs) = ap (◌∷◌ c.tag_item.at) (ats-cleared (counted n c.datas) cs)

  address_of-cleared :
      (i n : ℕ) (cs : List (Cell T A)) → address_of i (cleared n cs) ≡ address_of i cs
  address_of-cleared i n [] = refl
  address_of-cleared i n (c ∷ cs) = ground (arith, address_of-cleared i (counted n c.datas) cs)

  Rising-cleared :
      (lo hi n : ℕ) (cs : List (Cell T A)) → Rising lo cs hi → Rising lo (cleared n cs) hi
  Rising-cleared lo hi n [] r = r
  Rising-cleared lo hi n (c ∷ cs) r =
      (r.0, Rising-cleared (suc c.tag_item.at) hi (counted n c.datas) cs r.1)

  Distinct-cleared : (n : ℕ) (cs : List (Cell T A)) → Distinct cs → Distinct (cleared n cs)
  Distinct-cleared n [] d = d
  Distinct-cleared n (c ∷ cs) d = (
    address_of-cleared c.tag_item.id (counted n c.datas) cs ∙ d.0,
    Distinct-cleared (counted n c.datas) cs d.1,
  )

  Quiet-cleared : (n : ℕ) (cs : List (Cell T A)) → All Quiet (cleared n cs)
  Quiet-cleared n [] = tt
  Quiet-cleared n (c ∷ cs) = (refl, Quiet-cleared (counted n c.datas) cs)

  pub clear-Rep :
      (q : Queue T A) (cs : List (Cell T A))
      → Rep q cs
      → Rep (record q { queue = clear_from 0 q.queue }) (cleared 0 cs)
  clear-Rep q cs r = record {
    nodes = rw r.nodes (clear_from-layout 0 cs);
    tags = r.tags ∙ sym (ats-cleared 0 cs);
    ids = λ i. r.ids i ∙ sym (address_of-cleared i 0 cs);
    rising = Rising-cleared 0 q.next 0 cs r.rising;
    distinct = Distinct-cleared 0 cs r.distinct;
    quiet = Quiet-cleared 0 cs;
  }

  last_of-Rising :
      (lo hi : ℕ) (c : Cell T A) (cs : List (Cell T A))
      → Rising lo (c ∷ cs) hi
      → lo ≤ last_of c.tag_item.at (ats cs)
  unfolding last_of
  last_of-Rising lo hi c [] r = r.0
  last_of-Rising lo hi c (d ∷ cs) r = omega (arith, last_of-Rising (suc c.tag_item.at) hi d cs r.1)

  -- The id of the last tag.
  deref-last :
      (lo hi : ℕ) (c : Cell T A) (cs : List (Cell T A))
      → Rising lo (c ∷ cs) hi
      → (t : Cell T A) × (cell_at (last_of c.tag_item.at (ats cs)) (c ∷ cs) ≡ some t)
        × (t.tag_item.id ≡ last_id c.tag_item.id (map view cs))
  unfolding last_of last_id
  deref-last lo hi c [] r = (c, ground arith, refl)
  deref-last lo hi c (d ∷ cs) r =
      let (t, e, n) = deref-last (suc c.tag_item.at) hi d cs r.1 in
      (t, ground (arith, e, last_of-Rising (suc c.tag_item.at) hi d cs r.1), n)

  pub id_range-layout :
      (hi : ℕ) (cs : List (Cell T A))
      → Rising 0 cs hi
      → id_range (ats cs) (layout cs) ≡ some (range (map view cs))
  unfolding id_range range
  id_range-layout hi [] r = refl
  id_range-layout hi (c ∷ cs) r =
      let (t, e, n) = deref-last 0 hi c cs r in
      let first : deref c.tag_item.at (layout (c ∷ cs)) ≡ some c.tag_item =
        deref-layout c.tag_item.at (c ∷ cs) ∙ ground arith in
      let last : deref (last_of c.tag_item.at (ats cs)) (layout (c ∷ cs)) ≡ some t.tag_item =
        deref-layout _ (c ∷ cs) ∙ ap tag_of e in
      rw (first, last) (ap (λ i. some (c.tag_item.id, i)) n)

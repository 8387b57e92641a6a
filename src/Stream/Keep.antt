-- ===== src/Stream/Keep.antt =====
-- What keeps the containers of a `StreamQueue` (src/common/pending_queue.h) in step: a write
-- through an iterator, a new tag at the end, the retirement of the front tag, and `clear`.
use rokid_openvoice_sdk.Base.{
  ℕ, suc, ◌≡◌, refl, ap, sym, ◌∙◌, inl, inr, none, some, List, [], ◌∷◌, ◌++◌, arith, ◌==◌,
  if◌then◌else◌, All, Bool-cases,
}
use rokid_openvoice_sdk.Stream.{Node, Queue, tag, find, new_tag}
use rokid_openvoice_sdk.Stream.Layout.{Cell, layout, cell_at, address_of, change, layout-append}
use rokid_openvoice_sdk.Stream.Rep.{Rising, Distinct, Quiet, ats, Rep}

module _ {ℓ κ} {T : Type ℓ} {A : Type κ} where
  -- A change that leaves address and id alone.
  abbrev pub Keeps : (Cell T A → Cell T A) → Type (ℓ ⊔ κ)
  Keeps g =
      (c : Cell T A) → ((g c).tag_item.at ≡ c.tag_item.at) × ((g c).tag_item.id ≡ c.tag_item.id)

  module _ (a : ℕ) (g : Cell T A → Cell T A) (k : Keeps g) where
    ats-change : (cs : List (Cell T A)) → ats (change a g cs) ≡ ats cs
    ats-change [] = refl
    ats-change (c ∷ cs) = ground (arith, ats-change cs, k c)

    address_of-change :
        (i : ℕ) (cs : List (Cell T A)) → address_of i (change a g cs) ≡ address_of i cs
    address_of-change i [] = refl
    address_of-change i (c ∷ cs) = ground (arith, address_of-change i cs, k c)

    Rising-change :
        (lo hi : ℕ) (cs : List (Cell T A)) → Rising lo cs hi → Rising lo (change a g cs) hi
    Rising-change lo hi [] r = r
    Rising-change lo hi (c ∷ cs) r =
        ground (arith, Rising-change (suc c.tag_item.at) hi cs r.1, k c)

    Distinct-change : (cs : List (Cell T A)) → Distinct cs → Distinct (change a g cs)
    Distinct-change [] d = d
    Distinct-change (c ∷ cs) d =
        ground (arith, Distinct-change cs d.1, k c, address_of-change c.tag_item.id cs)

    All-change :
        (cs : List (Cell T A))
        → All Quiet cs
        → ((c : Cell T A) → cell_at a cs ≡ some c → Quiet (g c))
        → All Quiet (change a g cs)
    All-change [] q h = q
    All-change (c ∷ cs) q h = elim (Bool-cases (c.tag_item.at == a)) [
      | inl here ↦ rw here (h c (rw here), q.1)
      | inr there ↦ rw there (q.0, All-change cs q.1 (λ d e. h d (rw there e)))
    ]

    pub change-Rep :
        (q : Queue T A) (cs : List (Cell T A)) (ns : List (Node T A))
        → ns ≡ layout (change a g cs)
        → ((c : Cell T A) → cell_at a cs ≡ some c → Quiet (g c))
        → Rep q cs
        → Rep (record q { queue = ns }) (change a g cs)
    change-Rep q cs ns e h r = record {
      nodes = e;
      tags = r.tags ∙ sym (ats-change cs);
      ids = λ i. r.ids i ∙ sym (address_of-change i cs);
      rising = Rising-change 0 q.next cs r.rising;
      distinct = Distinct-change cs r.distinct;
      quiet = All-change cs r.quiet h;
    }

  -- Two changes at one address, and changes that agree on the cell there.
  pub change-change :
      (a : ℕ) (g h : Cell T A → Cell T A) (cs : List (Cell T A))
      → Keeps h
      → change a g (change a h cs) ≡ change a (λ c. g (h c)) cs
  change-change a g h [] k = refl
  change-change a g h (c ∷ cs) k = ground (arith, change-change a g h cs k, k c)

  pub change_eq :
      (a : ℕ) (g h : Cell T A → Cell T A) (cs : List (Cell T A)) (c : Cell T A)
      → cell_at a cs ≡ some c
      → g c ≡ h c
      → change a g cs ≡ change a h cs
  change_eq a g h [] c e s = refl
  change_eq a g h (d ∷ cs) c e s = elim (Bool-cases (d.tag_item.at == a)) [
    | inl here ↦
        let same : d ≡ c = ground arith in
        rw here (ap (λ x. x ∷ cs) (ap g same ∙ s ∙ sym (ap h same)))
    | inr there ↦ rw there (ap (◌∷◌ d) (change_eq a g h cs c (ground arith) s))
  ]

  ats-append : (cs ds : List (Cell T A)) → ats (cs ++ ds) ≡ ats cs ++ ats ds
  ats-append [] ds = refl
  ats-append (c ∷ cs) ds = ap (◌∷◌ c.tag_item.at) (ats-append cs ds)

  abbrev pub new_cell : ℕ → ℕ → Cell T A
  new_cell at id = record { tag_item = new_tag at id; datas = [] }

  address_of-append :
      (i at id : ℕ) (cs : List (Cell T A))
      → address_of id cs ≡ none
      → address_of i (cs ++ new_cell at id ∷ []) ≡ (if id == i then some at else address_of i cs)
  unfolding new_tag
  address_of-append i at id [] e = refl
  address_of-append i at id (c ∷ cs) e = ground (arith, address_of-append i at id cs)

  Rising-append :
      (lo at id : ℕ) (cs : List (Cell T A))
      → Rising lo cs at
      → Rising lo (cs ++ new_cell at id ∷ []) (suc at)
  unfolding new_tag
  Rising-append lo at id [] r = omega arith
  Rising-append lo at id (c ∷ cs) r = (r.0, Rising-append (suc c.tag_item.at) at id cs r.1)

  Distinct-append :
      (at id : ℕ) (cs : List (Cell T A))
      → address_of id cs ≡ none
      → Distinct cs
      → Distinct (cs ++ new_cell at id ∷ [])
  unfolding new_tag
  Distinct-append at id [] e d = (refl, tt)
  Distinct-append at id (c ∷ cs) e d =
      ground (arith, address_of-append c.tag_item.id at id cs, Distinct-append at id cs, d.0, d.1)

  Quiet-append :
      (at id : ℕ) (cs : List (Cell T A)) → All Quiet cs → All Quiet (cs ++ new_cell at id ∷ [])
  unfolding new_tag
  Quiet-append at id [] q = (tt, tt)
  Quiet-append at id (c ∷ cs) q = (q.0, Quiet-append at id cs q.1)

  pub start-Rep :
      (q : Queue T A) (cs : List (Cell T A)) (id : ℕ)
      → address_of id cs ≡ none
      → Rep q cs
      → Rep
          (record {
            queue = q.queue ++ tag (new_tag q.next id) ∷ [];
            tag_queue = q.tag_queue ++ q.next ∷ [];
            item_tags = (id, q.next) ∷ q.item_tags;
            next = suc q.next;
          })
          (cs ++ new_cell q.next id ∷ [])
  unfolding find new_tag
  start-Rep q cs id e r = record {
    nodes = rw r.nodes (sym (layout-append cs (new_cell q.next id ∷ [])));
    tags = rw r.tags (sym (ats-append cs (new_cell q.next id ∷ [])));
    ids = λ i. rw (r.ids i) (sym (address_of-append i q.next id cs e));
    rising = Rising-append 0 q.next id cs r.rising;
    distinct = Distinct-append q.next id cs e r.distinct;
    quiet = Quiet-append q.next id cs r.quiet;
  }

-- ===== src/Stream/Rep.antt =====
-- When the three containers of a `StreamQueue` (src/common/pending_queue.h) stand for a list of
-- streams, and what keeps them so.
use rokid_openvoice_sdk.Base.{
  ℕ, suc, ◌≤◌, ◌≡◌, refl, ap, inl, inr, true, false, Option, none, some, List, [], ◌∷◌, map, arith,
  ◌==◌, All, Bool-cases,
}
use rokid_openvoice_sdk.Stream.{Kind, uncompleted, completed, deleted, error, Queue, find}
use rokid_openvoice_sdk.Stream.Spec.{Stream, lookup, update}
use rokid_openvoice_sdk.Stream.Layout.{Cell, layout, view, cell_at, address_of, change}

-- A deleted or failed stream holds no data.
abbrev pub Silent {ℓ} : {T : Type ℓ} → Kind → List (Option T) → Type ℓ
Silent uncompleted ds = Unit
Silent completed ds = Unit
Silent deleted ds = ds ≡ []
Silent error ds = ds ≡ []

module _ {ℓ κ} {T : Type ℓ} {A : Type κ} where
  -- Addresses rise along the list, from `lo` on, and stay under the next one.
  abbrev pub Rising : ℕ → List (Cell T A) → ℕ → Type 0
  Rising lo [] hi = lo ≤ hi
  Rising lo (c ∷ cs) hi = (lo ≤ c.tag_item.at) × Rising (suc c.tag_item.at) cs hi

  abbrev pub Distinct : List (Cell T A) → Type 0
  Distinct [] = Unit {0}
  Distinct (c ∷ cs) = (address_of c.tag_item.id cs ≡ none) × Distinct cs

  abbrev pub Quiet : Cell T A → Type ℓ
  Quiet c = Silent c.tag_item.kind c.datas

  abbrev pub ats : List (Cell T A) → List ℕ
  ats [] = []
  ats (c ∷ cs) = c.tag_item.at ∷ ats cs

  pub record Rep (q : Queue T A) (cs : List (Cell T A)) : Type (ℓ ⊔ κ) where
    pub nodes : q.queue ≡ layout cs
    pub tags : q.tag_queue ≡ ats cs
    pub ids : (i : ℕ) → find i q.item_tags ≡ address_of i cs
    pub rising : Rising 0 cs q.next
    pub distinct : Distinct cs
    pub quiet : All Quiet cs

  -- The stream that an id names, by its address and by its id.
  pub record Found (i a : ℕ) (cs : List (Cell T A)) : Type (ℓ ⊔ κ) where
    pub cell : Cell T A
    pub by_at : cell_at a cs ≡ some cell
    pub by_id : lookup i (map view cs) ≡ some (view cell)
    pub named : cell.tag_item.id ≡ i
    pub updated :
        (g : Cell T A → Cell T A) (h : Stream T A → Stream T A)
        → ((c : Cell T A) → view (g c) ≡ h (view c))
        → map view (change a g cs) ≡ update i h (map view cs)

  address-Rising :
      (i a lo hi : ℕ) (cs : List (Cell T A)) → Rising lo cs hi → address_of i cs ≡ some a → lo ≤ a
  address-Rising i a lo hi [] r e = absurd (cc)
  address-Rising i a lo hi (c ∷ cs) r e =
      ground (arith, address-Rising i a (suc c.tag_item.at) hi cs r.1)

  Found-here :
      (i a : ℕ) (c : Cell T A) (cs : List (Cell T A))
      → (c.tag_item.id == i) ≡ true
      → c.tag_item.at ≡ a
      → Found i a (c ∷ cs)
  unfolding lookup update
  Found-here i a c cs e at = record {
    cell = c;
    by_at = ground arith;
    by_id = rw e;
    named = ground arith;
    updated = λ g h k. ground (arith, k c);
  }

  Found-there :
      (i a : ℕ) (c : Cell T A) (cs : List (Cell T A))
      → (c.tag_item.id == i) ≡ false
      → (c.tag_item.at == a) ≡ false
      → Found i a cs
      → Found i a (c ∷ cs)
  unfolding lookup update
  Found-there i a c cs e at f = record {
    cell = f.cell;
    by_at = rw at f.by_at;
    by_id = rw e f.by_id;
    named = f.named;
    updated = λ g h k. rw at (rw e (ap (◌∷◌ (view c)) (f.updated g h k)));
  }

  pub find_cell :
      (i a lo hi : ℕ) (cs : List (Cell T A))
      → Rising lo cs hi
      → address_of i cs ≡ some a
      → Found i a cs
  find_cell i a lo hi [] r e = absurd (cc)
  find_cell i a lo hi (c ∷ cs) r e = elim (Bool-cases (c.tag_item.id == i)) [
    | inl here ↦ Found-here i a c cs here (ground arith)
    | inr there ↦
        let later : address_of i cs ≡ some a = ground arith in
        let above = address-Rising i a (suc c.tag_item.at) hi cs r.1 later in
        Found-there i a c cs there (ground arith)
          (find_cell i a (suc c.tag_item.at) hi cs r.1 later)
  ]

  pub lookup-none :
      (i : ℕ) (cs : List (Cell T A)) → address_of i cs ≡ none → lookup i (map view cs) ≡ none
  unfolding lookup
  lookup-none i [] e = refl
  lookup-none i (c ∷ cs) e = ground (arith, lookup-none i cs)

-- ===== src/Stream/Layout.antt =====
-- How `queue_` of `StreamQueue` (src/common/pending_queue.h) holds its streams: each stream's data
-- nodes, then its tag. The list operations, seen on streams.
use rokid_openvoice_sdk.Base.{
  ℕ, ◌≡◌, refl, ap, sym, ◌∙◌, true, false, Option, none, some, List, [], ◌∷◌, ◌++◌, arith, ◌==◌,
  if◌then◌else◌,
}
use rokid_openvoice_sdk.Stream.{Tag, Node, voice, tag, deref, assign, insert_before, at_begin}
use rokid_openvoice_sdk.Stream.Spec.{Stream}

pub record Cell {ℓ κ} (T : Type ℓ) (A : Type κ) : Type (ℓ ⊔ κ) where
  pub tag_item : Tag T A
  pub datas : List (Option T)

module _ {ℓ κ} {T : Type ℓ} {A : Type κ} where
  abbrev pub with_data : List (Option T) → List (Node T A) → List (Node T A)
  with_data [] ns = ns
  with_data (d ∷ ds) ns = voice d ∷ with_data ds ns

  abbrev pub layout : List (Cell T A) → List (Node T A)
  layout [] = []
  layout (c ∷ cs) = with_data c.datas (tag c.tag_item ∷ layout cs)

  -- The view that forgets the addresses and the counters.
  abbrev pub view : Cell T A → Stream T A
  view c = record {
    id = c.tag_item.id;
    kind = c.tag_item.kind;
    polling = c.tag_item.polling;
    err = c.tag_item.err;
    content = c.tag_item.content;
    arg = c.tag_item.arg;
    datas = c.datas;
  }

  abbrev pub cell_at : ℕ → List (Cell T A) → Option (Cell T A)
  cell_at a [] = none
  cell_at a (c ∷ cs) = if c.tag_item.at == a then some c else cell_at a cs

  abbrev pub address_of : ℕ → List (Cell T A) → Option ℕ
  address_of i [] = none
  address_of i (c ∷ cs) = if c.tag_item.id == i then some c.tag_item.at else address_of i cs

  abbrev pub change : ℕ → (Cell T A → Cell T A) → List (Cell T A) → List (Cell T A)
  change a g [] = []
  change a g (c ∷ cs) = if c.tag_item.at == a then g c ∷ cs else c ∷ change a g cs

  abbrev pub on_tag : (Tag T A → Tag T A) → Cell T A → Cell T A
  on_tag f c = record c { tag_item = f c.tag_item }

  abbrev pub push : Option T → Cell T A → Cell T A
  push d c = record c { datas = c.datas ++ d ∷ [] }

  abbrev pub tag_of : Option (Cell T A) → Option (Tag T A)
  tag_of none = none
  tag_of (some c) = some c.tag_item

  deref-with_data :
      (a : ℕ) (ds : List (Option T)) (ns : List (Node T A)) → deref a (with_data ds ns) ≡ deref a ns
  unfolding deref
  deref-with_data a [] ns = refl
  deref-with_data a (d ∷ ds) ns = deref-with_data a ds ns

  pub deref-layout : (a : ℕ) (cs : List (Cell T A)) → deref a (layout cs) ≡ tag_of (cell_at a cs)
  unfolding deref
  deref-layout a [] = refl
  deref-layout a (c ∷ cs) =
      deref-with_data a c.datas (tag c.tag_item ∷ layout cs) ∙ ground (arith, deref-layout a cs)

  assign-with_data :
      (a : ℕ) (f : Tag T A → Tag T A) (ds : List (Option T)) (ns : List (Node T A))
      → assign a f (with_data ds ns) ≡ with_data ds (assign a f ns)
  unfolding assign
  assign-with_data a f [] ns = refl
  assign-with_data a f (d ∷ ds) ns = ap (◌∷◌ (voice d)) (assign-with_data a f ds ns)

  pub assign-layout :
      (a : ℕ) (f : Tag T A → Tag T A) (cs : List (Cell T A))
      → assign a f (layout cs) ≡ layout (change a (on_tag f) cs)
  unfolding assign
  assign-layout a f [] = refl
  assign-layout a f (c ∷ cs) =
      assign-with_data a f c.datas (tag c.tag_item ∷ layout cs)
      ∙ ground (arith, assign-layout a f cs)

  insert-with_data :
      (a : ℕ) (e : Option T) (ds : List (Option T)) (ns : List (Node T A))
      → insert_before a e (with_data ds ns) ≡ with_data ds (insert_before a e ns)
  unfolding insert_before
  insert-with_data a e [] ns = refl
  insert-with_data a e (d ∷ ds) ns = ap (◌∷◌ (voice d)) (insert-with_data a e ds ns)

  with_data-append :
      (ds es : List (Option T)) (ns : List (Node T A))
      → with_data (ds ++ es) ns ≡ with_data ds (with_data es ns)
  with_data-append [] es ns = refl
  with_data-append (d ∷ ds) es ns = ap (◌∷◌ (voice d)) (with_data-append ds es ns)

  pub insert-layout :
      (a : ℕ) (d : Option T) (cs : List (Cell T A))
      → insert_before a d (layout cs) ≡ layout (change a (push d) cs)
  unfolding insert_before
  insert-layout a d [] = refl
  insert-layout a d (c ∷ cs) =
      insert-with_data a d c.datas (tag c.tag_item ∷ layout cs)
      ∙ ground (
        arith,
        insert-layout a d cs,
        with_data-append c.datas (d ∷ []) (tag c.tag_item ∷ layout cs),
      )

  with_data_assoc :
      (ds : List (Option T)) (ms ns : List (Node T A))
      → with_data ds ms ++ ns ≡ with_data ds (ms ++ ns)
  with_data_assoc [] ms ns = refl
  with_data_assoc (d ∷ ds) ms ns = ap (◌∷◌ (voice d)) (with_data_assoc ds ms ns)

  pub layout-append : (cs ds : List (Cell T A)) → layout (cs ++ ds) ≡ layout cs ++ layout ds
  layout-append [] ds = refl
  layout-append (c ∷ cs) ds =
      ap (λ ns. with_data c.datas (tag c.tag_item ∷ ns)) (layout-append cs ds)
      ∙ sym (with_data_assoc c.datas (tag c.tag_item ∷ layout cs) (layout ds))

  -- A data node stands in front of the tag unless the stream has none.
  pub at_begin-layout :
      (c : Cell T A) (cs : List (Cell T A))
      → at_begin c.tag_item.at (layout (c ∷ cs)) ≡ elim c.datas [ [] ↦ true | d ∷ ds ↦ false ]
  unfolding at_begin
  at_begin-layout c cs = at_begin_of c.datas
    where
      at_begin_of :
          (ds : List (Option T))
          → at_begin c.tag_item.at (with_data ds (tag c.tag_item ∷ layout cs))
            ≡ elim ds [ [] ↦ true | d ∷ ds ↦ false ]
      at_begin_of [] = ground arith
      at_begin_of (d ∷ ds) = refl

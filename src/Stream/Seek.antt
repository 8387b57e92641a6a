-- ===== src/Stream/Seek.antt =====
-- The backward walk of `StreamQueue::erase` (src/common/pending_queue.h), seen on streams.
use rokid_openvoice_sdk.Base.{
  ℕ, suc, ◌+◌, ◌%◌, ◌≡◌, refl, ap, ◌∙◌, inl, inr, true, false, Option, some, List, [], ◌∷◌, subst,
  arith, ◌==◌, reverse_append, length, word, Bool-cases,
}
use rokid_openvoice_sdk.Stream.{Tag, Node, voice, tag, seek, strip}
use rokid_openvoice_sdk.Stream.Layout.{Cell, with_data, layout, cell_at, change}

module _ {ℓ κ} {T : Type ℓ} {A : Type κ} where
  -- Data nodes moved one by one onto what stands before.
  abbrev heaped : List (Option T) → List (Node T A) → List (Node T A)
  heaped [] b = b
  heaped (d ∷ ds) b = heaped ds (voice d ∷ b)

  seek-with_data :
      (a : ℕ) (ds : List (Option T)) (b ns : List (Node T A))
      → seek a b (with_data ds ns) ≡ seek a (heaped ds b) ns
  unfolding seek
  seek-with_data a [] b ns = refl
  seek-with_data a (d ∷ ds) b ns = seek-with_data a ds (voice d ∷ b) ns

  reverse_append-heaped :
      (ds : List (Option T)) (b ns : List (Node T A))
      → reverse_append (heaped ds b) ns ≡ reverse_append b (with_data ds ns)
  reverse_append-heaped [] b ns = refl
  reverse_append-heaped (d ∷ ds) b ns = reverse_append-heaped ds (voice d ∷ b) ns

  strip-heaped :
      (ds : List (Option T)) (b k : List (Node T A)) (n : ℕ)
      → strip b ≡ (k, n % word)
      → strip (heaped ds b) ≡ (k, (n + length ds) % word)
  unfolding strip
  strip-heaped [] b k n e = e ∙ ap (λ m. (k, m % word)) (omega arith)
  strip-heaped (d ∷ ds) b k n e =
      strip-heaped ds (voice d ∷ b) k (suc n) (rw e (ap (λ m. (k, m)) (omega arith)))
      ∙ ap (λ m. (k, m % word)) (omega arith)

  -- `erase` finds the tag; the loop takes its own data and no other; a new tag in its place gives
  -- the list in which that stream has no data.
  pub record Sought (b : List (Node T A)) (a : ℕ) (cs : List (Cell T A)) (c : Cell T A)
      : Type (ℓ ⊔ κ) where
    pub before : List (Node T A)
    pub after : List (Node T A)
    pub kept : List (Node T A)
    pub found : seek a b (layout cs) ≡ some (before, c.tag_item, after)
    pub stripped : strip before ≡ (kept, length c.datas % word)
    pub rebuilt :
        (t : Tag T A)
        → reverse_append kept (tag t ∷ after)
          ≡ reverse_append b (layout (change a (λ _. record { tag_item = t; datas = [] }) cs))

  seek_here :
      (d : Cell T A) (cs : List (Cell T A)) (b : List (Node T A)) (a : ℕ)
      → strip b ≡ (b, 0)
      → (d.tag_item.at == a) ≡ true
      → Sought b a (d ∷ cs) d
  unfolding seek
  seek_here d cs b a top here = record {
    before = heaped d.datas b;
    after = layout cs;
    kept = b;
    found = seek-with_data a d.datas b (tag d.tag_item ∷ layout cs) ∙ rw here;
    stripped = strip-heaped d.datas b b 0 top ∙ ap (λ m. (b, m % word)) (omega arith);
    rebuilt = λ t. rw here;
  }

  seek_there :
      (d : Cell T A) (cs : List (Cell T A)) (b : List (Node T A)) (a : ℕ) (c : Cell T A)
      → (d.tag_item.at == a) ≡ false
      → Sought (tag d.tag_item ∷ heaped d.datas b) a cs c
      → Sought b a (d ∷ cs) c
  unfolding seek
  seek_there d cs b a c there s = record {
    before = s.before;
    after = s.after;
    kept = s.kept;
    found = seek-with_data a d.datas b (tag d.tag_item ∷ layout cs) ∙ rw there s.found;
    stripped = s.stripped;
    rebuilt = λ t. s.rebuilt t ∙ reverse_append-heaped d.datas b _ ∙ rw there;
  }

  pub seek-layout :
      (cs : List (Cell T A)) (b : List (Node T A)) (a : ℕ) (c : Cell T A)
      → strip b ≡ (b, 0)
      → cell_at a cs ≡ some c
      → Sought b a cs c
  unfolding strip
  seek-layout [] b a c top e = absurd (cc)
  seek-layout (d ∷ cs) b a c top e = elim (Bool-cases (d.tag_item.at == a)) [
    | inl here ↦
        let same : d ≡ c = ground arith in
        subst (Sought b a (d ∷ cs)) same (seek_here d cs b a top here)
    | inr there ↦
        seek_there d cs b a c there
          (seek-layout cs (tag d.tag_item ∷ heaped d.datas b) a c refl (ground arith))
  ]

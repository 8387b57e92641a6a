-- ===== src/Stream/Nodes.antt =====
-- The nodes of `queue_` of a `StreamQueue` (src/common/pending_queue.h), and the calls of the standard
-- containers that its operations make.
use rokid_openvoice_sdk.Base.{
  ℕ, Bool, true, false, Option, none, some, List, [], ◌∷◌, ◌==◌, if◌then◌else◌, add32, sub32,
}

-- `QueueItem::ItemType` of a tag; a node of type `data` is `Node.voice` below.
pub data Kind : Type 0 where
  uncompleted completed deleted error : Kind

-- A `QueueItem` that is a tag. A shared pointer is an `Option`, null being `none`.
pub record Tag {ℓ κ} (T : Type ℓ) (A : Type κ) : Type (ℓ ⊔ κ) where
  pub at : ℕ
  pub id : ℕ
  pub kind : Kind
  pub polling : Bool
  pub err : ℕ
  pub content : Option T
  pub arg : Option A
  pub data_count : ℕ

pub data Node {ℓ κ} (T : Type ℓ) (A : Type κ) : Type (ℓ ⊔ κ) where
  voice : Option T → Node T A
  tag : Tag T A → Node T A

pub record Queue {ℓ κ} (T : Type ℓ) (A : Type κ) : Type (ℓ ⊔ κ) where
  pub queue : List (Node T A)
  pub tag_queue : List ℕ
  pub item_tags : List (ℕ × ℕ)
  pub next : ℕ

pub data PopType : Type 0 where
  pop_empty pop_data pop_start pop_end pop_removed pop_error : PopType

-- The reference parameters `id`, `res` and `err` of `pop`.
pub record Out {ℓ} (T : Type ℓ) : Type ℓ where
  pub id : ℕ
  pub res : Option T
  pub err : ℕ

abbrev pub is_uncompleted : Kind → Bool
is_uncompleted uncompleted = true
is_uncompleted _ = false

-- `item_tags_.find` and `item_tags_.erase`.
unfoldable pub find : ℕ → List (ℕ × ℕ) → Option ℕ
find i [] = none
find i ((j, a) ∷ m) = if j == i then some a else find i m

unfoldable pub forget : ℕ → List (ℕ × ℕ) → List (ℕ × ℕ)
forget i [] = []
forget i ((j, a) ∷ m) = if j == i then forget i m else (j, a) ∷ forget i m

unfoldable pub drop_first : List ℕ → List ℕ
drop_first [] = []
drop_first (a ∷ rest) = rest

-- The last entry of a list that begins with `a`.
unfoldable pub last_of : ℕ → List ℕ → ℕ
last_of a [] = a
last_of a (b ∷ rest) = last_of b rest

-- `if (item->content.get()) res = item->content`.
unfoldable pub or_keep {ℓ} : {T : Type ℓ} → Option T → Option T → Option T
or_keep none old = old
or_keep (some d) old = some d

module _ {ℓ κ} {T : Type ℓ} {A : Type κ} where
  -- `**it`, the item of the node that an iterator points at.
  unfoldable pub deref : ℕ → List (Node T A) → Option (Tag T A)
  deref a [] = none
  deref a (voice d ∷ ns) = deref a ns
  deref a (tag t ∷ ns) = if t.at == a then some t else deref a ns

  -- A write through an iterator.
  unfoldable pub assign : ℕ → (Tag T A → Tag T A) → List (Node T A) → List (Node T A)
  assign a f [] = []
  assign a f (voice d ∷ ns) = voice d ∷ assign a f ns
  assign a f (tag t ∷ ns) = if t.at == a then tag (f t) ∷ ns else tag t ∷ assign a f ns

  -- `queue_.insert(it, item)`: a data node in front of the node at `a`.
  unfoldable pub insert_before : ℕ → Option T → List (Node T A) → List (Node T A)
  insert_before a d [] = []
  insert_before a d (voice e ∷ ns) = voice e ∷ insert_before a d ns
  insert_before a d (tag t ∷ ns) =
      if t.at == a then voice d ∷ tag t ∷ ns else tag t ∷ insert_before a d ns

  -- `it == queue_.begin()`.
  unfoldable pub at_begin : ℕ → List (Node T A) → Bool
  at_begin a [] = false
  at_begin a (voice d ∷ ns) = false
  at_begin a (tag t ∷ ns) = t.at == a

  unfoldable pub pop_front : List (Node T A) → List (Node T A)
  pop_front [] = []
  pop_front (n ∷ ns) = ns

  -- The node at an iterator, with what stands before it, the nearest node first, and after it.
  unfoldable pub seek :
      ℕ → List (Node T A) → List (Node T A) → Option (List (Node T A) × Tag T A × List (Node T A))
  seek a before [] = none
  seek a before (voice d ∷ ns) = seek a (voice d ∷ before) ns
  seek a before (tag t ∷ ns) =
      let rest = seek a (tag t ∷ before) ns in if t.at == a then some (before, t, ns) else rest

  -- The backward loop of `erase`: the data in front of a tag go, and are counted.
  unfoldable pub strip : List (Node T A) → List (Node T A) × ℕ
  strip [] = ([], 0)
  strip (voice d ∷ before) = let (kept, c) = strip before in (kept, add32 c 1)
  strip (tag t ∷ before) = (tag t ∷ before, 0)

  -- The loop of `clear`, with the data counted so far.
  unfoldable pub clear_from : ℕ → List (Node T A) → List (Node T A)
  clear_from c [] = []
  clear_from c (voice d ∷ ns) = clear_from (add32 c 1) ns
  clear_from c (tag t ∷ ns) =
      tag (record t { kind = deleted; content = none; data_count = sub32 t.data_count c })
      ∷ clear_from c ns

  unfoldable pub front_data : List (Node T A) → Option (Option T × List (Node T A))
  front_data [] = none
  front_data (voice d ∷ ns) = some (d, ns)
  front_data (tag t ∷ ns) = none

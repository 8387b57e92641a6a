-- ===== src/Stream.antt =====
-- The class template `StreamQueue<T, A>` of src/common/pending_queue.h.
--
-- The queue interleaves the data of several streams, each stream's data in front of its tag.
-- `queue_` is a list of nodes; `tag_queue_` and `item_tags_` hold list iterators, which only ever
-- point at tags, so a tag carries its node's address `at` and a data node needs none. `next` is
-- the address that the next list insertion takes. `none` is a fault: the dereference of an
-- iterator that points at no node.
pub mod Nodes
pub mod Spec
pub mod Layout
pub mod Seek
pub mod Rep
pub mod Keep
pub mod Shrink
pub mod Refine
pub mod Arg
pub mod Erase
pub mod Pop
pub mod History
pub mod Total
pub mod Protocol
unfoldable pub use Nodes.*
use rokid_openvoice_sdk.Base.{
  ℕ, suc, ◌%◌, Bool, true, false, not, ◌&&◌, Option, none, some, List, [], ◌∷◌, ◌++◌, ◌==◌,
  if◌then◌else◌, ◌>>=◌, reverse_append, add32, sub32, length, word, assert,
}

module _ {ℓ κ} {T : Type ℓ} {A : Type κ} where
  unfoldable pub empty : Queue T A
  empty = record { queue = []; tag_queue = []; item_tags = []; next = 0 }

  unfoldable pub new_tag : ℕ → ℕ → Tag T A
  new_tag at id = record {
    at = at;
    id = id;
    kind = uncompleted;
    polling = false;
    err = 0;
    content = none;
    arg = none;
    data_count = 0;
  }

  unfoldable pub start : ℕ → Queue T A → Queue T A × Bool
  unfolding find new_tag
  start id q = elim (find id q.item_tags) [
    | some a ↦ (q, false)
    | none ↦ (
      record {
        queue = q.queue ++ tag (new_tag q.next id) ∷ [];
        tag_queue = q.tag_queue ++ q.next ∷ [];
        item_tags = (id, q.next) ∷ q.item_tags;
        next = suc q.next;
      },
      true,
    )
  ]

  unfoldable pub more_data : Tag T A → Tag T A
  more_data t = record t { data_count = add32 t.data_count 1 }

  unfoldable pub stream : ℕ → Option T → Queue T A → Option (Queue T A × Bool)
  unfolding more_data
  stream id d q = elim (find id q.item_tags) [
    | none ↦ some (q, false)
    | some a ↦ deref a q.queue >>= λ t.
        if is_uncompleted t.kind
        then some (record q { queue = assign a more_data (insert_before a d q.queue) }, true)
        else some (q, false)
  ]

  unfoldable pub complete : Option T → Tag T A → Tag T A
  complete none t = record t { kind = completed }
  complete (some d) t = record t { kind = completed; content = some d }

  unfoldable pub end : ℕ → Option T → Queue T A → Option (Queue T A × Bool)
  end id d q = elim (find id q.item_tags) [
    | none ↦ some (q, false)
    | some a ↦
        deref a q.queue >>= λ t. some (record q { queue = assign a (complete d) q.queue }, true)
  ]

  unfoldable pub set_arg : ℕ → Option A → Queue T A → Option (Queue T A)
  set_arg id arg q = elim (find id q.item_tags) [
    | none ↦ some q
    | some a ↦ deref a q.queue >>= λ t.
        some (record q { queue = assign a (λ u. record u { arg = arg }) q.queue })
  ]

  unfoldable pub get_arg : ℕ → Queue T A → Option (Option A)
  get_arg id q = elim (find id q.item_tags) [
    | none ↦ some none
    | some a ↦ deref a q.queue >>= λ t. some t.arg
  ]

  unfoldable pub size : Queue T A → ℕ
  size q = length q.item_tags % word

  -- What `erase` writes into the tag; `err` is a field of 16 bits.
  unfoldable pub mark_erased : ℕ → Tag T A → Tag T A
  mark_erased err t =
      if err == 0
      then record t { content = none; kind = deleted }
      else record t { content = none; kind = error; err = err % 65536 }

  unfoldable pub less_data : ℕ → Tag T A → Tag T A
  less_data c t = record t { data_count = sub32 t.data_count c }

  unfoldable pub erase : ℕ → ℕ → Queue T A → Option (Queue T A × Bool)
  unfolding mark_erased less_data seek strip
  erase id err q = elim (find id q.item_tags) [
    | none ↦ some (q, false)
    | some a ↦ seek a [] q.queue >>= λ (before, t, after). assert (id == t.id) >>= λ _.
        let (kept, c) = strip before in
        let rest = tag (less_data c (mark_erased err t)) ∷ after in
        some (record q { queue = reverse_append kept rest }, true)
  ]

  -- The ids of the tags of `tag_queue_.front()` and `tag_queue_.back()`: 0 on an empty queue.
  unfoldable pub id_range : List ℕ → List (Node T A) → Option (ℕ × ℕ)
  unfolding last_of
  id_range [] ns = some (0, 0)
  id_range (a ∷ rest) ns = deref a ns >>= λ t. deref (last_of a rest) ns >>= λ u. some (t.id, u.id)

  unfoldable pub clear : Queue T A → Option (Queue T A × (ℕ × ℕ))
  clear q =
      id_range q.tag_queue q.queue >>= λ r. some (record q { queue = clear_from 0 q.queue }, r)

  unfoldable pub close : Queue T A → Queue T A
  close q = record q { queue = []; item_tags = []; tag_queue = [] }

  unfoldable pub available : Queue T A → Option Bool
  available q = elim q.tag_queue [
    | [] ↦ some false
    | a ∷ rest ↦ deref a q.queue >>= λ t.
        some (if is_uncompleted t.kind && t.polling then not (at_begin a q.queue) else true)
  ]

  -- The front tag leaves the three containers.
  unfoldable pub retire : Tag T A → Queue T A → Queue T A
  unfolding forget drop_first pop_front
  retire t q = record q {
    queue = pop_front q.queue;
    tag_queue = drop_first q.tag_queue;
    item_tags = forget t.id q.item_tags;
  }

  unfoldable pub pop_live : ℕ → Tag T A → Queue T A → Out T → Option (Queue T A × (Out T × PopType))
  unfolding retire or_keep less_data at_begin front_data
  pop_live a t q out =
      if not t.polling
      then some (
        record q { queue = assign a (λ u. record u { polling = true }) q.queue },
        (record out { id = t.id }, pop_start),
      )
      else if at_begin a q.queue
      then (if is_uncompleted t.kind
          then some (q, (out, pop_empty))
          else some
              (retire t q, (record out { id = t.id; res = or_keep t.content out.res }, pop_end)))
      else (front_data (assign a (less_data 1) q.queue) >>= λ (d, ns).
          some (record q { queue = ns }, (record out { id = t.id; res = d }, pop_data)))

  unfoldable pub pop_tag :
      Kind → ℕ → Tag T A → Queue T A → Out T → Option (Queue T A × (Out T × PopType))
  unfolding retire pop_live
  pop_tag uncompleted a t q out = pop_live a t q out
  pop_tag completed a t q out = pop_live a t q out
  pop_tag deleted a t q out = some (retire t q, (record out { id = t.id }, pop_removed))
  pop_tag error a t q out = some (retire t q, (record out { id = t.id; err = t.err }, pop_error))

  unfoldable pub pop : Queue T A → Out T → Option (Queue T A × (Out T × PopType))
  unfolding pop_tag
  pop q out = elim q.tag_queue [
    | [] ↦ some (q, (out, pop_empty))
    | a ∷ rest ↦ deref a q.queue >>= λ t. pop_tag t.kind a t q out
  ]

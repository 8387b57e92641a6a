-- ===== src/Pending.antt =====
-- The class template `PendingQueue` of src/common/pending_queue.h. Each function is a call under the
-- mutex; `poll` is cut at its wait, which `poll_waits` tells of and after which `poll_take` goes on.
pub mod Order
use rokid_openvoice_sdk.Base.{
  ℕ, suc, Bool, true, false, not, ◌&&◌, Option, none, some, List, [], ◌∷◌, ◌++◌, map, ◌==◌,
  if◌then◌else◌, ◌>>=◌, ◌>>◌, assert, is_empty, length,
}

-- `QueueItem`.
pub record QueueItem {ℓ} (T : Type ℓ) : Type ℓ where
  pub id : ℕ
  pub deleted : Bool
  pub content : T

-- `signalled` counts the calls of `pthread_cond_signal`.
pub record PendingQueue {ℓ} (T : Type ℓ) : Type ℓ where
  pub queue : List (QueueItem T)
  pub closed : Bool
  pub signalled : ℕ

module _ {ℓ} {T : Type ℓ} where
  unfoldable pub empty : PendingQueue T
  empty = record { queue = []; closed = false; signalled = 0 }

  unfoldable pub add : ℕ → T → PendingQueue T → PendingQueue T × Bool
  add id x q = if q.closed then (q, false) else (
    record q {
      queue = q.queue ++ record { id = id; deleted = false; content = x } ∷ [];
      signalled = suc q.signalled;
    },
    true,
  )

  unfoldable pub mark : QueueItem T → QueueItem T
  mark i = record i { deleted = true }

  -- The loop of `erase`, up to its `break`.
  unfoldable pub mark_first : ℕ → List (QueueItem T) → List (QueueItem T) × Bool
  unfolding mark
  mark_first id [] = ([], false)
  mark_first id (i ∷ is) =
      let rest = mark_first id is in
      if i.id == id then (mark i ∷ is, true) else (i ∷ rest.0, rest.1)

  unfoldable pub erase : ℕ → PendingQueue T → PendingQueue T × Bool
  unfolding mark_first
  erase id q = let marked = mark_first id q.queue in (record q { queue = marked.0 }, marked.1)

  unfoldable pub last_id : ℕ → List (QueueItem T) → ℕ
  last_id id [] = id
  last_id id (i ∷ is) = last_id i.id is

  unfoldable pub id_range : List (QueueItem T) → ℕ × ℕ
  unfolding last_id
  id_range [] = (0, 0)
  id_range (i ∷ is) = (i.id, last_id i.id is)

  unfoldable pub clear : PendingQueue T → PendingQueue T × (ℕ × ℕ)
  unfolding mark id_range
  clear q = (record q { queue = map mark q.queue }, id_range q.queue)

  unfoldable pub close : PendingQueue T → PendingQueue T
  close q = record q { queue = []; closed = true; signalled = suc q.signalled }

  unfoldable pub reset : PendingQueue T → PendingQueue T
  reset q = record q { closed = false }

  unfoldable pub size : PendingQueue T → ℕ
  size q = length q.queue

  -- `!closed_ && queue_.empty()`.
  unfoldable pub poll_waits : PendingQueue T → Bool
  poll_waits q = not q.closed && is_empty q.queue

  unfoldable pub take_first :
      List (QueueItem T) → PendingQueue T → Option (PendingQueue T × Option (QueueItem T))
  take_first [] q = assert q.closed >> some (q, none)
  take_first (i ∷ is) q = some (record q { queue = is }, some i)

  -- `poll` after its wait; `none` is the failed assertion.
  unfoldable pub poll_take : PendingQueue T → Option (PendingQueue T × Option (QueueItem T))
  unfolding take_first
  poll_take q = take_first q.queue q

-- ===== src/Pending/Order.antt =====
-- In which order `PendingQueue` of src/common/pending_queue.h gives its items, and when the assertion
-- of `poll` holds.
use rokid_openvoice_sdk.Base.{
  ℕ, zero, suc, ◌≡◌, ◌↔◌, refl, Bool, true, false, not, ◌&&◌, Option, none, some, List, [], ◌∷◌,
  ◌>>=◌, is_empty,
}
use rokid_openvoice_sdk.Pending.{QueueItem, PendingQueue, add, poll_waits, take_first, poll_take}

module _ {T : Type 0} where
  abbrev pub item : ℕ × T → QueueItem T
  item (id, x) = record { id = id; deleted = false; content = x }

  abbrev pub adds : List (ℕ × T) → PendingQueue T → PendingQueue T
  adds [] q = q
  adds (x ∷ xs) q = adds xs (add x.0 x.1 q).0

  -- The items of so many calls of `poll` that do not wait.
  abbrev pub polls : ℕ → PendingQueue T → Option (List (QueueItem T))
  polls zero q = some []
  polls (suc n) q =
      poll_take q >>= λ taken. taken.1 >>= λ i. polls n taken.0 >>= λ rest. some (i ∷ rest)

  -- After its one wait `poll` does not look again whether it has to wait: its assertion fails
  -- exactly when it would have to, as after a wake-up without a cause, or when another caller has
  -- taken the item.
  pub poll_take-none_iff : (q : PendingQueue T) → (poll_take q ≡ none) ↔ (poll_waits q ≡ true)
  unfolding poll_take poll_waits
  poll_take-none_iff q = by_queue q.queue q.closed refl
    where
      by_queue :
          (is : List (QueueItem T)) (b : Bool)
          → q.closed ≡ b
          → (take_first is q ≡ none) ↔ ((not q.closed && is_empty is) ≡ true)
      by_queue [] true c = unfold take_first in (simp c ((λ h. cc), λ h. cc))
      by_queue [] false c = unfold take_first in (simp c ((λ h. refl), λ h. refl))
      by_queue (i ∷ is) true c = unfold take_first in (simp c ((λ h. cc), λ h. cc))
      by_queue (i ∷ is) false c = unfold take_first in (simp c ((λ h. cc), λ h. cc))

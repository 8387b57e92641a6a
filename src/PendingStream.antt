-- ===== src/PendingStream.antt =====
-- The class template `PendingStreamQueue` of src/common/pending_queue.h, on the `StreamQueue` that it
-- is derived from. Each function is a call under the mutex; `poll` is cut at its wait: `poll` is the
-- part before the first wait and `poll_again` that after a wait. `none` is a fault of the base.
pub mod Calls
pub mod Signals
use rokid_openvoice_sdk.Base.{
  ℕ, suc, Bool, true, false, Option, none, some, List, [], ◌∷◌, if◌then◌else◌, ◌>>=◌, is_positive,
}
use rokid_openvoice_sdk.Stream
use rokid_openvoice_sdk.Stream.{Queue, Out, PopType, pop_empty}

-- `signalled` counts the calls of `pthread_cond_signal`.
pub record PendingStreamQueue {ℓ κ} (T : Type ℓ) (A : Type κ) : Type (ℓ ⊔ κ) where
  pub base : Queue T A
  pub closed : Bool
  pub signalled : ℕ

-- What `poll` comes to: it waits, it returns false, or it returns true with what was popped.
pub data Polled {ℓ} (T : Type ℓ) : Type ℓ where
  waits refused : Polled T
  taken : Out T → PopType → Polled T

-- What a call returns.
pub data Reply {ℓ} (T : Type ℓ) : Type ℓ where
  done : Reply T
  flag : Bool → Reply T
  ids : ℕ → ℕ → Reply T
  polled : Polled T → Reply T

-- A call, with its arguments; `poll` has the values that the reference parameters hold before.
pub data Call {ℓ} (T : Type ℓ) : Type ℓ where
  starts ends : ℕ → Call T
  streams : ℕ → Option T → Call T
  erases : ℕ → ℕ → Call T
  clears closes resets : Call T
  polls polls_again : Out T → Call T

-- What `poll` makes of what `pop` says.
unfoldable pub popped {ℓ} : {T : Type ℓ} → Out T → PopType → Polled T
popped out pop_empty = waits
popped out tp = taken out tp

module _ {ℓ κ} {T : Type ℓ} {A : Type κ} where
  unfoldable pub empty : PendingStreamQueue T A
  empty = record { base = Stream.empty; closed = false; signalled = 0 }

  -- The base after a call of it, with a signal when the call says so.
  unfoldable pub signal_if : Bool → Queue T A → PendingStreamQueue T A → PendingStreamQueue T A
  signal_if b base q = record q {
    base = base;
    signalled = if b then suc q.signalled else q.signalled;
  }

  unfoldable pub start : ℕ → PendingStreamQueue T A → PendingStreamQueue T A × Bool
  unfolding signal_if
  start id q =
      let (base, started) = Stream.start id q.base in
      if q.closed then (q, false) else (signal_if started base q, true)

  unfoldable pub stream : ℕ → Option T → PendingStreamQueue T A → Option (PendingStreamQueue T A)
  unfolding signal_if
  stream id d q =
      if q.closed
      then some q
      else (Stream.stream id d q.base >>= λ (base, b). some (signal_if b base q))

  unfoldable pub end : ℕ → PendingStreamQueue T A → Option (PendingStreamQueue T A)
  unfolding signal_if
  end id q =
      if q.closed
      then some q
      else (Stream.end id none q.base >>= λ (base, b). some (signal_if b base q))

  unfoldable pub erase : ℕ → ℕ → PendingStreamQueue T A → Option (PendingStreamQueue T A × Bool)
  unfolding signal_if
  erase id err q =
      if q.closed
      then some (q, false)
      else (Stream.erase id err q.base >>= λ (base, b). some (signal_if b base q, b))

  unfoldable pub clear : PendingStreamQueue T A → Option (PendingStreamQueue T A × (ℕ × ℕ))
  unfolding signal_if
  clear q = Stream.clear q.base >>= λ (base, (min, max)).
      some (signal_if (is_positive min) base q, (min, max))

  unfoldable pub close : PendingStreamQueue T A → PendingStreamQueue T A
  close q = record { base = Stream.close q.base; closed = true; signalled = suc q.signalled }

  unfoldable pub reset : PendingStreamQueue T A → PendingStreamQueue T A
  reset q = record q { closed = false }

  unfoldable pub size : PendingStreamQueue T A → ℕ
  size q = Stream.size q.base

  unfoldable pub poll : Out T → PendingStreamQueue T A → Option (PendingStreamQueue T A × Polled T)
  unfolding popped
  poll out q = Stream.pop q.base out >>= λ (base, (out', tp)).
      some (record q { base = base }, popped out' tp)

  unfoldable pub poll_again :
      Out T → PendingStreamQueue T A → Option (PendingStreamQueue T A × Polled T)
  unfolding poll
  poll_again out q = if q.closed then some (q, refused) else poll out q

  unfoldable pub call : Call T → PendingStreamQueue T A → Option (PendingStreamQueue T A × Reply T)
  call (starts id) q = let (q', b) = start id q in some (q', flag b)
  call (streams id d) q = stream id d q >>= λ q'. some (q', done)
  call (ends id) q = end id q >>= λ q'. some (q', done)
  call (erases id err) q = erase id err q >>= λ (q', b). some (q', flag b)
  call clears q = clear q >>= λ (q', (min, max)). some (q', ids min max)
  call closes q = some (close q, done)
  call resets q = some (reset q, done)
  call (polls out) q = poll out q >>= λ (q', p). some (q', polled p)
  call (polls_again out) q = poll_again out q >>= λ (q', p). some (q', polled p)

  unfoldable pub calls :
      List (Call T) → PendingStreamQueue T A → Option (PendingStreamQueue T A × List (Reply T))
  unfolding call
  calls [] q = some (q, [])
  calls (c ∷ cs) q = call c q >>= λ (q', r). calls cs q' >>= λ (q'', rs). some (q'', r ∷ rs)

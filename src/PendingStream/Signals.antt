-- ===== src/PendingStream/Signals.antt =====
-- The signals of `PendingStreamQueue` (src/common/pending_queue.h): what a caller of `poll` that waits is
-- woken for.
use rokid_openvoice_sdk.Base.{
  ℕ, ◌≡◌, refl, ap, Bool, true, false, Option, none, some, if◌then◌else◌, ◌>>=◌, Bool-cases,
  Option-cases, inl, inr, ◌==◌, arith, assert, [],
}
use rokid_openvoice_sdk.PendingStream.{
  PendingStreamQueue, waits, popped, signal_if, start, stream, end, erase, close, poll,
}
use rokid_openvoice_sdk.Stream
use rokid_openvoice_sdk.Stream.{
  Queue, Out, Tag, find, deref, is_uncompleted, assign, insert_before, more_data, complete, seek,
}

module _ {ℓ κ} {T : Type ℓ} {A : Type κ} where
  -- A call of the base that says false leaves it as it was.
  abbrev Tells : Queue T A → Option (Queue T A × Bool) → Type (ℓ ⊔ κ)
  Tells q none = Unit
  Tells q (some (q', b)) = b ≡ false → q' ≡ q

  Tells-if :
      (q q' : Queue T A) (b : Bool) → Tells q (if b then some (q', true) else some (q, false))
  Tells-if q q' true = λ e. absurd (cc)
  Tells-if q q' false = λ e. refl

  Tells-bind {ι} :
      {B : Type ι} (q : Queue T A) (m : Option B) (f : B → Option (Queue T A × Bool))
      → ((x : B) → Tells q (f x))
      → Tells q (m >>= f)
  Tells-bind q none f k = tt
  Tells-bind q (some x) f k = k x

  start-Tells : (id : ℕ) (q : Queue T A) → Tells q (some (Stream.start id q))
  unfolding Stream.start
  start-Tells id q = elim (Option-cases (find id q.item_tags)) [
    | inl n ↦ simp (n, Stream.start) (λ e. absurd (cc))
    | inr (a, n) ↦ simp (n, Stream.start) (λ e. refl)
  ]

  stream-Tells : (id : ℕ) (d : Option T) (q : Queue T A) → Tells q (Stream.stream id d q)
  unfolding Stream.stream
  stream-Tells id d q = elim (Option-cases (find id q.item_tags)) [
    | inl n ↦ simp (n, Stream.stream) (λ e. refl)
    | inr (a, n) ↦
        simp (n, Stream.stream)
          (Tells-bind q (deref a q.queue) _ (λ t. Tells-if q _ (is_uncompleted t.kind)))
  ]

  end-Tells : (id : ℕ) (d : Option T) (q : Queue T A) → Tells q (Stream.end id d q)
  unfolding Stream.end
  end-Tells id d q = elim (Option-cases (find id q.item_tags)) [
    | inl n ↦ simp (n, Stream.end) (λ e. refl)
    | inr (a, n) ↦ simp (n, Stream.end) (Tells-bind q (deref a q.queue) _ (λ t e. absurd (cc)))
  ]

  erase-Tells : (id err : ℕ) (q : Queue T A) → Tells q (Stream.erase id err q)
  unfolding Stream.erase
  erase-Tells id err q = elim (Option-cases (find id q.item_tags)) [
    | inl n ↦ simp (n, Stream.erase) (λ e. refl)
    | inr (a, n) ↦
        simp (n, Stream.erase)
          (Tells-bind q (seek a [] q.queue) _
            (λ x. Tells-bind q (assert (id == x.1.id)) _ (λ u e. absurd (cc))))
  ]

  -- A call that returns without a signal has changed nothing.
  abbrev pub Quiet : PendingStreamQueue T A → Option (PendingStreamQueue T A) → Type (ℓ ⊔ κ)
  Quiet q none = Unit
  Quiet q (some q') = q'.signalled ≡ q.signalled → q' ≡ q

  signal_if-Quiet :
      (q : PendingStreamQueue T A) (base : Queue T A) (b : Bool)
      → (b ≡ false → base ≡ q.base)
      → Quiet q (some (signal_if b base q))
  unfolding signal_if
  signal_if-Quiet q base true k e = absurd (omega (arith, e))
  signal_if-Quiet q base false k e = ap (λ x. record q { base = x }) (k refl)

  asked-Quiet :
      (q : PendingStreamQueue T A) (m : Option (Queue T A × Bool))
      → Tells q.base m
      → Quiet q (if q.closed then some q else (m >>= λ (base, b). some (signal_if b base q)))
  asked-Quiet q m k = elim (Bool-cases q.closed) [
    | inl e ↦ simp e (λ f. refl)
    | inr e ↦ simp e (open_asked m k)
  ]
    where
      open_asked :
          (m : Option (Queue T A × Bool))
          → Tells q.base m
          → Quiet q (m >>= λ (base, b). some (signal_if b base q))
      open_asked none k = tt
      open_asked (some (base, b)) k = signal_if-Quiet q base b k

  erased-Quiet :
      (q : PendingStreamQueue T A) (m : Option (Queue T A × Bool))
      → Tells q.base m
      → Quiet q (
          let r : Option (PendingStreamQueue T A × Bool) =
            if q.closed
            then some (q, false)
            else (m >>= λ (base, b). some (signal_if b base q, b)) in
          r >>= λ (q', b). some q')
  erased-Quiet q m k = elim (Bool-cases q.closed) [
    | inl e ↦ simp e (λ f. refl)
    | inr e ↦ simp e (open_erased m k)
  ]
    where
      open_erased :
          (m : Option (Queue T A × Bool))
          → Tells q.base m
          → let r : Option (PendingStreamQueue T A × Bool) =
              m >>= λ (base, b). some (signal_if b base q, b) in
            Quiet q (r >>= λ (q', b). some q')
      open_erased none k = tt
      open_erased (some (base, b)) k = signal_if-Quiet q base b k

  started-Quiet :
      (q : PendingStreamQueue T A) (x : Queue T A × Bool)
      → Tells q.base (some x)
      → let r : PendingStreamQueue T A × Bool =
          if q.closed then (q, false) else (signal_if x.1 x.0 q, true) in
        Quiet q (some r.0)
  started-Quiet q x k = elim (Bool-cases q.closed) [
    | inl e ↦ simp e (λ f. refl)
    | inr e ↦ simp e (signal_if-Quiet q x.0 x.1 k)
  ]

  -- A call of `start`, `stream`, `end` or `erase` that gives no signal has left the queue as it was:
  -- whatever a caller that waits in `poll` could be given comes with a signal.
  pub feeds-Quiet :
      (id err : ℕ) (d : Option T) (q : PendingStreamQueue T A)
      → Quiet q (some (start id q).0)
        × Quiet q (stream id d q)
        × Quiet q (end id q)
        × Quiet q (erase id err q >>= λ (q', b). some q')
  unfolding start stream end erase
  feeds-Quiet id err d q = (
    started-Quiet q (Stream.start id q.base) (start-Tells id q.base),
    asked-Quiet q (Stream.stream id d q.base) (stream-Tells id d q.base),
    asked-Quiet q (Stream.end id none q.base) (end-Tells id none q.base),
    erased-Quiet q (Stream.erase id err q.base) (erase-Tells id err q.base),
  )

  -- `poll` asks whether the queue is closed only after a wait: called on a closed queue, it waits.
  pub poll-close_waits :
      (out : Out T) (q : PendingStreamQueue T A) → poll out (close q) ≡ some (close q, waits)
  unfolding poll close popped Stream.close Stream.pop
  poll-close_waits out q = refl

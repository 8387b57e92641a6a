-- ===== src/PendingStream/Calls.antt =====
-- The calls of `PendingStreamQueue` (src/common/pending_queue.h) against their specification: the
-- streams of the base, and whether the queue is closed.
use rokid_openvoice_sdk.Base.{
  ℕ, ◌≡◌, refl, subst, Bool, true, false, Option, none, some, List, [], ◌∷◌, ap, map, is_positive,
  ◌∙◌,
}
use rokid_openvoice_sdk.PendingStream.{
  PendingStreamQueue, refused, Reply, done, flag, ids, polled, Call, starts, ends, streams, erases,
  clears, closes, resets, polls, polls_again, popped, empty, signal_if, start, stream, end, erase,
  clear, close, reset, poll, poll_again, call, calls,
}
use rokid_openvoice_sdk.Stream
use rokid_openvoice_sdk.Stream.{Queue, Out}
use rokid_openvoice_sdk.Stream.History.{closed-Rep}
use rokid_openvoice_sdk.Stream.Layout.{Cell, view}
use rokid_openvoice_sdk.Stream.Rep.{Rep}
use rokid_openvoice_sdk.Stream.Erase.{erase-Simulates}
use rokid_openvoice_sdk.Stream.Pop.{pop-Simulates}
use rokid_openvoice_sdk.Stream.Refine.{
  Refines, Simulates, empty-Refines, start-Simulates, stream-Simulates, end-Simulates,
  clear-Simulates,
}
use rokid_openvoice_sdk.Stream.Spec
use rokid_openvoice_sdk.Stream.Spec.{Stream}

-- The streams, and whether the queue is closed.
abbrev pub State {ℓ κ} : Type ℓ → Type κ → Type (ℓ ⊔ κ)
State T A = List (Stream T A) × Bool

module _ {ℓ κ} {T : Type ℓ} {A : Type κ} where
  -- A closed queue takes nothing in; what it does otherwise is done to its streams.
  unfoldable pub spec_call : Call T → State T A → State T A × Reply T
  spec_call (starts id) (ss, true) = ((ss, true), flag false)
  spec_call (starts id) (ss, false) = (((Spec.start id ss).0, false), flag true)
  spec_call (streams id d) (ss, true) = ((ss, true), done)
  spec_call (streams id d) (ss, false) = (((Spec.stream id d ss).0, false), done)
  spec_call (ends id) (ss, true) = ((ss, true), done)
  spec_call (ends id) (ss, false) = (((Spec.end id none ss).0, false), done)
  spec_call (erases id err) (ss, true) = ((ss, true), flag false)
  spec_call (erases id err) (ss, false) =
      let (ss', b) = Spec.erase id err ss in ((ss', false), flag b)
  spec_call clears (ss, c) = let (ss', r) = Spec.clear ss in ((ss', c), ids r.0 r.1)
  spec_call closes (ss, c) = (([], true), done)
  spec_call resets (ss, c) = ((ss, false), done)
  spec_call (polls out) (ss, c) =
      let (ss', (out', tp)) = Spec.pop ss out in ((ss', c), polled (popped out' tp))
  spec_call (polls_again out) (ss, true) = ((ss, true), polled refused)
  spec_call (polls_again out) (ss, false) =
      let (ss', (out', tp)) = Spec.pop ss out in ((ss', false), polled (popped out' tp))

  unfoldable pub spec_calls : List (Call T) → State T A → State T A × List (Reply T)
  unfolding spec_call
  spec_calls [] s = (s, [])
  spec_calls (c ∷ cs) s =
      let (s', r) = spec_call c s in let (s'', rs) = spec_calls cs s' in (s'', r ∷ rs)

  -- The queue stands for these streams, closed or not.
  abbrev pub Shows : PendingStreamQueue T A → State T A → Type (ℓ ⊔ κ)
  Shows q (ss, c) = Refines q.base ss × (q.closed ≡ c)

  -- A call returns, with this reply, and the queue stands for this state.
  abbrev pub Meets {ι} :
      {R : Type ι} → Option (PendingStreamQueue T A × R) → State T A × R → Type (ℓ ⊔ κ ⊔ ι)
  Meets m (s, r) = (q : PendingStreamQueue T A) × (m ≡ some (q, r)) × Shows q s

  -- What is known of the base, of its streams.
  at_streams {ι} :
      {R : Type ι} (q : Queue T A) (ss : List (Stream T A)) (m : Option (Queue T A × R))
      (f : List (Stream T A) → List (Stream T A) × R)
      → ((cs : List (Cell T A)) → Rep q cs → Simulates m (f (map view cs)))
      → Refines q ss
      → Simulates m (f ss)
  at_streams q ss m f k (cs, r, v) = subst (λ x. Simulates m (f x)) v (k cs r)

  started :
      (id : ℕ) (q : PendingStreamQueue T A) (ss : List (Stream T A))
      → Refines q.base ss
      → q.closed ≡ false
      → Meets (call (starts id) q) (((Spec.start id ss).0, false), flag true)
  unfolding call start signal_if
  started id q ss p e =
      let (b, e', p') =
        at_streams q.base ss (some (Stream.start id q.base)) (Spec.start id)
          (start-Simulates id q.base) p in
      let same : Stream.start id q.base ≡ (b, (Spec.start id ss).1) =
        ap (λ o. elim o [ none ↦ (b, (Spec.start id ss).1) | some x ↦ x ]) e' in
      (signal_if (Spec.start id ss).1 b q, rw (e, same) refl, (p', e))

  poll-Meets :
      (out : Out T) (q : PendingStreamQueue T A) (ss : List (Stream T A))
      → Refines q.base ss
      → let x = Spec.pop ss out in Meets (poll out q) ((x.0, q.closed), popped x.1.0 x.1.1)
  unfolding poll
  poll-Meets out q ss p =
      let (b, e', p') =
        at_streams q.base ss (Stream.pop q.base out) (λ x. Spec.pop x out)
          (λ cs r. pop-Simulates q.base cs out r) p in
      (record q { base = b }, rw e' refl, (p', refl))

  poll_again-closed :
      (out : Out T) (q : PendingStreamQueue T A)
      → q.closed ≡ true
      → poll_again out q ≡ some (q, refused)
  unfolding poll_again
  poll_again-closed out q e = rw e refl

  poll_again-poll :
      (out : Out T) (q : PendingStreamQueue T A) → q.closed ≡ false → poll_again out q ≡ poll out q
  unfolding poll_again
  poll_again-poll out q e = simp e

  -- A call, on a queue that shows a state, returns without a fault, with the specification's reply,
  -- and leaves a queue that shows the specification's state.
  call-Meets :
      (c : Call T) (q : PendingStreamQueue T A) (ss : List (Stream T A)) (b : Bool)
      → Refines q.base ss
      → q.closed ≡ b
      → Meets (call c q) (spec_call c (ss, b))
  unfolding call spec_call stream end erase clear close reset signal_if start
  call-Meets (starts id) q ss true p e = (q, rw e refl, (p, e))
  call-Meets (starts id) q ss false p e = started id q ss p e
  call-Meets (streams id d) q ss true p e = (q, rw e refl, (p, e))
  call-Meets (streams id d) q ss false p e =
      let (b, e', p') =
        at_streams q.base ss (Stream.stream id d q.base) (Spec.stream id d)
          (stream-Simulates id d q.base) p in
      (signal_if (Spec.stream id d ss).1 b q, rw (e, e') refl, (p', e))
  call-Meets (ends id) q ss true p e = (q, rw e refl, (p, e))
  call-Meets (ends id) q ss false p e =
      let (b, e', p') =
        at_streams q.base ss (Stream.end id none q.base) (Spec.end id none)
          (end-Simulates id none q.base) p in
      (signal_if (Spec.end id none ss).1 b q, rw (e, e') refl, (p', e))
  call-Meets (erases id err) q ss true p e = (q, rw e refl, (p, e))
  call-Meets (erases id err) q ss false p e =
      let (b, e', p') =
        at_streams q.base ss (Stream.erase id err q.base) (Spec.erase id err)
          (erase-Simulates id err q.base) p in
      (signal_if (Spec.erase id err ss).1 b q, rw (e, e') refl, (p', e))
  call-Meets clears q ss b p e =
      let (base, e', p') =
        at_streams q.base ss (Stream.clear q.base) Spec.clear (clear-Simulates q.base) p in
      (signal_if (is_positive (Spec.clear ss).1.0) base q, rw e' refl, (p', e))
  call-Meets closes q ss b p e = (close q, refl, (([], closed-Rep q.base, refl), refl))
  call-Meets resets q ss b p e = (reset q, refl, (p, refl))
  call-Meets (polls out) q ss b p e =
      let (q', e', (p', f)) = poll-Meets out q ss p in (q', rw e' refl, (p', f ∙ e))
  call-Meets (polls_again out) q ss true p e = (q, rw (poll_again-closed out q e) refl, (p, e))
  call-Meets (polls_again out) q ss false p e =
      let (q', e', (p', f)) = poll-Meets out q ss p in
      (q', rw (poll_again-poll out q e ∙ e') refl, (p', f ∙ e))

  calls-Shows :
      (cs : List (Call T)) (q : PendingStreamQueue T A) (s : State T A)
      → Shows q s
      → Meets (calls cs q) (spec_calls cs s)
  unfolding calls spec_calls
  calls-Shows [] q s p = (q, refl, p)
  calls-Shows (c ∷ cs) q (ss, b) (p, e) =
      let (q', e', p') = call-Meets c q ss b p e in
      let (q'', e'', p'') = calls-Shows cs q' (spec_call c (ss, b)).0 p' in
      (q'', rw e' (rw e''), p'')

  -- From a new queue, any sequence of calls, of clients that add and of one that polls and waits,
  -- meets no fault and replies as the specification does: an open queue's streams are those of the
  -- base, a closed one takes nothing in until it is reset, and closing loses what it held.
  pub calls-Meets : (cs : List (Call T)) → Meets (calls cs empty) (spec_calls cs ([], false))
  unfolding empty
  calls-Meets cs = calls-Shows cs empty ([], false) (empty-Refines, refl)

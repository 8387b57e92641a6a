-- ===== src/Stream/History.antt =====
-- Any sequence of calls to a `StreamQueue` (src/common/pending_queue.h), from the empty queue.
use Prim.Native.Nat.{zero-le}
use rokid_openvoice_sdk.Base.{ℕ, refl, subst, Bool, Option, some, List, [], ◌∷◌, map, ◌>>=◌}
use rokid_openvoice_sdk.Stream.{
  Queue, Out, PopType, start, stream, end, set_arg, erase, clear, close, pop, empty, find,
}
use rokid_openvoice_sdk.Stream.Spec
use rokid_openvoice_sdk.Stream.Spec.{Stream}
use rokid_openvoice_sdk.Stream.Layout.{Cell, view}
use rokid_openvoice_sdk.Stream.Rep.{Rep}
use rokid_openvoice_sdk.Stream.Refine.{
  Refines, Simulates, empty-Refines, start-Simulates, stream-Simulates, end-Simulates,
  clear-Simulates,
}
use rokid_openvoice_sdk.Stream.Arg.{set_arg-Refines}
use rokid_openvoice_sdk.Stream.Erase.{erase-Simulates}
use rokid_openvoice_sdk.Stream.Pop.{pop-Simulates}

-- A call, with its arguments; `pops` has the values that the reference parameters hold before.
pub data Call {ℓ κ} (T : Type ℓ) (A : Type κ) : Type (ℓ ⊔ κ) where
  starts : ℕ → Call T A
  streams : ℕ → Option T → Call T A
  ends : ℕ → Option T → Call T A
  sets_arg : ℕ → Option A → Call T A
  erases : ℕ → ℕ → Call T A
  clears : Call T A
  closes : Call T A
  pops : Out T → Call T A

pub data Reply {ℓ} (T : Type ℓ) : Type ℓ where
  done : Reply T
  flag : Bool → Reply T
  ids : ℕ × ℕ → Reply T
  popped : Out T × PopType → Reply T

-- The state with the result turned into a reply.
abbrev pub replied {ℓ ι μ} :
    {T : Type ℓ} {S : Type ι} {R : Type μ} → (R → Reply T) → Option (S × R) → Option (S × Reply T)
replied f m = m >>= λ (s, r). some (s, f r)

module _ {ℓ κ} {T : Type ℓ} {A : Type κ} where
  unfoldable pub call : Call T A → Queue T A → Option (Queue T A × Reply T)
  call (starts id) q = replied flag (some (start id q))
  call (streams id d) q = replied flag (stream id d q)
  call (ends id d) q = replied flag (end id d q)
  call (sets_arg id arg) q = set_arg id arg q >>= λ q'. some (q', done)
  call (erases id err) q = replied flag (erase id err q)
  call clears q = replied ids (clear q)
  call closes q = some (close q, done)
  call (pops out) q = replied popped (pop q out)

  abbrev answered {ι} :
      {R : Type ι} → (R → Reply T) → List (Stream T A) × R → List (Stream T A) × Reply T
  answered f s = (s.0, f s.1)

  unfoldable pub spec_call : Call T A → List (Stream T A) → List (Stream T A) × Reply T
  spec_call (starts id) ss = answered flag (Spec.start id ss)
  spec_call (streams id d) ss = answered flag (Spec.stream id d ss)
  spec_call (ends id d) ss = answered flag (Spec.end id d ss)
  spec_call (sets_arg id arg) ss = (Spec.set_arg id arg ss, done)
  spec_call (erases id err) ss = answered flag (Spec.erase id err ss)
  spec_call clears ss = answered ids (Spec.clear ss)
  spec_call closes ss = ([], done)
  spec_call (pops out) ss = answered popped (Spec.pop ss out)

  unfoldable pub calls : List (Call T A) → Queue T A → Option (Queue T A × List (Reply T))
  unfolding call
  calls [] q = some (q, [])
  calls (c ∷ cs) q = call c q >>= λ (q', r). calls cs q' >>= λ (q'', rs). some (q'', r ∷ rs)

  unfoldable pub spec_calls :
      List (Call T A) → List (Stream T A) → List (Stream T A) × List (Reply T)
  unfolding spec_call
  spec_calls [] ss = (ss, [])
  spec_calls (c ∷ cs) ss =
      let (ss', r) = spec_call c ss in let (ss'', rs) = spec_calls cs ss' in (ss'', r ∷ rs)

  replied-Simulates {ι} :
      {R : Type ι} (f : R → Reply T) (m : Option (Queue T A × R)) (s : List (Stream T A) × R)
      → Simulates m s
      → Simulates (replied f m) (answered f s)
  replied-Simulates f m s (q, e, p) = (q, rw e, p)

  pub closed-Rep : (q : Queue T A) → Rep (close q) []
  unfolding close find
  closed-Rep q = record {
    nodes = refl;
    tags = refl;
    ids = λ i. refl;
    rising = zero-le;
    distinct = tt;
    quiet = tt;
  }

  call-Rep :
      (c : Call T A) (q : Queue T A) (cs : List (Cell T A))
      → Rep q cs
      → Simulates (call c q) (spec_call c (map view cs))
  unfolding call spec_call
  call-Rep (starts id) q cs r = replied-Simulates flag _ _ (start-Simulates id q cs r)
  call-Rep (streams id d) q cs r = replied-Simulates flag _ _ (stream-Simulates id d q cs r)
  call-Rep (ends id d) q cs r = replied-Simulates flag _ _ (end-Simulates id d q cs r)
  call-Rep (sets_arg id arg) q cs r =
      let (q', e, p) = set_arg-Refines id arg q cs r in (q', rw e, p)
  call-Rep (erases id err) q cs r = replied-Simulates flag _ _ (erase-Simulates id err q cs r)
  call-Rep clears q cs r = replied-Simulates ids _ _ (clear-Simulates q cs r)
  call-Rep closes q cs r = (close q, refl, ([], closed-Rep q, refl))
  call-Rep (pops out) q cs r = replied-Simulates popped _ _ (pop-Simulates q cs out r)

  -- Every call, on containers that stand for some streams, returns without a fault, with the
  -- result of the specification, and leaves containers that stand for the specification's streams.
  pub call-Simulates :
      (c : Call T A) (q : Queue T A) (ss : List (Stream T A))
      → Refines q ss
      → Simulates (call c q) (spec_call c ss)
  call-Simulates c q ss (cs, r, v) =
      subst (λ x. Simulates (call c q) (spec_call c x)) v (call-Rep c q cs r)

  pub calls-Refines :
      (cs : List (Call T A)) (q : Queue T A) (ss : List (Stream T A))
      → Refines q ss
      → Simulates (calls cs q) (spec_calls cs ss)
  unfolding calls spec_calls
  calls-Refines [] q ss p = (q, refl, p)
  calls-Refines (c ∷ cs) q ss p =
      let (q', e, p') = call-Simulates c q ss p in
      let (q'', e', p'') = calls-Refines cs q' _ p' in (q'', rw e (rw e'), p'')

  -- From the empty queue, no sequence of calls dereferences an iterator that points nowhere or
  -- fails an assertion, and the replies are those of the specification.
  pub calls-Simulates : (cs : List (Call T A)) → Simulates (calls cs empty) (spec_calls cs [])
  calls-Simulates cs = calls-Refines cs empty [] empty-Refines

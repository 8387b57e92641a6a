-- ===== src/Stream/Total.antt =====
-- The calls of a `StreamQueue` (src/common/pending_queue.h) as its clients use them, on containers
-- that stand for some streams.
use rokid_openvoice_sdk.Base.{ℕ, ◌≡◌, ap, sym, subst, Option, none, some, List, []}
use rokid_openvoice_sdk.Stream.{
  Queue, Out, start, stream, end, set_arg, get_arg, erase, clear, close, pop,
}
use rokid_openvoice_sdk.Stream.Spec.{Stream}
use rokid_openvoice_sdk.Stream.Layout.{Cell}
use rokid_openvoice_sdk.Stream.Rep.{Rep}
use rokid_openvoice_sdk.Stream.Refine.{
  Simulates, start-Simulates, stream-Simulates, end-Simulates, clear-Simulates,
}
use rokid_openvoice_sdk.Stream.Arg.{set_arg-Refines, get_arg-Refines}
use rokid_openvoice_sdk.Stream.Erase.{erase-Simulates}
use rokid_openvoice_sdk.Stream.Pop.{pop-Simulates}
use rokid_openvoice_sdk.Stream.History.{closed-Rep}

module _ {ℓ κ} {T : Type ℓ} {A : Type κ} where
  -- The containers stand for some streams.
  abbrev pub Holds : Queue T A → Type (ℓ ⊔ κ)
  Holds q = (cs : List (Cell T A)) × Rep q cs

  abbrev pub Total {ι} : {R : Type ι} → Option (Queue T A × R) → Type (ℓ ⊔ κ ⊔ ι)
  Total {R = R} m = (q : Queue T A) × (r : R) × (m ≡ some (q, r)) × Holds q

  Total-by {ι} :
      {R : Type ι} (m : Option (Queue T A × R)) (s : List (Stream T A) × R)
      → Simulates m s
      → Total m
  Total-by m s (q, e, (cs, r, v)) = (q, s.1, e, (cs, r))

  pub start-Holds : (id : ℕ) (q : Queue T A) → Holds q → Holds (start id q).0
  start-Holds id q (cs, r) =
      let (q', e, (cs', r', v)) = start-Simulates id q cs r in
      subst Holds (sym (ap (λ o. elim o [ none ↦ q' | some x ↦ x.0 ]) e)) (cs', r')

  pub stream-Total : (id : ℕ) (d : Option T) (q : Queue T A) → Holds q → Total (stream id d q)
  stream-Total id d q (cs, r) = Total-by _ _ (stream-Simulates id d q cs r)

  pub end-Total : (id : ℕ) (d : Option T) (q : Queue T A) → Holds q → Total (end id d q)
  end-Total id d q (cs, r) = Total-by _ _ (end-Simulates id d q cs r)

  pub erase-Total : (id err : ℕ) (q : Queue T A) → Holds q → Total (erase id err q)
  erase-Total id err q (cs, r) = Total-by _ _ (erase-Simulates id err q cs r)

  pub clear-Total : (q : Queue T A) → Holds q → Total (clear q)
  clear-Total q (cs, r) = Total-by _ _ (clear-Simulates q cs r)

  pub pop-Total : (q : Queue T A) (out : Out T) → Holds q → Total (pop q out)
  pop-Total q out (cs, r) = Total-by _ _ (pop-Simulates q cs out r)

  pub close-Holds : (q : Queue T A) → Holds (close q)
  close-Holds q = ([], closed-Rep q)

  pub set_arg-Total :
      (id : ℕ) (arg : Option A) (q : Queue T A)
      → Holds q
      → (q' : Queue T A) × (set_arg id arg q ≡ some q') × Holds q'
  set_arg-Total id arg q (cs, r) =
      let (q', e, (cs', r', v)) = set_arg-Refines id arg q cs r in (q', e, (cs', r'))

  pub get_arg-Total :
      (id : ℕ) (q : Queue T A) → Holds q → (arg : Option A) × (get_arg id q ≡ some arg)
  get_arg-Total id q (cs, r) = (_, get_arg-Refines id q cs r)

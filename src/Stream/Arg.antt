-- ===== src/Stream/Arg.antt =====
-- `StreamQueue::set_arg` and `get_arg` (src/common/pending_queue.h) against their
-- specifications.
use rokid_openvoice_sdk.Base.{
  ℕ, ◌≡◌, refl, sym, ◌∙◌, subst, inl, inr, Option, none, some, List, [], ◌∷◌, map, arith, ◌==◌, All,
  Bool-cases, Option-cases,
}
use rokid_openvoice_sdk.Stream.{Queue, assign, set_arg, get_arg}
use rokid_openvoice_sdk.Stream.Spec
use rokid_openvoice_sdk.Stream.Spec.{Stream, lookup, update}
use rokid_openvoice_sdk.Stream.Layout.{Cell, view, cell_at, address_of, on_tag, assign-layout}
use rokid_openvoice_sdk.Stream.Rep.{Quiet, Rep, lookup-none}
use rokid_openvoice_sdk.Stream.Refine.{Refines, located, changed}

module _ {ℓ κ} {T : Type ℓ} {A : Type κ} where
  pub set_arg-Refines :
      (id : ℕ) (arg : Option A) (q : Queue T A) (cs : List (Cell T A))
      → Rep q cs
      → (q' : Queue T A) × (set_arg id arg q ≡ some q')
        × Refines q' (Spec.set_arg id arg (map view cs))
  unfolding set_arg Spec.set_arg Spec.with_arg lookup update
  set_arg-Refines id arg q cs r = elim (Option-cases (address_of id cs)) [
    | inl e ↦ (
      q,
      rw (r.ids id ∙ e, set_arg),
      (cs, r, sym (update-none id (Spec.with_arg arg) (map view cs) (lookup-none id cs e))),
    )
    | inr (a, e) ↦
        let (f, found, at) = located id a q cs r e in
        (
          _,
          rw (found, set_arg) (rw at),
          changed id a q cs f (on_tag (λ u. record u { arg = arg })) (Spec.with_arg arg)
              (assign a (λ u. record u { arg = arg }) q.queue) r (λ c. (refl, refl)) (λ c. refl)
              (kept_quiet a f.cell cs r.quiet f.by_at)
              (rw r.nodes (assign-layout a (λ u. record u { arg = arg }) cs)),
        )
  ]
    where
      update-none :
          (i : ℕ) (h : Stream T A → Stream T A) (ss : List (Stream T A))
          → lookup i ss ≡ none
          → update i h ss ≡ ss
      update-none i h [] e = refl
      update-none i h (s ∷ ss) e = ground (arith, update-none i h ss)

      kept_quiet :
          (a : ℕ) (c : Cell T A) (cs : List (Cell T A))
          → All Quiet cs
          → cell_at a cs ≡ some c
          → Quiet c
      kept_quiet a c [] q e = absurd (cc)
      kept_quiet a c (d ∷ cs) q e = elim (Bool-cases (d.tag_item.at == a)) [
        | inl here ↦ let same : d ≡ c = ground arith in subst Quiet same q.0
        | inr there ↦ kept_quiet a c cs q.1 (ground arith)
      ]

  pub get_arg-Refines :
      (id : ℕ) (q : Queue T A) (cs : List (Cell T A))
      → Rep q cs
      → get_arg id q ≡ some (Spec.arg_of (lookup id (map view cs)))
  unfolding get_arg Spec.arg_of
  get_arg-Refines id q cs r = elim (Option-cases (address_of id cs)) [
    | inl e ↦ rw (r.ids id ∙ e, get_arg) (rw (lookup-none id cs e))
    | inr (a, e) ↦
        let (f, found, at) = located id a q cs r e in rw (found, get_arg) (rw at (rw f.by_id))
  ]

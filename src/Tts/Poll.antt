-- ===== src/Tts/Poll.antt =====
-- `TtsImpl::poll` and the receiving thread of src/tts/tts_impl.cc.
use rokid_openvoice_sdk.Base.{
  ℕ, ◌≡◌, ◌⊎◌, inl, inr, refl, ap, sym, ◌∙◌, subst, true, false, none, some, List, ◌∷◌, ==-refl,
}
use rokid_openvoice_sdk.OpCtl
use rokid_openvoice_sdk.OpCtl.{Status, Operation, front_op}
use rokid_openvoice_sdk.Stream
use rokid_openvoice_sdk.Stream.{Out, pop_removed}
use rokid_openvoice_sdk.Stream.Spec
use rokid_openvoice_sdk.Stream.Spec.{Stream}
use rokid_openvoice_sdk.Stream.Refine.{Refines, Simulates}
use rokid_openvoice_sdk.Stream.Erase.{erase-Simulates}
use rokid_openvoice_sdk.Stream.Pop.{pop-Simulates}
use rokid_openvoice_sdk.Stream.Protocol.{lookup_self, update_self}
use rokid_openvoice_sdk.Tts.{Tts, TtsResultIn, cancelled_result, tts_success}
use rokid_openvoice_sdk.Tts.Polling.{result, settled, discard, poll_op, poll, remove_front}

abbrev pub Responses : Type 0
Responses = Stream.Queue TtsResultIn ℕ

abbrev pub nothing : Out TtsResultIn
nothing = record { id = 0; res = none; err = 0 }

-- The stream that is removed with the operation at the front of `operations_`: none of that id, or
-- the first one.
abbrev pub Front : ℕ → List (Stream TtsResultIn ℕ) → List (Stream TtsResultIn ℕ) → Type 0
Front id ss rest =
    ((Spec.lookup id ss ≡ none) × (rest ≡ ss))
    ⊎ ((s : Stream TtsResultIn ℕ) × (ss ≡ s ∷ rest) × (s.id ≡ id))

erase_at :
    (id err : ℕ) (q : Responses) (ss : List (Stream TtsResultIn ℕ))
    → Refines q ss
    → Simulates (Stream.erase id err q) (Spec.erase id err ss)
erase_at id err q ss (cs, r, v) =
    subst (λ x. Simulates (Stream.erase id err q) (Spec.erase id err x)) v
      (erase-Simulates id err q cs r)

pub pop_at :
    (q : Responses) (ss : List (Stream TtsResultIn ℕ)) (out : Out TtsResultIn)
    → Refines q ss
    → Simulates (Stream.pop q out) (Spec.pop ss out)
pop_at q ss out (cs, r, v) =
    subst (λ x. Simulates (Stream.pop q out) (Spec.pop x out)) v (pop-Simulates q cs out r)

erase_missing :
    (id : ℕ) (ss : List (Stream TtsResultIn ℕ))
    → Spec.lookup id ss ≡ none
    → Spec.erase id 0 ss ≡ (ss, false)
unfolding Spec.erase
erase_missing id ss e = rw (e, Spec.erase) refl

erase_front :
    (s : Stream TtsResultIn ℕ) (rest : List (Stream TtsResultIn ℕ))
    → Spec.erase s.id 0 (s ∷ rest) ≡ (Spec.kill 0 s ∷ rest, true)
unfolding Spec.erase
erase_front s rest =
    rw (lookup_self s rest, Spec.erase) (ap (λ x. (x, true)) (update_self (Spec.kill 0) s rest))

pop_killed :
    (t : Stream TtsResultIn ℕ) (rest : List (Stream TtsResultIn ℕ))
    → Spec.pop (Spec.kill 0 t ∷ rest) nothing ≡ (rest, (record nothing { id = t.id }, pop_removed))
unfolding Spec.pop Spec.kill
pop_killed t rest = refl

pub discard-Front :
    (id : ℕ) (s : Tts) (ss rest : List (Stream TtsResultIn ℕ))
    → Refines s.responses ss
    → Front id ss rest
    → (q : Responses) × (discard id s ≡ some (record s { responses = q })) × Refines q rest
unfolding discard
discard-Front id s ss rest p (inl (e, same)) =
    let (q, e', p') =
      subst (λ x. Simulates (Stream.erase id 0 s.responses) x) (erase_missing id ss e)
        (erase_at id 0 s.responses ss p) in
    (q, rw e' refl, subst (Refines q) (sym same) p')
discard-Front id s ss rest p (inr (t, same, named)) =
    let (q, e, p') =
      subst (λ x. Simulates (Stream.erase t.id 0 s.responses) x) (erase_front t rest)
        (erase_at t.id 0 s.responses (t ∷ rest) (subst (Refines s.responses) same p)) in
    let (q', e', p'') =
      subst (λ x. Simulates (Stream.pop q nothing) x) (pop_killed t rest)
        (pop_at q (Spec.kill 0 t ∷ rest) nothing p') in
    subst
      (λ i. (q : Responses) × (discard i s ≡ some (record s { responses = q })) × Refines q rest)
      named (q', rw e (rw e' (rw (==-refl t.id) refl)), p'')

pub poll-front :
    (h : ℕ) (hs : List ℕ) (s : Tts)
    → s.initialized ≡ true
    → s.controller.operations ≡ h ∷ hs
    → poll s ≡ poll_op (s.controller.store h).status (s.controller.store h) s
unfolding poll OpCtl.front_op
poll-front h hs s i o = simp (i, o, poll, OpCtl.front_op)

poll_op-cancelled :
    (op : Operation) (s s' : Tts)
    → discard op.id s ≡ some s'
    → poll_op Status.cancelled op s
      ≡ some (remove_front s', result (settled op.id cancelled_result tts_success))
unfolding poll_op
poll_op-cancelled op s s' e = rw e refl

-- `poll` of an initialized client, when the front operation is cancelled and its stream is the first
-- one or it has none, reports the cancellation under its id, without a failed assertion; it removes
-- the operation and the stream.
pub poll-cancelled :
    (h : ℕ) (hs : List ℕ) (s : Tts) (ss rest : List (Stream TtsResultIn ℕ))
    → s.initialized ≡ true
    → s.controller.operations ≡ h ∷ hs
    → (s.controller.store h).status ≡ Status.cancelled
    → Refines s.responses ss
    → Front (s.controller.store h).id ss rest
    → (s' : Tts) × (poll s
        ≡ some (s', result (settled (s.controller.store h).id cancelled_result tts_success)))
      × (s'.controller.operations ≡ hs)
      × Refines s'.responses rest
unfolding OpCtl.remove_front_op OpCtl.drop_front
poll-cancelled h hs s ss rest i o c p f =
    let op = s.controller.store h in
    let (q, e, p') = discard-Front op.id s ss rest p f in
    (
      remove_front (record s { responses = q }),
      poll-front h hs s i o
          ∙ ap (λ st. poll_op st op s) c
          ∙ poll_op-cancelled op s (record s { responses = q }) e,
      ap OpCtl.drop_front o,
      p',
    )

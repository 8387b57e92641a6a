-- ===== src/Tts/Track/Opens.antt =====
-- A request that the sending thread of `TtsImpl` (src/tts/tts_impl.cc) takes opens an operation, and
-- the streams of responses still match the operations.
use rokid_openvoice_sdk.Base.{
  ℕ, ◌≡◌, ◌≢◌, inl, inr, refl, ap, sym, ◌∙◌, subst, false, none, List, [], ◌∷◌, ◌++◌, All, ◌==◌,
  Bool-cases, arith, ==-refl,
}
use rokid_openvoice_sdk.OpCtl
use rokid_openvoice_sdk.OpCtl.{Status, Operation, Controller, write}
use rokid_openvoice_sdk.OpCtl.Invariant.{is_live, In, WellFormed}
use rokid_openvoice_sdk.Tts.{Tts, TtsReq}
use rokid_openvoice_sdk.Tts.Requests.{do_ctl_new_op}
use rokid_openvoice_sdk.Tts.Track.{Streams, Streamless, LastLive, Tracks}
use rokid_openvoice_sdk.Tts.Track.Reports.{Tracked}
use rokid_openvoice_sdk.Tts.Track.Settles.{Tracks-Settles}

ids_append : (P : ℕ → Type 0) (n : ℕ) (ks : List ℕ) → P n → All P ks → All P (ks ++ n ∷ [])
ids_append P n [] p a = (p, tt)
ids_append P n (k ∷ ks) p a = (a.0, ids_append P n ks p a.1)

live_append : (t : Status) (n : ℕ) (ks : List ℕ) → is_live t ≡ false → LastLive t (ks ++ n ∷ [])
live_append t n [] e = e
live_append t n (k ∷ ks) e = e

-- A new operation at the end, when none is live.
Tracks-append :
    (st : ℕ → Operation) (n : ℕ) (hs : List ℕ) (ss : Streams)
    → ((k : ℕ) → In k hs → is_live (st k).status ≡ false)
    → ((k : ℕ) → In k hs → (st k).id ≢ (st n).id)
    → ((x : Streams) → x ≡ [] → Streamless (st n).status x)
    → Tracks st hs ss
    → Tracks st (hs ++ n ∷ []) ss
Tracks-append st n [] ss dead other fits k = (tt, tt, inl (fits ss k, k))
Tracks-append st n (h ∷ hs) ss dead other fits (d, l, inl (m, k)) = (
  ids_append (λ k. (st k).id ≢ (st h).id) n hs (λ e. other h (inl refl) (sym e)) d,
  live_append (st h).status n hs (dead h (inl refl)),
  inl (m, Tracks-append st n hs ss (λ k i. dead k (inr i)) (λ k i. other k (inr i)) fits k),
)
Tracks-append st n (h ∷ hs) ss dead other fits (d, l, inr (t, rest, e, b, k)) = (
  ids_append (λ k. (st k).id ≢ (st h).id) n hs (λ e. other h (inl refl) (sym e)) d,
  live_append (st h).status n hs (dead h (inl refl)),
  inr (
    t,
    rest,
    e,
    b,
    Tracks-append st n hs rest (λ k i. dead k (inr i)) (λ k i. other k (inr i)) fits k,
  ),
)

-- What `new_op` writes leaves the operations that are listed.
written_elsewhere :
    (c : Controller) (f : Operation → Operation)
    → WellFormed c
    → (k : ℕ) → In k c.operations
    → write c.next f c.store k ≡ c.store k
written_elsewhere c f w k m =
    let l = w.fresh k m in let e : (c.next == k) ≡ false = ground arith in rw e refl

abbrev Opened : Status → Streams → Type 0
Opened t x = x ≡ [] → Streamless t x

-- A new operation that has started or is cancelled, with an id that none of the listed has, while
-- there is no current one.
pub new_op-Tracks :
    (id now : ℕ) (status : Status) (c : Controller) (ss : Streams)
    → WellFormed c
    → c.current ≡ none
    → ((h : ℕ) → In h c.operations → (c.store h).id ≢ id)
    → ((x : Streams) → Opened status x)
    → Tracks c.store c.operations ss
    → Tracks (OpCtl.new_op id status now c).store (OpCtl.new_op id status now c).operations ss
unfolding OpCtl.new_op
new_op-Tracks id now status c ss w free unused fits k =
    Tracks-append st c.next c.operations ss
      (λ j m. ap (λ (o : Operation). is_live o.status) (same j m) ∙ dead j m)
      (λ j m e.
        unused j m
          (sym (ap (λ (o : Operation). o.id) (same j m)) ∙ e ∙ ap (λ (o : Operation). o.id) own))
      (λ x e. subst (λ (o : Operation). Streamless o.status x) (sym own) (fits x e))
      (Tracks-Settles c.store st c.operations ss
        (λ j m. (
          ap (λ (o : Operation). o.id) (same j m),
          inl (ap (λ (o : Operation). o.status) (same j m)),
        ))
        k)
  where
    f : Operation → Operation
    f o = record {
      id = id;
      status = status;
      error_code = 0;
      begin_timepoint = 0;
      lastest_recv_timepoint = now;
      calc_op_timeout = false;
    }

    st : ℕ → Operation
    st = write c.next f c.store

    same : (j : ℕ) → In j c.operations → st j ≡ c.store j
    same = written_elsewhere c f w

    own : st c.next ≡ f (c.store c.next)
    own = rw (==-refl c.next) refl

    dead : (j : ℕ) → In j c.operations → is_live (c.store j).status ≡ false
    dead j m = elim (Bool-cases (is_live (c.store j).status)) [
      | inl e ↦ let g = w.one_live j m e in absurd (cc)
      | inr e ↦ e
    ]

-- When the sending thread takes a request while no operation is current, with an id that none of
-- the operations to be reported has, and their list is well formed, the streams of responses match
-- the operations again.
pub do_ctl_new_op-Tracked :
    (req : TtsReq) (now : ℕ) (s : Tts)
    → WellFormed s.controller
    → s.controller.current ≡ none
    → ((h : ℕ) → In h s.controller.operations → (s.controller.store h).id ≢ req.id)
    → Tracked s
    → Tracked (do_ctl_new_op req now s).0
unfolding do_ctl_new_op
do_ctl_new_op-Tracked req now s w free unused (ss, p, k) = elim (Bool-cases req.deleted) [
  | inl e ↦
      simp e (
        ss,
        p,
        new_op-Tracks req.id now Status.cancelled s.controller ss w free unused (λ x n. tt) k,
      )
  | inr e ↦
      simp e
        (ss, p, new_op-Tracks req.id now Status.start s.controller ss w free unused (λ x n. n) k)
]

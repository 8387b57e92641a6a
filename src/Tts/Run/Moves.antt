-- ===== src/Tts/Run/Moves.antt =====
-- The steps of `TtsImpl` (src/tts/tts_impl.cc) but the requests of its clients: what each leaves.
use rokid_openvoice_sdk.Base.{
  ℕ, ◌≤◌, ◌≡◌, inl, inr, refl, sym, subst, true, false, Option, none, some, Option-cases, List, [],
  ◌∷◌, ◌==◌, Bool-cases, arith,
}
use rokid_openvoice_sdk.OpCtl
use rokid_openvoice_sdk.OpCtl.{Controller}
use rokid_openvoice_sdk.OpCtl.Ends.{remove_front_op-WellFormed}
use rokid_openvoice_sdk.OpCtl.Invariant.{is_live, In, WellFormed}
use rokid_openvoice_sdk.Tts.{
  Tts, TtsReq, TtsResponse, ConnectionResult, success, invalid_pb_obj, connection_not_available,
  not_ready, invalid_pb_data, connection_broken, timeout, release_begin,
}
use rokid_openvoice_sdk.Tts.Options.{TtsOptionsModifier, config}
use rokid_openvoice_sdk.Tts.Requests.{request_begun, fail_op, do_request, send_waits}
use rokid_openvoice_sdk.Tts.Results.{gen_results}
use rokid_openvoice_sdk.Tts.Run.{Sender, idle, taken, sending, waiting, after_request}
use rokid_openvoice_sdk.Tts.Run.Calls.{
  Received, gen_results-Received, fail_op-Served, refresh-Served,
}
use rokid_openvoice_sdk.Tts.Run.Serves.{At, Ascends, Sane, Serves-Ordered, Serves-Sane}
use rokid_openvoice_sdk.Tts.Track.Reports.{Tracked, Follows}

-- A live operation is not removed, so the current one stays listed.
pub polled-Sane :
    (s t : Tts) (p : Sender)
    → Tracked t
    → t.requests ≡ s.requests
    → t.next_id ≡ s.next_id
    → Follows s.controller t.controller
    → Sane (record { tts = s; sender = p })
    → Sane (record { tts = t; sender = p })
unfolding OpCtl.remove_front_op
polled-Sane s t p k r n (inl e) w = record {
  well = subst WellFormed (sym e) w.well;
  tracked = k;
  live =
      subst (λ (c : Controller). (h : ℕ) → c.current ≡ some h → is_live (c.store h).status ≡ true)
        (sym e) w.live;
  busy =
      subst (λ (c : Controller). (h : ℕ) → c.current ≡ some h → At p (c.store h).id) (sym e) w.busy;
  ordered =
      let (m, below, a) = w.ordered in
      (
        m,
        subst (λ (c : Controller). (h : ℕ) → In h c.operations → (c.store h).id ≤ m) (sym e) below,
        subst (λ x. Ascends m t.requests x) (sym n)
            (subst (λ rs. Ascends m rs s.next_id) (sym r) a),
      );
}
polled-Sane s t p k r n (inr (e, over)) w = record {
  well = subst WellFormed (sym e) (
      remove_front_op-WellFormed s.controller w.well
        (λ h d f. let l = w.live h d in let o = over h f in absurd (cc)));
  tracked = k;
  live =
      subst (λ (c : Controller). (h : ℕ) → c.current ≡ some h → is_live (c.store h).status ≡ true)
        (sym e) w.live;
  busy =
      subst (λ (c : Controller). (h : ℕ) → c.current ≡ some h → At p (c.store h).id) (sym e) w.busy;
  ordered =
      let (m, below, a) = w.ordered in
      (
        m,
        subst (λ (c : Controller). (h : ℕ) → In h c.operations → (c.store h).id ≤ m) (sym e)
            (λ h i. below h (later h s.controller.operations i)),
        subst (λ x. Ascends m t.requests x) (sym n)
            (subst (λ rs. Ascends m rs s.next_id) (sym r) a),
      );
}
  where
    later : (h : ℕ) (hs : List ℕ) → In h (OpCtl.drop_front hs) → In h hs
    later h [] m = unfold OpCtl.drop_front in (elim m [ ])
    later h (x ∷ hs) m = unfold OpCtl.drop_front in (inr m)

pub configured-Sane :
    (m : Option TtsOptionsModifier) (s : Tts) (p : Sender)
    → Sane (record { tts = s; sender = p })
    → Sane (record { tts = config m s; sender = p })
unfolding config
configured-Sane none s p w = w
configured-Sane (some m) s p w = record {
  well = w.well;
  tracked = w.tracked;
  live = w.live;
  busy = w.busy;
  ordered = w.ordered;
}

pub begun-Sane :
    (wall : ℕ) (req : TtsReq) (s : Tts)
    → Sane (record { tts = s; sender = taken req })
    → Sane (record { tts = request_begun req wall s; sender = sending req })
unfolding request_begun
begun-Sane wall req s w = record {
  well = w.well;
  tracked = w.tracked;
  live = w.live;
  busy = w.busy;
  ordered = w.ordered;
}

set_op_error-current : (err : ℕ) (c : Controller) → (OpCtl.set_op_error err c).current ≡ none
unfolding OpCtl.set_op_error
set_op_error-current err c = elim (Option-cases c.current) [
  | inl e ↦ simp (e, OpCtl.set_op_error) refl
  | inr (h, e) ↦ simp (e, OpCtl.set_op_error) refl
]

failed-Sane :
    (err : ℕ) (req : TtsReq) (s : Tts)
    → Sane (record { tts = s; sender = sending req })
    → Sane (record { tts = fail_op err s; sender = idle })
failed-Sane err req s w =
    let (v, k) = fail_op-Served err s w.well w.tracked in
    record {
      well = v.well;
      tracked = k;
      live = λ h e. v.relaxes.still h e (w.live h (v.relaxes.was h e));
      busy = λ h e. let no = set_op_error-current err s.controller in absurd (cc);
      ordered = Serves-Ordered s (fail_op err s) v w.ordered;
    }

-- The thread goes on to wait only when the request was sent; otherwise no operation is current.
pub requested-Sane :
    (c : ConnectionResult) (now : ℕ) (req : TtsReq) (s : Tts)
    → Sane (record { tts = s; sender = sending req })
    → Sane
        (record { tts = (do_request c now s).0; sender = after_request req (do_request c now s).1 })
unfolding do_request after_request
requested-Sane success now req s w =
    let (v, k) = refresh-Served false now s w.well w.tracked in
    Serves-Sane s _ (sending req) (waiting req) v k (λ id a. a) w
requested-Sane connection_not_available now req s w = failed-Sane _ req s w
requested-Sane timeout now req s w = failed-Sane _ req s w
requested-Sane not_ready now req s w = failed-Sane _ req s w
requested-Sane connection_broken now req s w = failed-Sane _ req s w
requested-Sane invalid_pb_obj now req s w = failed-Sane _ req s w
requested-Sane invalid_pb_data now req s w = failed-Sane _ req s w

-- The wait is over: what is current, if anything, is not what it waited for.
pub woken-Sane :
    (req : TtsReq) (s : Tts)
    → send_waits req s ≡ false
    → Sane (record { tts = s; sender = waiting req })
    → Sane (record { tts = s; sender = idle })
unfolding send_waits OpCtl.wait_op_finish
woken-Sane req s e w = record {
  well = w.well;
  tracked = w.tracked;
  live = w.live;
  busy = λ h d.
      let i : (s.controller.store h).id ≡ req.id = w.busy h d in
      let no : ((s.controller.store h).id == req.id) ≡ false =
        subst (λ o. elim o [ none ↦ false | some k ↦ (s.controller.store k).id == req.id ] ≡ false)
          d e in
      absurd (ground arith);
  ordered = w.ordered;
}

pub received-Sane :
    (c : ConnectionResult) (resp : TtsResponse) (now wall : ℕ) (s t : Tts) (p : Sender)
    → gen_results c resp now wall s ≡ some (some t)
    → Sane (record { tts = s; sender = p })
    → Sane (record { tts = t; sender = p })
received-Sane c resp now wall s t p e w =
    let (v, k) : Received s (some (some t)) =
      subst (Received s) e (gen_results-Received c resp now wall s w.well w.tracked) in
    Serves-Sane s t p p v k (λ id a. a) w

pub released-Sane :
    (s : Tts) (p : Sender)
    → Sane (record { tts = s; sender = p })
    → Sane (record { tts = release_begin s; sender = p })
unfolding release_begin
released-Sane s p w = elim (Bool-cases s.initialized) [
  | inr e ↦ simp (e, release_begin) w
  | inl e ↦
      simp (e, release_begin)
        (record {
          well = w.well;
          tracked = w.tracked;
          live = w.live;
          busy = w.busy;
          ordered =
              let (m, below, a) = w.ordered in (m, below, Ascends-le m s.requests s.next_id a);
        })
]
  where
    Ascends-le : (m : ℕ) (rs : List TtsReq) (top : ℕ) → Ascends m rs top → m ≤ top
    Ascends-le m [] top a = a
    Ascends-le m (r ∷ rs) top (b, a) = let l = Ascends-le r.id rs top a in omega (arith, b, l)

-- ===== src/Tts/Run/Overtakes.antt =====
-- A wait of the sending thread of `TtsImpl` (src/tts/tts_impl.cc) that ends without a cause, which
-- `wait_op_finish` (src/common/op_ctl.h) does not test again.
use rokid_openvoice_sdk.Base.{ℕ, ◌≡◌, ◌≢◌, true, false, some, List, ◌∷◌, ◌==◌, arith}
use rokid_openvoice_sdk.OpCtl
use rokid_openvoice_sdk.OpCtl.{Status, Controller}
use rokid_openvoice_sdk.OpCtl.Invariant.{is_live, In, WellFormed, In-first}
use rokid_openvoice_sdk.Tts.{Tts, TtsReq}
use rokid_openvoice_sdk.Tts.Requests.{send_take, do_ctl_new_op}

-- An operation that is to be reported and is live, but is not the current one.
abbrev pub Stranded : ℕ → Controller → Type 0
Stranded h c = In h c.operations × (is_live (c.store h).status ≡ true) × (c.current ≢ some h)

new_op-Stranded :
    (id now h : ℕ) (c : Controller)
    → WellFormed c
    → c.current ≡ some h
    → is_live (c.store h).status ≡ true
    → Stranded h (OpCtl.new_op id Status.start now c)
      × Stranded h (OpCtl.finish_op (OpCtl.new_op id Status.start now c))
unfolding OpCtl.new_op OpCtl.is_start OpCtl.finish_op
new_op-Stranded id now h c w e l =
    let m = w.listed h e in
    let b = w.fresh h m in
    let other : (c.next == h) ≡ false = ground arith in
    let last = In-first h c.next c.operations m in
    let ne : some c.next ≢ some h = λ x. (let y : c.next ≡ h = cc in omega (arith, b, y)) in
    ((last, rw other l, ne), (last, simp other l, λ x. cc))

-- When the sending thread goes on while the operation it waited for is current and live, and the
-- next request is not deleted: after it has taken that request the operation is still to be reported
-- and live but no longer current, and so it is when the new operation has finished.
pub send_take-Stranded :
    (now h : ℕ) (req : TtsReq) (rest : List TtsReq) (s : Tts)
    → s.initialized ≡ true
    → s.requests ≡ req ∷ rest
    → req.deleted ≡ false
    → WellFormed s.controller
    → s.controller.current ≡ some h
    → is_live (s.controller.store h).status ≡ true
    → Stranded h (send_take now s).0.controller
      × Stranded h (OpCtl.finish_op (send_take now s).0.controller)
unfolding send_take do_ctl_new_op
send_take-Stranded now h req rest s i q d w e l =
    rw (i, q) (rw d (new_op-Stranded req.id now h s.controller w e l))

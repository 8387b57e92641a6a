-- ===== src/OpCtl/Timeout.antt =====
-- The timeout that `OperationController::op_timeout` (src/common/op_ctl.h) computes.
use rokid_openvoice_sdk.Base.{ℕ, ◌≤◌, ◌≡◌, none, arith}
use rokid_openvoice_sdk.OpCtl.{Controller, noop_timeout, op_timeout}

-- The timeout is at most 20 seconds, whatever the state.
pub op_timeout-le : (now : ℕ) (c : Controller) → op_timeout now c ≤ noop_timeout
unfolding op_timeout
op_timeout-le now c = ground arith

pub op_timeout-idle :
    (now : ℕ) (c : Controller) → c.current ≡ none → op_timeout now c ≡ noop_timeout
unfolding op_timeout
op_timeout-idle now c e = ground arith

-- ===== src/Connection/PingPayload.antt =====
-- The message that a ping carries, `PingPayload` of src/common/nanopb_encoder.cc: its setters.
use rokid_openvoice_sdk.Base.{ℕ}

pub record PingPayload : Type 0 where
  pub req_id : ℕ
  pub now_tp : ℕ
  pub req_tp : ℕ
  pub resp_tp : ℕ

unfoldable pub empty : PingPayload
empty = record { req_id = 0; now_tp = 0; req_tp = 0; resp_tp = 0 }

unfoldable pub set_req_id : ℕ → PingPayload → PingPayload
set_req_id i p = record p { req_id = i }

unfoldable pub set_now_tp : ℕ → PingPayload → PingPayload
set_now_tp i p = record p { now_tp = i }

unfoldable pub set_req_tp : ℕ → PingPayload → PingPayload
set_req_tp i p = record p { req_tp = i }

-- As the source has it: the field is that of the request.
unfoldable pub set_resp_tp : ℕ → PingPayload → PingPayload
set_resp_tp i p = record p { req_tp = i }

-- ===== src/Connection/Messages.antt =====
-- What the clients call: `send` and `recv` of src/common/speech_connection.h, and
-- `ensure_connection_available` of src/common/speech_connection.cc.
--
-- The message's encoder and decoder are outside: `send` takes the encoder's result, `recv` the
-- decoder. A wake-up is what a thread finds when a wait on `stage_changed_` returns.
use rokid_openvoice_sdk.Base.{
  ℕ, Bool, true, false, ◌&&◌, not, Option, none, some, List, [], ◌∷◌, if◌then◌else◌, ◌==◌, Text,
}
use rokid_openvoice_sdk.Connection.{
  Conn, Stage, ready, paused, disconn, ConnectionResult, success, invalid_pb_obj,
  connection_not_available, not_ready, invalid_pb_data, connection_broken, timeout, BinRespType,
  BinResp, OpCode, is_stage, set_stage, update_reconn_tp, update_voice_tp, ws_send,
}

-- `ensure_connection_available` before its loop.
unfoldable pub resume : ℕ → Conn → Conn
unfolding set_stage update_reconn_tp
resume now c = if is_stage c.stage paused then set_stage disconn (update_reconn_tp now 0 c) else c

pub record Wake : Type 0 where
  pub timed_out : Bool
  pub stage : Stage

-- The loop of `ensure_connection_available`; `none` says that it still waits.
unfoldable pub await_ready : ℕ → Stage → List Wake → Option Bool
await_ready ms s [] = if is_stage s ready then some true else none
await_ready ms s (w ∷ ws) =
    let rest = await_ready ms w.stage ws in
    if is_stage s ready
    then some true
    else if not (ms == 0) && w.timed_out
    then some false
    else rest

-- `send` after the loop, of which it has the result.
unfoldable pub send_buf : Text → Bool → ℕ → Conn → Conn × ConnectionResult
unfolding update_voice_tp ws_send
send_buf buf false now c = (c, connection_not_available)
send_buf buf true now c = (ws_send buf OpCode.binary_op (update_voice_tp now c), success)

unfoldable pub send_outcome : Option Bool → Option ConnectionResult
send_outcome none = none
send_outcome (some true) = some success
send_outcome (some false) = some connection_not_available

-- The result of `send` for the encoder's result and the wake-ups of its loop. `none` says that
-- it still waits.
unfoldable pub send_result : Option Text → ℕ → Stage → List Wake → Option ConnectionResult
unfolding await_ready send_outcome
send_result none ms s ws = some invalid_pb_obj
send_result (some buf) ms s ws = send_outcome (await_ready ms s ws)

unfoldable pub recv_data {ℓ} : {M : Type ℓ} → Option M → ConnectionResult × Option M
recv_data none = (invalid_pb_data, none)
recv_data (some m) = (success, some m)

unfoldable pub recv_first {ℓ} :
    {M : Type ℓ} → (Text → Option M) → List BinResp → ConnectionResult × Option M
unfolding recv_data
recv_first parse [] = (timeout, none)
recv_first parse (r ∷ rs) = elim (r.tp) [
  | BinRespType.data_resp ↦ recv_data (parse r.bytes)
  | BinRespType.error_resp ↦ (connection_broken, none)
  | BinRespType.closed_resp ↦ (not_ready, none)
]

unfoldable pub rest {ℓ} : {A : Type ℓ} → List A → List A
rest [] = []
rest (x ∷ xs) = xs

-- `recv` after its wait, which comes when nothing is queued.
unfoldable pub recv {ℓ} :
    {M : Type ℓ} → (Text → Option M) → Conn → Conn × (ConnectionResult × Option M)
unfolding recv_first rest
recv parse c = (record c { responses = rest c.responses }, recv_first parse c.responses)

-- The wait of `recv`: whether it blocks first.
unfoldable pub recv_waits : Conn → Bool
recv_waits c = elim (c.responses) [ [] ↦ true | r ∷ rs ↦ false ]

-- ===== src/Connection/Callbacks.antt =====
-- What the websocket library calls back, of src/common/speech_connection.cc: `onConnection`,
-- `onDisconnection`, `onMessage`, `onError` and `onPong`.
--
-- `onMessage` reads the stage before it takes `stage_mutex_`, and `onDisconnection` takes no lock:
-- each is a function of the stage that it has read, its first argument.
use rokid_openvoice_sdk.Base.{
  ℕ, Bool, true, false, ◌||◌, ◌>>=◌, Option, none, some, if◌then◌else◌, Text,
}
use rokid_openvoice_sdk.Connection.{
  Conn, Stage, init, disconn, connecting, authorizing, ready, paused, closed, BinRespType, ask, Ask,
  ws_close, is_stage, set_stage, push_status_resp, push_resp_data, update_reconn_tp, update_recv_tp,
  update_voice_tp,
}
use rokid_openvoice_sdk.Connection.Auth.{Outside, auth, handle_auth_result}

-- The connection is given up: it pauses, or is released.
unfoldable pub is_given_up : Stage → Bool
is_given_up s = is_stage s closed || is_stage s paused

-- The tests of `onDisconnection`, which holds no lock, find the stage `seen`.
unfoldable pub on_disconnection_at : Stage → ℕ → Conn → Conn
unfolding is_given_up push_status_resp update_reconn_tp set_stage
on_disconnection_at seen now c =
    let gone = record c { socket = none } in
    if is_given_up seen
    then gone
    else set_stage disconn (
        update_reconn_tp now (if is_stage seen ready then 0 else gone.options.reconn_interval)
          (push_status_resp BinRespType.error_resp gone))

unfoldable pub on_disconnection : ℕ → Conn → Conn
unfolding on_disconnection_at
on_disconnection now c = on_disconnection_at c.stage now c

-- The branch of `onError` without a socket.
unfoldable pub on_error_unconnected : ℕ → Conn → Conn
unfolding push_status_resp update_reconn_tp set_stage
on_error_unconnected now c =
    let late =
      update_reconn_tp now c.options.reconn_interval (push_status_resp BinRespType.error_resp c) in
    if is_stage late.stage closed then late else set_stage disconn late

unfoldable pub on_error_at : Option ℕ → ℕ → Conn → Conn
unfolding on_error_unconnected ask
on_error_at none now c = on_error_unconnected now c
on_error_at (some ws) now c = ask (Ask.closes ws) c

unfoldable pub on_error : ℕ → Conn → Conn
unfolding on_error_at
on_error now c = on_error_at c.socket now c

unfoldable pub on_pong : ℕ → Conn → Conn
unfolding update_recv_tp
on_pong now c = update_recv_tp now c

-- What `onMessage` does with the outcome of `handle_auth_result`.
unfoldable pub authorized : ℕ → Conn × Bool → Conn
unfolding update_recv_tp update_voice_tp set_stage update_reconn_tp ws_close
authorized now (c, true) = set_stage ready (update_voice_tp now (update_recv_tp now c))
authorized now (c, false) = ws_close (update_reconn_tp now c.options.reconn_interval c)

module _ (out : Outside) where
  unfoldable pub on_connection : ℕ → Text → Conn → Option Conn
  unfolding is_given_up auth
  on_connection ws ts c = if is_given_up c.stage then some c else do
    (authorizes, sent) ← auth out ts (record c { stage = authorizing; socket = some ws })
    some authorizes

  unfoldable pub on_message : Stage → Text → ℕ → Conn → Conn
  unfolding handle_auth_result authorized push_resp_data update_recv_tp
  on_message authorizing message now c = authorized now (handle_auth_result out message now c)
  on_message ready message now c = push_resp_data message (update_recv_tp now c)
  on_message init message now c = c
  on_message disconn message now c = c
  on_message connecting message now c = c
  on_message paused message now c = c
  on_message closed message now c = c

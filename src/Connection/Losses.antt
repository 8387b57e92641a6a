-- ===== src/Connection/Losses.antt =====
-- A connection of src/common/speech_connection.cc that is lost while `send` is under way.
use rokid_openvoice_sdk.Base.{ℕ, ◌≡◌, refl, true, Bool-cases, inl, inr, Text}
use rokid_openvoice_sdk.Connection
use rokid_openvoice_sdk.Connection.{
  Conn, success, set_stage, update_reconn_tp, ws_send, send_on, update_voice_tp,
}
use rokid_openvoice_sdk.Connection.Callbacks.{is_given_up, on_disconnection, on_disconnection_at}
use rokid_openvoice_sdk.Connection.Messages.{send_buf}

-- When the connection is lost after `send` has found it READY and before it writes, `send` says
-- SUCCESS, and nothing is sent.
pub send_buf-on_disconnection :
    (buf : Text) (lost now : ℕ) (c : Conn)
    → ((send_buf buf true now (on_disconnection lost c)).1 ≡ success)
      × ((send_buf buf true now (on_disconnection lost c)).0.asked ≡ c.asked)
unfolding send_buf ws_send send_on update_voice_tp on_disconnection on_disconnection_at set_stage
    update_reconn_tp Connection.push_status_resp Connection.push_resp
send_buf-on_disconnection buf lost now c = elim (Bool-cases (is_given_up c.stage)) [
  | inl e ↦ simp e (refl, refl)
  | inr e ↦ simp e (refl, refl)
]

-- ===== src/Connection/Shape.antt =====
-- What holds of the connection (src/common/speech_connection.cc) at every moment: its stage, its
-- threads and its socket fit together, and at most 128 traces wait.
pub mod Rounds
use rokid_openvoice_sdk.Base.{
  ℕ, ◌≤◌, ◌≡◌, refl, subst, Bool, true, false, not, ◌&&◌, ◌||◌, Option, none, some, List, [], ◌∷◌,
  if◌then◌else◌, Text, Bool-cases, inl, inr, ◌>>=◌, length, leb, arith, is_positive, ◌==◌, ap, sym,
  ◌∙◌, ◌*◌, ◌⊎◌,
}
use rokid_openvoice_sdk.Connection
use rokid_openvoice_sdk.Connection.{
  Conn, Stage, init, disconn, connecting, authorizing, ready, paused, closed, is_stage, ask, Ask,
  OpCode, initialize, release_begin, release_end, ws_close, ws_send, close_on, send_on, BinResp,
  ping, PrepareOptions, nanoseconds, set_stage, update_reconn_tp, new_connection,
}
use rokid_openvoice_sdk.Connection.Auth.{
  Outside, auth, send_auth, send_at, lacks_options, handle_auth_result, auth_result, auth_request,
}
use rokid_openvoice_sdk.Connection.Callbacks.{
  is_given_up, on_connection, on_disconnection, on_disconnection_at, on_message, on_error,
  on_error_at, on_error_unconnected, authorized, on_pong,
}
use rokid_openvoice_sdk.Connection.Threads.{
  work_round, work_in, keepalive_round, keepalive_in, keepalive_ready, keepalive_ping,
  send_trace_info, send_trace_infos, send_payload, is_past, trace_payload, KeepAlive,
  keepalive_timeout,
}
use rokid_openvoice_sdk.Connection.Messages.{resume, send_buf, recv}
use rokid_openvoice_sdk.Connection.Events.{Event, happen, happens}
use rokid_openvoice_sdk.Trace
use rokid_openvoice_sdk.Trace.{TraceInfo, max_pending_trace_infos, drop_oldest}

abbrev pub AllRun : Bool → Bool → Bool → Type 0
AllRun h w k = (h ≡ true) × (w ≡ true) × (k ≡ true)

-- Before `initialize` there are no threads; a thread has returned only if the stage is CLOSED.
abbrev pub Running : Stage → Bool → Bool → Bool → Type 0
Running init h w k = (h ≡ false) × (w ≡ false) × (k ≡ false)
Running closed h w k = h ≡ false → (w ≡ false) × (k ≡ false)
Running disconn h w k = AllRun h w k
Running connecting h w k = AllRun h w k
Running authorizing h w k = AllRun h w k
Running ready h w k = AllRun h w k
Running paused h w k = AllRun h w k

-- While authorizing and when ready there is a socket.
abbrev pub Connected : Stage → Option ℕ → Type 0
Connected authorizing none = ⊥
Connected ready none = ⊥
Connected s o = Unit

abbrev pub Shaped : Conn → Type 0
Shaped c =
    Running c.stage c.has_threads c.work_runs c.keepalive_runs
    × Connected c.stage c.socket
    × (length c.trace_infos ≤ max_pending_trace_infos)

-- The steps do not use a null socket, and leave this.
abbrev pub Safe : Option Conn → Type 0
Safe none = ⊥
Safe (some c) = Shaped c

pub if-Shaped : (b : Bool) (c d : Conn) → Shaped c → Shaped d → Shaped (if b then c else d)
if-Shaped true c d p q = p
if-Shaped false c d p q = q

-- A branch that runs only while there are threads.
pub guarded-Shaped :
    (b : Bool) (c d : Conn) → (b ≡ true → Shaped c) → Shaped d → Shaped (if b then c else d)
guarded-Shaped true c d p q = p refl
guarded-Shaped false c d p q = q

pub guarded-Safe :
    (b : Bool) (m : Option Conn) (d : Conn)
    → (b ≡ true → Safe m)
    → Shaped d
    → Safe (if b then m else some d)
guarded-Safe true m d p q = p refl
guarded-Safe false m d p q = q

threads-AllRun :
    (s : Stage) {h w k : Bool}
    → is_stage s closed ≡ false
    → h ≡ true
    → Running s h w k
    → AllRun h w k
threads-AllRun init e p r = cc
threads-AllRun closed e p r = cc
threads-AllRun disconn e p r = r
threads-AllRun connecting e p r = r
threads-AllRun authorizing e p r = r
threads-AllRun ready e p r = r
threads-AllRun paused e p r = r

given_up-Connected : (s : Stage) (o : Option ℕ) → is_given_up s ≡ true → Connected s o
unfolding is_given_up
given_up-Connected init o e = cc
given_up-Connected closed o e = tt
given_up-Connected disconn o e = cc
given_up-Connected connecting o e = cc
given_up-Connected authorizing o e = cc
given_up-Connected ready o e = cc
given_up-Connected paused o e = tt

Connected-some : (s : Stage) (ws : ℕ) → Connected s (some ws)
Connected-some init ws = tt
Connected-some disconn ws = tt
Connected-some connecting ws = tt
Connected-some authorizing ws = tt
Connected-some ready ws = tt
Connected-some paused ws = tt
Connected-some closed ws = tt

closed-given_up : (s : Stage) → is_given_up s ≡ false → is_stage s closed ≡ false
unfolding is_given_up
closed-given_up init e = refl
closed-given_up closed e = cc
closed-given_up disconn e = refl
closed-given_up connecting e = refl
closed-given_up authorizing e = refl
closed-given_up ready e = refl
closed-given_up paused e = refl

-- Calls of the library change nothing of this.
pub close_on-Shaped : (o : Option ℕ) (c : Conn) → Shaped c → Shaped (close_on o c)
unfolding close_on ask
close_on-Shaped none c p = p
close_on-Shaped (some ws) c p = p

pub send_on-Shaped :
    (o : Option ℕ) (msg : Text) (op : OpCode) (c : Conn) → Shaped c → Shaped (send_on o msg op c)
unfolding send_on ask
send_on-Shaped none msg op c p = p
send_on-Shaped (some ws) msg op c p = p

pub ping-Shaped : (now : ℕ) (msg : Text) (c : Conn) → Shaped c → Shaped (ping now msg c)
unfolding ping ws_send
ping-Shaped now msg c p = send_on-Shaped c.socket msg OpCode.ping_op c p

pub on_disconnection-Shaped :
    (now : ℕ) (c : Conn) → c.has_threads ≡ true → Shaped c → Shaped (on_disconnection now c)
unfolding on_disconnection on_disconnection_at set_stage update_reconn_tp
    Connection.push_status_resp Connection.push_resp
on_disconnection-Shaped now c h (r, s, l) = elim (Bool-cases (is_given_up c.stage)) [
  | inl e ↦ simp e (r, given_up-Connected c.stage none e, l)
  | inr e ↦ simp e (threads-AllRun c.stage (closed-given_up c.stage e) h r, tt, l)
]

pub on_error-Shaped :
    (now : ℕ) (c : Conn) → c.has_threads ≡ true → Shaped c → Shaped (on_error now c)
unfolding on_error
on_error-Shaped now c h p = go c.socket p
  where
    late : Shaped c → Shaped (on_error_unconnected now c)
    late (r, s, l) = elim (Bool-cases (is_stage c.stage closed)) [
      | inl e ↦ unfold on_error_unconnected in (simp e (r, s, l))
      | inr e ↦ unfold on_error_unconnected in (simp e (threads-AllRun c.stage e h r, tt, l))
    ]

    go : (o : Option ℕ) → Shaped c → Shaped (on_error_at o now c)
    go none q = unfold on_error_at in late q
    go (some ws) q = unfold on_error_at ask in q

authorized-Shaped :
    (now : ℕ) (c : Conn) (ok : Bool)
    → c.stage ≡ authorizing
    → Shaped c
    → Shaped (authorized now (c, ok))
unfolding authorized set_stage update_reconn_tp ws_close Connection.update_recv_tp
    Connection.update_voice_tp
authorized-Shaped now c true e (r, s, l) =
    let r' = subst (λ t. Running t c.has_threads c.work_runs c.keepalive_runs) e r in
    let s' = subst (λ t. Connected t c.socket) e s in (r', was_connected c.socket s', l)
  where
    was_connected : (o : Option ℕ) → Connected authorizing o → Connected ready o
    was_connected none h = h
    was_connected (some ws) h = tt
authorized-Shaped now c false e p = close_on-Shaped c.socket _ p

module _ (out : Outside) where
  auth_result-Shaped :
      (r : Option ℕ) (now : ℕ) (c : Conn)
      → c.stage ≡ authorizing
      → Shaped c
      → Shaped (authorized now (auth_result r now c))
  unfolding auth_result Connection.update_ping_tp
  auth_result-Shaped none now c e p = authorized-Shaped now c false e p
  auth_result-Shaped (some result) now c e p = elim (Bool-cases (result == 0)) [
    | inl b ↦ simp b (authorized-Shaped now (record c { lastest_ping_tp = now }) true e p)
    | inr b ↦ simp b (authorized-Shaped now c false e p)
  ]

  pub on_message-Shaped :
      (s : Stage) (msg : Text) (now : ℕ) (c : Conn)
      → c.stage ≡ s
      → Shaped c
      → Shaped (on_message out s msg now c)
  unfolding on_message handle_auth_result Connection.push_resp_data Connection.push_resp
      Connection.update_recv_tp
  on_message-Shaped authorizing msg now c e p = auth_result-Shaped (out.parse_auth msg) now c e p
  on_message-Shaped ready msg now c e p = p
  on_message-Shaped init msg now c e p = p
  on_message-Shaped disconn msg now c e p = p
  on_message-Shaped connecting msg now c e p = p
  on_message-Shaped paused msg now c e p = p
  on_message-Shaped closed msg now c e p = p

  pub on_connection-Safe :
      (ws : ℕ) (ts : Text) (c : Conn)
      → c.has_threads ≡ true
      → Shaped c
      → Safe (on_connection out ws ts c)
  unfolding on_connection auth
  on_connection-Safe ws ts c h (r, s, l) = elim (Bool-cases (is_given_up c.stage)) [
    | inl e ↦ simp e (r, s, l)
    | inr e ↦ simp e (
        authorizes (lacks_options c.options)
          (out.serialize_auth (auth_request out c.service_type ts c.options))
          (threads-AllRun c.stage (closed-given_up c.stage e) h r))
  ]
    where
      greets : Conn
      greets = record c { stage = authorizing; socket = some ws }

      authorizes :
          (b : Bool) (o : Option Text)
          → AllRun c.has_threads c.work_runs c.keepalive_runs
          → Safe (do (d, sent) ← if b then some (greets, false) else send_auth o greets; some d)
      authorizes true o q = (q, tt, l)
      authorizes false none q = unfold send_auth in (q, tt, l)
      authorizes false (some buf) q = unfold send_auth send_at ask in (q, tt, l)

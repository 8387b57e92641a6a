-- ===== src/Connection/Delivery.antt =====
-- What `send` and `recv` of src/common/speech_connection.h deliver, and when `send` returns.
use rokid_openvoice_sdk.Base.{
  ℕ, zero, suc, ◌<◌, ◌≡◌, ◌≢◌, ◌*◌, ◌/◌, refl, ap, sym, ◌∙◌, Bool, true, false, ◌||◌, Option, none,
  some, List, [], ◌∷◌, ◌++◌, if◌then◌else◌, ◌==◌, Text, Bool-cases, inl, inr, arith, All,
}
use rokid_openvoice_sdk.Connection
use rokid_openvoice_sdk.Connection.{
  Conn, Stage, ready, closed, authorizing, is_stage, BinResp, BinRespType, ConnectionResult,
  success, connection_not_available, set_stage, nanoseconds,
}
use rokid_openvoice_sdk.Connection.Auth.{Outside, handle_auth_result, auth_result}
use rokid_openvoice_sdk.Connection.Callbacks.{on_message, authorized}
use rokid_openvoice_sdk.Connection.Closing.{work_closed, keepalive_closed}
use rokid_openvoice_sdk.Connection.Events.{Event, message}
use rokid_openvoice_sdk.Connection.Messages.{Wake, await_ready, send_result, send_outcome, recv}
use rokid_openvoice_sdk.Trace.{TraceInfo}
use rokid_openvoice_sdk.Connection.Threads.{
  Work, KeepAlive, work_round, work_in, keepalive_round, keepalive_in, keepalive_ready,
  keepalive_ping, is_past, send_trace_info, trace_payload,
}

-- The answers of so many calls of `recv`.
abbrev pub recvs : {M : Type 0} → (Text → Option M) → ℕ → Conn → List (ConnectionResult × Option M)
recvs parse zero c = []
recvs parse (suc n) c = (recv parse c).1 ∷ recvs parse n (recv parse c).0

abbrev pub queued : Text × ℕ → BinResp
queued (msg, now) = record { tp = BinRespType.data_resp; bytes = msg }

abbrev pub arrives : Text × ℕ → Event
arrives (msg, now) = message msg now

-- READY is seen before the first wait, or at some wake-up.
abbrev pub sees_ready : Stage → List Wake → Bool
sees_ready s [] = is_stage s ready
sees_ready s (w ∷ ws) = is_stage s ready || sees_ready w.stage ws

await_ready-zero :
    (s : Stage) (ws : List Wake)
    → await_ready 0 s ws ≡ (if sees_ready s ws then some true else none)
unfolding await_ready
await_ready-zero s [] = refl
await_ready-zero s (w ∷ ws) = elim (Bool-cases (is_stage s ready)) [
  | inl e ↦ simp e refl
  | inr e ↦ simp (e, await_ready-zero w.stage ws) refl
]

-- With a timeout of 0, `send` of a message that encodes succeeds as soon as it sees the
-- connection READY, and waits until then: it never says that there is no connection.
pub send_result-zero :
    (buf : Text) (s : Stage) (ws : List Wake)
    → send_result (some buf) 0 s ws ≡ (if sees_ready s ws then some success else none)
unfolding send_result
send_result-zero buf s ws = ap send_outcome (await_ready-zero s ws) ∙ outcome (sees_ready s ws)
  where
    outcome :
        (b : Bool)
        → send_outcome (if b then some true else none) ≡ (if b then some success else none)
    outcome true = unfold send_outcome in refl
    outcome false = unfold send_outcome in refl

neither : (a b : Bool) → (a || b) ≡ false → (a ≡ false) × (b ≡ false)
neither true b e = cc
neither false b e = (refl, e)

await_ready-timed_out :
    (ms : ℕ) (s : Stage) (ws : List Wake) (w : Wake)
    → 0 < ms
    → sees_ready s ws ≡ false
    → All (λ v. v.timed_out ≡ false) ws
    → w.timed_out ≡ true
    → await_ready ms s (ws ++ w ∷ []) ≡ some false
unfolding await_ready
await_ready-timed_out ms s [] w p e a t =
    let z : (ms == 0) ≡ false = ground arith in simp (e, z, t) refl
await_ready-timed_out ms s (v ∷ ws) w p e a t =
    let (r, f) = neither (is_stage s ready) (sees_ready v.stage ws) e in
    let z : (ms == 0) ≡ false = ground arith in
    let later = await_ready-timed_out ms v.stage ws w p f a.1 t in simp (r, z, a.0, later) refl

-- With a timeout, `send` of a message that encodes says that there is no connection when it has
-- not seen READY and a wait ends by the timeout, even if that wake-up finds the stage READY.
pub send_result-timed_out :
    (buf : Text) (ms : ℕ) (s : Stage) (ws : List Wake) (w : Wake)
    → 0 < ms
    → sees_ready s ws ≡ false
    → All (λ v. v.timed_out ≡ false) ws
    → w.timed_out ≡ true
    → send_result (some buf) ms s (ws ++ w ∷ []) ≡ some connection_not_available
unfolding send_result
send_result-timed_out buf ms s ws w p e a t =
    ap send_outcome (await_ready-timed_out ms s ws w p e a t)

keepalive_ready-ne-quits :
    (now later : ℕ) (b : Bool) (c : Conn) → (keepalive_ready now later b c).1 ≢ KeepAlive.quits
unfolding keepalive_ready
keepalive_ready-ne-quits now later b c =
    either (is_past now d.lastest_recv_tp (nanoseconds d.options.no_resp_timeout))
      (is_past now d.lastest_voice_tp (nanoseconds (d.options.conn_duration * 1000))) _ _ _
  where
    d : Conn
    d = keepalive_ping now later c

    outcome : Bool → Bool → Conn → Conn → ℕ → Conn × KeepAlive
    outcome x y c1 c2 ms =
        if x
        then (c1, KeepAlive.goes_on)
        else if y
        then (c2, KeepAlive.goes_on)
        else (d, KeepAlive.waits_for ms)

    either : (x y : Bool) (c1 c2 : Conn) (ms : ℕ) → (outcome x y c1 c2 ms).1 ≢ KeepAlive.quits
    either true y c1 c2 ms = λ h. cc
    either false true c1 c2 ms = λ h. cc
    either false false c1 c2 ms = λ h. cc

keepalive_in-ne-quits :
    (out : Outside) (now later wall : ℕ) (c : Conn)
    → (keepalive_in out ready now later wall c).1 ≢ KeepAlive.quits
unfolding keepalive_in
keepalive_in-ne-quits out now later wall c =
    let traced = send_trace_info out later wall c in
    keepalive_ready-ne-quits now later traced.1 traced.0

-- A message that `onMessage` met in AUTHORIZING, read without the lock, and that says the server
-- accepted, makes a connection READY that `release` has CLOSED meanwhile: both threads were to
-- quit in their next rounds, and now neither does; the work thread runs the hub again.
pub on_message-revives :
    (out : Outside) (msg : Text) (now next later wall : ℕ) (c : Conn)
    → c.stage ≡ closed
    → out.parse_auth msg ≡ some 0
    → ((work_round next c).1 ≡ Work.quits)
      × ((keepalive_round out next later wall c).1 ≡ KeepAlive.quits)
      × ((work_round next (on_message out authorizing msg now c)).1 ≡ Work.runs_hub)
      × ((keepalive_round out next later wall (on_message out authorizing msg now c)).1
          ≢ KeepAlive.quits)
unfolding on_message handle_auth_result auth_result authorized set_stage work_round keepalive_round
on_message-revives out msg now next later wall c e p = simp p (
  ap (λ r. r.1) (work_closed c.stage next c e),
  ap (λ r. r.1) (keepalive_closed out c.stage next later wall c e),
  unfold work_in in refl,
  keepalive_in-ne-quits out next later wall (authorized now (auth_result (some 0) now c)),
)

-- The message about a trace never has the time of the answer: it carries that time as the
-- request's, so that the request's own is lost whenever the two differ.
pub trace_payload-ne :
    (wall : ℕ) (t : TraceInfo)
    → t.req_tp / 1000000 ≢ t.resp_tp / 1000000
    → ((trace_payload wall t).req_tp ≢ t.req_tp / 1000000)
      × ((trace_payload wall t).req_tp ≡ t.resp_tp / 1000000)
      × ((trace_payload wall t).resp_tp ≡ 0)
unfolding trace_payload
trace_payload-ne wall t d = ((λ e. d (sym e)), refl, refl)

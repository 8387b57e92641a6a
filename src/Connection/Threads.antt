-- ===== src/Connection/Threads.antt =====
-- The rounds of the two threads of src/common/speech_connection.cc, `run` and `keepalive_run` with
-- `send_trace_info`.
--
-- A round reads the clock once for its tests, `now`; what it writes down later is `later`.
use rokid_openvoice_sdk.Base.{
  ℕ, ◌+◌, ◌-◌, ◌*◌, ◌/◌, Bool, true, false, ◌&&◌, Option, none, some, List, [], ◌∷◌, if◌then◌else◌,
  ltb, leb, Text,
}
use rokid_openvoice_sdk.Connection.{
  Conn, Stage, init, disconn, connecting, authorizing, ready, paused, closed, ask, Ask, ws_close,
  set_stage, nanoseconds, ping, update_reconn_tp, update_ping_tp,
}
use rokid_openvoice_sdk.Connection.Auth.{Outside, get_server_uri}
use rokid_openvoice_sdk.Connection.PingPayload
use rokid_openvoice_sdk.Connection.PingPayload.{PingPayload}
use rokid_openvoice_sdk.Trace.{TraceInfo}

-- What a round of the work thread ends with; times in nanoseconds.
pub data Work : Type 0 where
  quits goes_on waits runs_hub : Work
  waits_for : ℕ → Work

unfoldable pub work_in : Stage → ℕ → Conn → Conn × Work
unfolding ask get_server_uri
work_in closed now c = (record c { work_runs = false }, quits)
work_in disconn now c =
    if leb c.reconn_timepoint now
    then (ask (Ask.connect (get_server_uri c.options)) (record c { stage = connecting }), goes_on)
    else (c, waits_for (c.reconn_timepoint - now))
work_in paused now c = (c, waits)
work_in init now c = (c, runs_hub)
work_in connecting now c = (c, runs_hub)
work_in authorizing now c = (c, runs_hub)
work_in ready now c = (c, runs_hub)

unfoldable pub work_round : ℕ → Conn → Conn × Work
unfolding work_in
work_round now c = work_in c.stage now c

-- The message about one trace; `wall` is the system clock.
unfoldable pub trace_payload : ℕ → TraceInfo → PingPayload
unfolding PingPayload.empty PingPayload.set_req_id PingPayload.set_now_tp PingPayload.set_req_tp
    PingPayload.set_resp_tp
trace_payload wall info = PingPayload.set_resp_tp (info.resp_tp / 1000000) (
    PingPayload.set_req_tp (info.req_tp / 1000000)
      (PingPayload.set_now_tp (wall / 1000000) (PingPayload.set_req_id info.id PingPayload.empty)))

unfoldable pub send_payload : ℕ → Option Text → Conn → Conn
unfolding ping
send_payload later none c = c
send_payload later (some buf) c = ping later buf c

module _ (out : Outside) where
  unfoldable pub send_trace_infos : ℕ → ℕ → List TraceInfo → Conn → Conn × Bool
  unfolding send_payload trace_payload
  send_trace_infos later wall [] c = (c, false)
  send_trace_infos later wall (info ∷ infos) c = (
    send_payload later (out.serialize_ping (trace_payload wall info))
        (record c { trace_infos = infos }),
    true,
  )

  unfoldable pub send_trace_info : ℕ → ℕ → Conn → Conn × Bool
  unfolding send_trace_infos
  send_trace_info later wall c = send_trace_infos later wall c.trace_infos c

-- What a round of the keep-alive thread ends with; times in milliseconds.
pub data KeepAlive : Type 0 where
  quits goes_on waits : KeepAlive
  waits_for : ℕ → KeepAlive

-- `now - since >= interval`, of signed durations.
abbrev pub is_past : ℕ → ℕ → ℕ → Bool
is_past now since interval = leb (since + interval) now

-- `interval - duration_cast<milliseconds>(now - since)`, 0 where it is negative.
abbrev pub left : ℕ → ℕ → ℕ → ℕ
left now since interval =
    if leb since now then interval - (now - since) / 1000000 else interval + (since - now) / 1000000

abbrev pub min : ℕ → ℕ → ℕ
min a b = if ltb a b then a else b

abbrev pub send_trace_info_interval : ℕ
send_trace_info_interval = 1000

-- The time to wait, in milliseconds.
unfoldable pub keepalive_timeout : ℕ → Bool → Conn → ℕ
keepalive_timeout now has_trace_info c =
    let timeout =
      min (left now c.lastest_ping_tp c.options.ping_interval)
        (left now c.lastest_recv_tp c.options.no_resp_timeout) in
    if has_trace_info && ltb send_trace_info_interval timeout
    then send_trace_info_interval
    else timeout

unfoldable pub keepalive_ping : ℕ → ℕ → Conn → Conn
unfolding ping update_ping_tp
keepalive_ping now later c =
    if is_past now c.lastest_ping_tp (nanoseconds c.options.ping_interval)
    then update_ping_tp later (ping later [] c)
    else c

-- A round in READY after the trace was sent.
unfoldable pub keepalive_ready : ℕ → ℕ → Bool → Conn → Conn × KeepAlive
unfolding keepalive_ping keepalive_timeout update_reconn_tp ws_close ask set_stage
keepalive_ready now later has_trace_info traced =
    let c = keepalive_ping now later traced in
    if is_past now c.lastest_recv_tp (nanoseconds c.options.no_resp_timeout)
    then (ws_close (update_reconn_tp later 0 c), KeepAlive.goes_on)
    else if is_past now c.lastest_voice_tp (nanoseconds (c.options.conn_duration * 1000))
    then (ask Ask.closes_all (set_stage paused c), KeepAlive.goes_on)
    else (c, KeepAlive.waits_for (keepalive_timeout now has_trace_info c))

module _ (out : Outside) where
  unfoldable pub keepalive_in : Stage → ℕ → ℕ → ℕ → Conn → Conn × KeepAlive
  unfolding send_trace_info keepalive_ready
  keepalive_in closed now later wall c = (record c { keepalive_runs = false }, KeepAlive.quits)
  keepalive_in ready now later wall c =
      let traced = send_trace_info out later wall c in keepalive_ready now later traced.1 traced.0
  keepalive_in init now later wall c = (c, KeepAlive.waits)
  keepalive_in disconn now later wall c = (c, KeepAlive.waits)
  keepalive_in connecting now later wall c = (c, KeepAlive.waits)
  keepalive_in authorizing now later wall c = (c, KeepAlive.waits)
  keepalive_in paused now later wall c = (c, KeepAlive.waits)

  unfoldable pub keepalive_round : ℕ → ℕ → ℕ → Conn → Conn × KeepAlive
  unfolding keepalive_in
  keepalive_round now later wall c = keepalive_in c.stage now later wall c

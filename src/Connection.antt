-- ===== src/Connection.antt =====
-- The connection to the server, class `SpeechConnection` of src/common/speech_connection.h and
-- src/common/speech_connection.cc, built with SPEECH_STATISTIC and without ROKID_UPLOAD_TRACE.
--
-- The websocket library is outside: what the code asks of it is logged in `asked`, newest first,
-- and what it calls back (Connection/Callbacks) are later events. `close` is the last call of
-- each function that makes it, so that a callback made within it is an event right after. Time
-- points are nanoseconds of the steady clock, intervals are milliseconds, and `now` is what the
-- clock says. A condition is a counter of its notifications.
pub mod PingPayload
pub mod Auth
pub mod Callbacks
pub mod Threads
pub mod Messages
pub mod Events
pub mod Shape
pub mod Life
pub mod Closing
pub mod Signing
pub mod Timing
pub mod Delivery
pub mod Losses
use rokid_openvoice_sdk.Base.{
  ℕ, suc, ◌+◌, ◌*◌, Bool, true, false, Option, none, some, List, [], ◌∷◌, ◌++◌, if◌then◌else◌, Text,
  codes,
}
use rokid_openvoice_sdk.Trace
use rokid_openvoice_sdk.Trace.{TraceInfo}

-- `ConnectStage`.
pub data Stage : Type 0 where
  init disconn connecting authorizing ready paused closed : Stage

-- `ConnectionOpResult`.
pub data ConnectionResult : Type 0 where
  success invalid_pb_obj connection_not_available not_ready invalid_pb_data connection_broken
        timeout :
      ConnectionResult

pub data BinRespType : Type 0 where
  data_resp error_resp closed_resp : BinRespType

-- `SpeechBinaryResp`, without the length, which the bytes have.
pub record BinResp : Type 0 where
  pub tp : BinRespType
  pub bytes : Text

pub record PrepareOptions : Type 0 where
  pub host : Text
  pub port : ℕ
  pub branch : Text
  pub key : Text
  pub device_type_id : Text
  pub secret : Text
  pub device_id : Text
  pub reconn_interval : ℕ
  pub ping_interval : ℕ
  pub no_resp_timeout : ℕ
  pub conn_duration : ℕ

unfoldable pub default_options : PrepareOptions
default_options = record {
  host = codes "localhost";
  port = 80;
  branch = codes "/";
  key = [];
  device_type_id = [];
  secret = [];
  device_id = [];
  reconn_interval = 20000;
  ping_interval = 30000;
  no_resp_timeout = 45000;
  conn_duration = 7200;
}

pub data OpCode : Type 0 where
  binary_op ping_op : OpCode

-- A call of the websocket library: to connect, to send on or close a socket, to close all.
pub data Ask : Type 0 where
  connect : Text → Ask
  sends : ℕ → OpCode → Text → Ask
  closes : ℕ → Ask
  closes_all : Ask

-- `has_threads` says that `work_thread_` is not null; `work_runs` and `keepalive_runs` that the
-- thread's function has not returned.
pub record Conn : Type 0 where
  pub stage : Stage
  pub has_threads : Bool
  pub work_runs : Bool
  pub keepalive_runs : Bool
  pub socket : Option ℕ
  pub options : PrepareOptions
  pub service_type : Text
  pub reconn_timepoint : ℕ
  pub lastest_ping_tp : ℕ
  pub lastest_recv_tp : ℕ
  pub lastest_voice_tp : ℕ
  pub responses : List BinResp
  pub trace_infos : List TraceInfo
  pub stage_changed : ℕ
  pub resp_cond : ℕ
  pub asked : List Ask

-- The constructor; the time points and the options have their own defaults.
unfoldable pub new_connection : Conn
new_connection = record {
  stage = Stage.init;
  has_threads = false;
  work_runs = false;
  keepalive_runs = false;
  socket = none;
  options = default_options;
  service_type = [];
  reconn_timepoint = 0;
  lastest_ping_tp = 0;
  lastest_recv_tp = 0;
  lastest_voice_tp = 0;
  responses = [];
  trace_infos = [];
  stage_changed = 0;
  resp_cond = 0;
  asked = [];
}

abbrev pub nanoseconds : ℕ → ℕ
nanoseconds ms = ms * 1000000

abbrev pub is_stage : Stage → Stage → Bool
is_stage Stage.init Stage.init = true
is_stage Stage.disconn Stage.disconn = true
is_stage Stage.connecting Stage.connecting = true
is_stage Stage.authorizing Stage.authorizing = true
is_stage Stage.ready Stage.ready = true
is_stage Stage.paused Stage.paused = true
is_stage Stage.closed Stage.closed = true
is_stage _ _ = false

unfoldable pub update_reconn_tp : ℕ → ℕ → Conn → Conn
update_reconn_tp now ms c = record c { reconn_timepoint = now + nanoseconds ms }

unfoldable pub update_ping_tp : ℕ → Conn → Conn
update_ping_tp now c = record c { lastest_ping_tp = now }

unfoldable pub update_recv_tp : ℕ → Conn → Conn
update_recv_tp now c = record c { lastest_recv_tp = now }

unfoldable pub update_voice_tp : ℕ → Conn → Conn
update_voice_tp now c = record c { lastest_voice_tp = now }

-- `stage_ = …; stage_changed_.notify_all()`.
unfoldable pub set_stage : Stage → Conn → Conn
set_stage s c = record c { stage = s; stage_changed = suc c.stage_changed }

unfoldable pub ask : Ask → Conn → Conn
ask a c = record c { asked = a ∷ c.asked }

unfoldable pub push_resp : BinResp → Conn → Conn
push_resp r c = record c { responses = c.responses ++ r ∷ []; resp_cond = suc c.resp_cond }

unfoldable pub push_status_resp : BinRespType → Conn → Conn
unfolding push_resp
push_status_resp tp c = push_resp (record { tp = tp; bytes = [] }) c

unfoldable pub push_resp_data : Text → Conn → Conn
unfolding push_resp
push_resp_data msg c = push_resp (record { tp = BinRespType.data_resp; bytes = msg }) c

-- `if (ws_) ws_->send(…)`.
unfoldable pub send_on : Option ℕ → Text → OpCode → Conn → Conn
unfolding ask
send_on none msg op c = c
send_on (some ws) msg op c = ask (Ask.sends ws op msg) c

unfoldable pub ws_send : Text → OpCode → Conn → Conn
unfolding send_on
ws_send msg op c = send_on c.socket msg op c

-- `if (ws_) ws_->close()`.
unfoldable pub close_on : Option ℕ → Conn → Conn
unfolding ask
close_on none c = c
close_on (some ws) c = ask (Ask.closes ws) c

unfoldable pub ws_close : Conn → Conn
unfolding close_on
ws_close c = close_on c.socket c

unfoldable pub ping : ℕ → Text → Conn → Conn
unfolding ws_send
ping now payload c = record (ws_send payload OpCode.ping_op c) { lastest_ping_tp = now }

unfoldable pub initialize : PrepareOptions → Text → Conn → Conn
initialize options svc c = record c {
  options = options;
  service_type = svc;
  stage = Stage.paused;
  has_threads = true;
  work_runs = true;
  keepalive_runs = true;
}

-- `release` up to the joins, and after them.
unfoldable pub release_begin : Conn → Conn
unfolding ask set_stage
release_begin c = if c.has_threads then ask Ask.closes_all (set_stage Stage.closed c) else c

unfoldable pub release_end : Conn → Conn
unfolding push_status_resp
release_end c =
    push_status_resp BinRespType.closed_resp
      (record c { has_threads = false; responses = []; resp_cond = suc c.resp_cond })

unfoldable pub reconn : ℕ → Conn → Conn
unfolding update_reconn_tp ws_close
reconn now c = ws_close (update_reconn_tp now 0 c)

unfoldable pub add_trace : TraceInfo → Conn → Conn
unfolding Trace.add_trace_info
add_trace t c = record c { trace_infos = Trace.add_trace_info t c.trace_infos }

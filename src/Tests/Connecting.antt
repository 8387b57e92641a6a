-- ===== src/Tests/Connecting.antt =====
-- The connection on concrete input.
use rokid_openvoice_sdk.Base.{
  ℕ, ◌*◌, ◌≡◌, ◌≢◌, refl, true, false, inl, inr, Option, none, some, List, [], ◌∷◌, ◌++◌, Text,
  codes, arith, replicate, ◌-◌, ◌>>=◌,
}
use rokid_openvoice_sdk.Connection.{Conn, PrepareOptions, Stage, success, connection_not_available}
use rokid_openvoice_sdk.Connection.Auth.{Outside, sign_src, generate_sign}
use rokid_openvoice_sdk.Connection.Callbacks.{is_given_up, on_disconnection, on_message}
use rokid_openvoice_sdk.Connection.Closing.{Leaves}
use rokid_openvoice_sdk.Connection.Closing.Release.{Released, release-Released}
use rokid_openvoice_sdk.Connection.Delivery.{
  send_result-zero, send_result-timed_out, on_message-revives, trace_payload-ne,
}
use rokid_openvoice_sdk.Connection.Events.{
  Event, happen, happens, initialized, works, connected, message, keeps_alive, disconnected,
  releases, joined,
}
use rokid_openvoice_sdk.Connection.Losses.{send_buf-on_disconnection}
use rokid_openvoice_sdk.Connection.Messages.{send_buf, Wake, send_result}
use rokid_openvoice_sdk.Connection.Signing.{generate_sign-cut, sign_src-fits}
use rokid_openvoice_sdk.Connection.Threads.{
  Work, KeepAlive, work_round, keepalive_round, keepalive_ready, trace_payload,
}
use rokid_openvoice_sdk.Connection.Timing.{
  Rests, work_round-on_disconnection, keepalive_ready-Rests,
}
use rokid_openvoice_sdk.Trace.{TraceInfo}

-- A websocket's other end: the first byte of a message is the result it says.
abbrev first_byte : Text → Option ℕ
first_byte [] = none
first_byte (b ∷ bs) = some b

abbrev peer : Outside
peer = record {
  md5 = λ t. t;
  serialize_auth = λ r. some r.sign;
  parse_auth = first_byte;
  serialize_ping = λ p. some (p.req_id ∷ []);
}

abbrev options : PrepareOptions
options = record {
  host = codes "h";
  port = 443;
  branch = codes "/";
  key = codes "k";
  device_type_id = codes "t";
  secret = codes "s";
  device_id = codes "d";
  reconn_interval = 20000;
  ping_interval = 30000;
  no_resp_timeout = 45000;
  conn_duration = 7200;
}

abbrev fresh : Conn
fresh = record {
  stage = Stage.init;
  has_threads = false;
  work_runs = false;
  keepalive_runs = false;
  socket = none;
  options = options;
  service_type = [];
  reconn_timepoint = 0;
  lastest_ping_tp = 0;
  lastest_recv_tp = 0;
  lastest_voice_tp = 0;
  responses = [];
  trace_infos = [];
  stage_changed = 0;
  resp_cond = 0;
  asked = [];
}

abbrev active : Stage → Conn
active s = record fresh {
  stage = s;
  has_threads = true;
  work_runs = true;
  keepalive_runs = true;
  socket = some 7;
}

-- It connects, is authorized and gets a message.
abbrev opens : List Event
opens =
    initialized options (codes "tts")
    ∷ Event.resumes 5
    ∷ works 5
    ∷ connected 7 (codes "1")
    ∷ message (0 ∷ []) 6
    ∷ message (9 ∷ []) 7
    ∷ []

abbrev stage_of : Option Conn → Option Stage
stage_of none = none
stage_of (some c) = some c.stage

opens-ready : stage_of (happens peer opens fresh) ≡ some Stage.ready
unfolding happens
opens-ready = refl

abbrev rounds : List Event
rounds = works 8 ∷ disconnected 8 ∷ keeps_alive 8 8 8 ∷ []

release-Released_example : Leaves Released (
    happen peer releases (active Stage.ready) >>= λ began.
    happens peer rounds began >>= λ joining. happen peer joined joining)
release-Released_example =
    release-Released peer rounds (active Stage.ready) 8 8 8 8 refl (refl, (refl, (refl, tt)))
      (inl refl) (inr (inr (inl refl)))

abbrev arrivals : List (Text × ℕ)
arrivals = (1 ∷ [], 5) ∷ ([], 6) ∷ []

abbrev wake_ready : Wake
wake_ready = record { timed_out = false; stage = Stage.ready }

abbrev wake_late : Wake
wake_late = record { timed_out = true; stage = Stage.ready }

send_result-zero_example : send_result (some []) 0 Stage.disconn (wake_ready ∷ []) ≡ some success
send_result-zero_example = send_result-zero [] Stage.disconn (wake_ready ∷ [])

send_result-timed_out_example :
    send_result (some []) 10 Stage.disconn (wake_late ∷ []) ≡ some connection_not_available
send_result-timed_out_example =
    send_result-timed_out [] 10 Stage.disconn [] wake_late (omega arith) refl tt refl

on_message-revives_example :
    ((work_round 5 (active Stage.closed)).1 ≡ Work.quits)
    × ((keepalive_round peer 5 6 7 (active Stage.closed)).1 ≡ KeepAlive.quits)
    × ((work_round 5 (on_message peer Stage.authorizing (0 ∷ []) 4 (active Stage.closed))).1
        ≡ Work.runs_hub)
    × ((keepalive_round peer 5 6 7
          (on_message peer Stage.authorizing (0 ∷ []) 4 (active Stage.closed))).1
        ≢ KeepAlive.quits)
on_message-revives_example =
    on_message-revives peer (0 ∷ []) 4 5 6 7 (active Stage.closed) refl refl

abbrev info : TraceInfo
info = record { id = 3; req_tp = 5000000; resp_tp = 9000000 }

trace_payload-ne_example :
    ((trace_payload 0 info).req_tp ≢ 5)
    × ((trace_payload 0 info).req_tp ≡ 9)
    × ((trace_payload 0 info).resp_tp ≡ 0)
trace_payload-ne_example = trace_payload-ne 0 info (λ e. omega arith)

work_round-on_disconnection_example :
    ((work_round 5 (on_disconnection 4 (active Stage.authorizing))).1
      ≡ Work.waits_for (20000 * 1000000 - 1))
    × ((work_round 5 (on_disconnection 4 (active Stage.authorizing))).0.asked ≡ [])
unfolding is_given_up
work_round-on_disconnection_example =
    work_round-on_disconnection 4 5 (active Stage.authorizing) refl

keepalive_ready-Rests_example : Rests 1 true (keepalive_ready 1 2 true (active Stage.ready)).0 1000
keepalive_ready-Rests_example =
    keepalive_ready-Rests 1 2 1000 true (active Stage.ready) (omega arith) (omega arith)
      (omega arith) (unfold keepalive_ready in refl)

abbrev long_secret : Text
long_secret = replicate 55 120

generate_sign-cut_example :
    generate_sign peer [] [] [] [] [] [] (long_secret ++ codes "a")
    ≡ generate_sign peer [] [] [] [] [] [] (long_secret ++ codes "b")
generate_sign-cut_example =
    generate_sign-cut peer [] [] [] [] [] [] long_secret (codes "a") (codes "b") refl

sign_src-fits_example :
    sign_src (codes "k") (codes "t") (codes "d") [] (codes "2") (codes "1") (codes "s")
    ≡ codes "key=k&device_type_id=t&device_id=d&service=&version=2&time=1&secret=s"
sign_src-fits_example =
    sign_src-fits (codes "k") (codes "t") (codes "d") [] (codes "2") (codes "1") (codes "s")
      (omega arith) (omega arith) (omega arith) (omega arith) (omega arith) (omega arith)
      (omega arith)

send_buf-on_disconnection_example :
    ((send_buf (1 ∷ []) true 9 (on_disconnection 8 (active Stage.ready))).1 ≡ success)
    × ((send_buf (1 ∷ []) true 9 (on_disconnection 8 (active Stage.ready))).0.asked ≡ [])
send_buf-on_disconnection_example = send_buf-on_disconnection (1 ∷ []) 8 9 (active Stage.ready)

-- ===== src/Connection/Events.antt =====
-- The connection's life, of src/common/speech_connection.cc: every step that a thread or the
-- websocket library can make, in any order, each as a whole. The library calls back while there are
-- threads. `initialize` is called while there are no threads, as the clients' `prepare` sees to, and
-- the end of `release` when both have returned.
--
-- What holds no lock can also act on what it read before other steps: `late_message` and
-- `late_disconnected` on an earlier stage, and `late_sends` on a socket that it found there. The
-- other events are prompt.
use rokid_openvoice_sdk.Base.{
  ℕ, Bool, true, false, not, ◌&&◌, ◌>>=◌, Option, none, some, List, [], ◌∷◌, if◌then◌else◌, Text,
}
use rokid_openvoice_sdk.Connection
use rokid_openvoice_sdk.Connection.{
  Conn, Stage, Ask, OpCode, PrepareOptions, initialize, release_begin, release_end,
}
use rokid_openvoice_sdk.Connection.Auth.{Outside}
use rokid_openvoice_sdk.Connection.Callbacks.{
  on_connection, on_disconnection, on_disconnection_at, on_message, on_error, on_pong,
}
use rokid_openvoice_sdk.Connection.Threads.{work_round, keepalive_round}
use rokid_openvoice_sdk.Connection.Messages.{resume, send_buf, recv}
use rokid_openvoice_sdk.Trace.{TraceInfo}

pub data Event : Type 0 where
  initialized : PrepareOptions → Text → Event
  releases joined receives : Event
  reconnects works disconnected failed ponged resumes : ℕ → Event
  keeps_alive : ℕ → ℕ → ℕ → Event
  connected : ℕ → Text → Event
  message : Text → ℕ → Event
  sends : Text → Bool → ℕ → Event
  traces : TraceInfo → Event
  late_message : Stage → Text → ℕ → Event
  late_disconnected : Stage → ℕ → Event
  late_sends : Text → Event

abbrev pub is_prompt : Event → Bool
is_prompt (late_message seen msg now) = false
is_prompt (late_disconnected seen now) = false
is_prompt (late_sends buf) = false
is_prompt e = true

-- The rest of `ws_send` behind its test; `none` is a call through a null socket.
unfoldable pub send_tested : Option ℕ → Text → Conn → Option Conn
unfolding Connection.ask
send_tested none buf c = none
send_tested (some ws) buf c = some (Connection.ask (Ask.sends ws OpCode.binary_op buf) c)

unfoldable pub happen : Outside → Event → Conn → Option Conn
unfolding initialize release_begin release_end Connection.reconn work_round keepalive_round
    on_connection on_disconnection on_message on_error on_pong resume send_buf recv
    Connection.add_trace on_disconnection_at send_tested
happen out (initialized options svc) c =
    some (if c.has_threads then c else initialize options svc c)
happen out releases c = some (release_begin c)
happen out joined c =
    some (if c.has_threads && not c.work_runs && not c.keepalive_runs then release_end c else c)
happen out receives c = some ((recv {M = Text} (λ msg. some msg) c).0)
happen out (reconnects now) c = some (Connection.reconn now c)
happen out (works now) c = some (if c.work_runs then (work_round now c).0 else c)
happen out (disconnected now) c = some (if c.has_threads then on_disconnection now c else c)
happen out (failed now) c = some (if c.has_threads then on_error now c else c)
happen out (ponged now) c = some (if c.has_threads then on_pong now c else c)
happen out (resumes now) c = some (resume now c)
happen out (keeps_alive now later wall) c =
    some (if c.keepalive_runs then (keepalive_round out now later wall c).0 else c)
happen out (connected ws ts) c = if c.has_threads then on_connection out ws ts c else some c
happen out (message msg now) c =
    some (if c.has_threads then on_message out c.stage msg now c else c)
happen out (sends buf available now) c = some ((send_buf buf available now c).0)
happen out (traces t) c = some (Connection.add_trace t c)
happen out (late_message seen msg now) c =
    some (if c.has_threads then on_message out seen msg now c else c)
happen out (late_disconnected seen now) c =
    some (if c.has_threads then on_disconnection_at seen now c else c)
happen out (late_sends buf) c = send_tested c.socket buf c

unfoldable pub happens : Outside → List Event → Conn → Option Conn
unfolding happen
happens out [] c = some c
happens out (e ∷ es) c = do next ← happen out e c; happens out es next

-- ===== src/Connection/Life.antt =====
-- The connection of src/common/speech_connection.cc through any sequence of its events.
use rokid_openvoice_sdk.Base.{◌≡◌, true, List, All}
use rokid_openvoice_sdk.Connection
use rokid_openvoice_sdk.Connection.{
  Ask, close_on, send_on, BinResp, ping, PrepareOptions, nanoseconds,
}
use rokid_openvoice_sdk.Connection.Events.{Event, is_prompt}
use rokid_openvoice_sdk.Trace
use rokid_openvoice_sdk.Trace.{TraceInfo, max_pending_trace_infos, drop_oldest}

abbrev pub AllPrompt : List Event → Type 0
AllPrompt es = All (λ e. is_prompt e ≡ true) es

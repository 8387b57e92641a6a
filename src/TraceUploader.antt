-- ===== src/TraceUploader.antt =====
-- The upload of trace events, src/common/trace-uploader.cc (built with ROKID_UPLOAD_TRACE):
-- `TraceEvent`, the class `TraceUploader` and the document that `JSONGenerator` makes.
--
-- json-c and MD5 are parameters. A call of json-c that writes into an object gives the object
-- after it. A round of `run` goes from the lock, or a wait, to the next wait or to `send_request`,
-- whose result nothing looks at; the random UUID and the clock are arguments.

pub mod Document
pub mod Sends
use rokid_openvoice_sdk.Base.{
  ℕ, suc, ◌+◌, Bool, true, false, Option, none, some, List, [], ◌∷◌, ◌++◌, if◌then◌else◌, take,
  Text, codes, decimal, snprintf, is_empty,
}
use rokid_openvoice_sdk.Connection.Auth.{hex_bytes}

-- What is used of json-c, with `J` its objects; `new_int` is also `json_object_new_int64`.
pub record Json (J : Type 0) : Type 0 where
  pub new_object : J
  pub new_array : J
  pub new_string : Text → J
  pub new_int : ℕ → J
  pub object_add : Text → J → J → J
  pub array_add : J → J → J
  pub to_string : J → Text

pub record TraceEvent : Type 0 where
  pub type : ℕ
  pub id : Text
  pub name : Text
  pub kvs : List (Text × Text)

abbrev pub trace_event_type_log : ℕ
trace_event_type_log = 3

unfoldable pub new_event : TraceEvent
new_event = record { type = trace_event_type_log; id = []; name = []; kvs = [] }

unfoldable pub add_key_value : Text → Text → TraceEvent → TraceEvent
add_key_value key val ev = record ev { kvs = ev.kvs ++ (key, val) ∷ [] }

-- `device_id` and the other identities of a `JSONGenerator`; nothing sets `os_version` or
-- `master_id`.
pub record Device : Type 0 where
  pub device_id : Text
  pub device_type_id : Text
  pub os_version : Text
  pub master_id : Text

abbrev pub max_kvs : ℕ
max_kvs = 10

abbrev pub api_version : Text
api_version = codes "1.0.0"

-- `notified` counts the calls of `ev_cond.notify_one`.
pub record TraceUploader : Type 0 where
  pub device : Device
  pub trace_events : List TraceEvent
  pub working : Bool
  pub notified : ℕ

-- `TraceUploader::TraceUploader`.
unfoldable pub new_uploader : Text → Text → TraceUploader
new_uploader dev_id dev_tp_id = record {
  device = record {
    device_id = dev_id;
    device_type_id = dev_tp_id;
    os_version = [];
    master_id = [];
  };
  trace_events = [];
  working = true;
  notified = 0;
}

unfoldable pub put : TraceEvent → TraceUploader → TraceUploader
put ev u = record u { trace_events = u.trace_events ++ ev ∷ []; notified = suc u.notified }

-- The destructor, up to the join.
unfoldable pub stop : TraceUploader → TraceUploader
stop u = record u { working = false; notified = suc u.notified }

-- What a round of `run` comes to.
pub data Round : Type 0 where
  quits waits : Round
  sends : Text → Round

module _ {J : Type 0} (json : Json J) (md5 : Text → Text) where
  -- The loop of `add_event_kvs`, from index `i`.
  unfoldable pub add_kvs : ℕ → List (Text × Text) → J → J
  add_kvs i [] obj = obj
  add_kvs i ((key, val) ∷ kvs) obj =
      let named = json.object_add (snprintf 4 (codes "k" ++ decimal i)) (json.new_string key) obj in
      add_kvs (suc i) kvs
        (json.object_add (snprintf 4 (codes "v" ++ decimal i)) (json.new_string val) named)

  unfoldable pub add_event_kvs : List (Text × Text) → J → J
  unfolding add_kvs
  add_event_kvs kvs obj = add_kvs 0 (take max_kvs kvs) obj

  -- A field that is left out when it is empty.
  unfoldable pub add_optional : Text → Text → J → J
  add_optional key val obj =
      if is_empty val then obj else json.object_add key (json.new_string val) obj

  -- The object of an event.
  unfoldable pub event_object : Device → ℕ → TraceEvent → J
  unfolding add_event_kvs add_optional
  event_object dev now ev =
      let o1 = add_optional (codes "osVersion") dev.os_version json.new_object in
      let o2 = json.object_add (codes "timestamp") (json.new_int now) o1 in
      let o3 = json.object_add (codes "eventType") (json.new_int ev.type) o2 in
      let o4 = json.object_add (codes "eventId") (json.new_string ev.id) o3 in
      let o5 = json.object_add (codes "eventName") (json.new_string ev.name) o4 in
      let o6 = add_optional (codes "masterId") dev.master_id o5 in
      let o7 = json.object_add (codes "rokidId") (json.new_string dev.device_id) o6 in
      let o8 = json.object_add (codes "rokidDtId") (json.new_string dev.device_type_id) o7 in
      add_event_kvs ev.kvs o8

  -- `add_event`, on `data_array`.
  unfoldable pub add_event : Device → ℕ → TraceEvent → J → J
  unfolding event_object
  add_event dev now ev array = json.array_add (event_object dev now ev) array

  unfoldable pub sign_src : Device → Text → Text
  sign_src dev nonce =
      dev.device_id
      ++ (codes "apiVersion" ++ (api_version ++ (codes "nonce" ++ (nonce ++ dev.device_id))))

  unfoldable pub gen_sign : Device → Text → Text
  unfolding sign_src
  gen_sign dev nonce = snprintf 64 (hex_bytes (md5 (sign_src dev nonce)))

  -- `start`, on `json_root_obj`.
  unfoldable pub start : Device → Text → J
  unfolding gen_sign
  start dev uuid =
      let id = json.new_string uuid in
      let o1 = json.object_add (codes "requestId") id json.new_object in
      let o2 = json.object_add (codes "nonce") id o1 in
      let o3 = json.object_add (codes "sign") (json.new_string (gen_sign dev uuid)) o2 in
      let o4 = json.object_add (codes "signMethod") (json.new_string (codes "MD5")) o3 in
      let o5 = json.object_add (codes "apiVersion") (json.new_string api_version) o4 in
      let o6 = json.object_add (codes "eventSrc") (json.new_int 1) o5 in
      json.object_add (codes "rokidId") (json.new_string dev.device_id) o6

  unfoldable pub end : J → J → Text
  end root array = json.to_string (json.object_add (codes "data") array root)

  -- The loop of `run` that empties the queue; `clock` has the time in milliseconds at each event.
  unfoldable pub add_events : Device → (ℕ → ℕ) → ℕ → List TraceEvent → J → J
  unfolding add_event
  add_events dev clock i [] array = array
  add_events dev clock i (ev ∷ evs) array =
      add_events dev clock (suc i) evs (add_event dev (clock i) ev array)

  -- What is uploaded for the events of a round.
  unfoldable pub document : Device → (ℕ → ℕ) → Text → List TraceEvent → Text
  unfolding start add_events end
  document dev clock uuid evs = end (start dev uuid) (add_events dev clock 0 evs json.new_array)

  -- A round of `run`.
  unfoldable pub run : (ℕ → ℕ) → Text → TraceUploader → TraceUploader × Round
  unfolding document
  run clock uuid u = elim u.working [
    | false ↦ (u, quits)
    | true ↦ elim u.trace_events [
      | [] ↦ (u, waits)
      | ev ∷ evs ↦ (record u { trace_events = [] }, sends (document u.device clock uuid (ev ∷ evs)))
    ]
  ]

-- ===== src/Tests/Speaking.antt =====
-- A run of the speech client's threads, and a poll of the text to speech client.
use rokid_openvoice_sdk.Base.{ℕ, ◌≡◌, inr, refl, true, false, none, some, List, [], ◌∷◌, arith, All}
use rokid_openvoice_sdk.OpCtl.{Controller, Operation, Status}
use rokid_openvoice_sdk.Stream
use rokid_openvoice_sdk.Stream.{Queue, Out, Tag, uncompleted, voice, tag, empty, find}
use rokid_openvoice_sdk.Stream.Refine.{Refines}
use rokid_openvoice_sdk.Stream.Spec.{Stream}
use rokid_openvoice_sdk.Stream.Total.{close-Holds}
use rokid_openvoice_sdk.Trace.{Traces}
use rokid_openvoice_sdk.Tts.{
  TtsResponse, Codec, Text, Tts, TtsResultIn, success, timeout, connection_broken, cancelled_result,
  tts_success,
}
use rokid_openvoice_sdk.Tts.Polling.{result, settled, poll}
use rokid_openvoice_sdk.Tts.Poll.{poll-cancelled}
use rokid_openvoice_sdk.Speech.{Lang, VadMode, SpeechOptions, Speech, SpeechReq, voice_start}
use rokid_openvoice_sdk.Speech.Results.{Response, intermediate, finished}
use rokid_openvoice_sdk.Speech.Options.{new_modifier, set_voice_fragment}
use rokid_openvoice_sdk.Speech.Sound.{Sound}
use rokid_openvoice_sdk.Speech.Steps.{
  Step, Permits, configures, starts_voice, puts_voice, ends_voice, cancels, takes, sent, receives,
  begins_release, ends_release, steps, steps-Sound,
}

abbrev pub no_traces : Traces
no_traces = record { cur = record { id = 0; req_tp = 0; resp_tp = 0 }; pending = [] }

abbrev pub speaking : Operation
speaking = record {
  id = 1;
  status = Status.start;
  error_code = 0;
  begin_timepoint = 0;
  lastest_recv_timepoint = 0;
  calc_op_timeout = true;
}

-- One operation, current, with id 1.
abbrev pub one_op : Controller
one_op = record {
  store = λ h. speaking;
  next = 1;
  operations = 0 ∷ [];
  current = some 0;
  notified = 0;
  polled = 0;
}

abbrev pub new_speech_options : SpeechOptions
new_speech_options = record {
  lang = Lang.zh;
  codec = Codec.pcm;
  vad_mode = VadMode.local;
  vend_timeout = 0;
  vad_begin = 0;
  log_host = [];
  log_port = 0;
  voice_fragment = 2;
  no_nlp = false;
  no_intermediate_asr = false;
}

abbrev pub new_speech : Speech ℕ
new_speech = record {
  initialized = true;
  next_id = 0;
  options = new_speech_options;
  text_reqs = [];
  voice_reqs = Stream.close empty;
  responses = Stream.close empty;
  controller = one_op;
  traces = no_traces;
  req_notified = 0;
  resp_notified = 0;
}

abbrev heard : Response
heard = record {
  id = 1;
  type = finished;
  result = 0;
  asr = 5 ∷ [];
  nlp = 6 ∷ [];
  action = [];
  extra = 7 ∷ [];
  voice_trigger = [];
}

abbrev no_voice : Out Text
no_voice = record { id = 0; res = none; err = 0 }

abbrev start_req : SpeechReq ℕ
start_req = record { id = 1; type = voice_start; content = none; options = none }

-- A voice is sent and heard to its end; then a timeout, a broken connection, and the release.
abbrev run : List (Step ℕ)
run =
    starts_voice none
    ∷ configures (some (set_voice_fragment 2 new_modifier))
    ∷ puts_voice 1 (1 ∷ 2 ∷ 3 ∷ [])
    ∷ takes no_voice
    ∷ sent success start_req 10
    ∷ receives success (record heard { type = intermediate }) 20 20
    ∷ takes no_voice
    ∷ receives success heard 30 30
    ∷ ends_voice 1
    ∷ receives timeout heard 90000000000 90
    ∷ receives connection_broken heard 40 40
    ∷ cancels 0
    ∷ begins_release
    ∷ ends_release
    ∷ []

run-Permits : All Permits run
unfolding set_voice_fragment
run-Permits = (
  tt,
  ((λ e. omega arith), (tt, (tt, (tt, (tt, (tt, (tt, (tt, (tt, (tt, (tt, (tt, (tt, tt))))))))))))),
)

steps-Sound_example : (s : Speech ℕ) × (steps run new_speech ≡ some s) × Sound s
steps-Sound_example =
    steps-Sound run new_speech run-Permits (close-Holds empty, close-Holds empty, omega arith)

abbrev reply_tag : Tag TtsResultIn ℕ
reply_tag = record {
  at = 0;
  id = 1;
  kind = uncompleted;
  polling = true;
  err = 0;
  content = none;
  arg = none;
  data_count = 1;
}

abbrev pub reply : TtsResultIn
reply = record { voice = some (1 ∷ []); text = none }

abbrev pub replies : Queue TtsResultIn ℕ
replies = record {
  queue = voice (some reply) ∷ tag reply_tag ∷ [];
  tag_queue = 0 ∷ [];
  item_tags = (1, 0) ∷ [];
  next = 2;
}

abbrev pub reply_stream : Stream TtsResultIn ℕ
reply_stream = record {
  id = 1;
  kind = uncompleted;
  polling = true;
  err = 0;
  content = none;
  arg = none;
  datas = some reply ∷ [];
}

pub replies-Refines : Refines replies (reply_stream ∷ [])
unfolding find
replies-Refines = (
  record { tag_item = reply_tag; datas = some reply ∷ [] } ∷ [],
  record {
    nodes = refl;
    tags = refl;
    ids = λ i. refl;
    rising = (omega arith, omega arith);
    distinct = (refl, tt);
    quiet = (tt, tt);
  },
  refl,
)

abbrev pub cancelled_tts : Tts
cancelled_tts = record {
  initialized = true;
  next_id = 1;
  options = record { codec = Codec.mp3; declaimer = []; samplerate = 24000 };
  requests = [];
  responses = replies;
  controller = record one_op {
    store = λ h. record speaking { status = Status.cancelled };
    current = none;
  };
  traces = no_traces;
  req_notified = 0;
  resp_notified = 0;
}

poll-cancelled_example :
    (s : Tts) × (poll cancelled_tts ≡ some (s, result (settled 1 cancelled_result tts_success)))
    × (s.controller.operations ≡ [])
    × Refines s.responses []
poll-cancelled_example =
    poll-cancelled 0 [] cancelled_tts (reply_stream ∷ []) [] refl refl refl replies-Refines
      (inr (reply_stream, refl, refl))

abbrev pub speaking_tts : Tts
speaking_tts = record cancelled_tts { controller = one_op }

abbrev pub last_voice : TtsResponse
last_voice = record { id = 1; voice = some (2 ∷ []); text = none; finish = true }

-- ===== src/Tts/Run.antt =====
-- The threads of `TtsImpl` (src/tts/tts_impl.cc) together: the calls of the clients, the sending
-- thread with the request it is at, and the receiving thread, one lock of the mutexes at a time, from
-- `prepare` to `release`.
--
-- A wait on `op_cond_` is taken to end only when the operation is no longer current, as
-- `wait_op_finish` takes it: it tests the condition once, so a spurious wakeup would pass it.
-- Overtakes is about that.
pub mod Serves
pub mod Handles
pub mod Calls
pub mod Asks
pub mod Takes
pub mod Moves
pub mod Reach
pub mod Overtakes
use rokid_openvoice_sdk.Base.{
  ℕ, suc, ◌+◌, ◌<◌, ◌≡◌, Bool, true, false, Option, none, some, List, [], ◌∷◌, if◌then◌else◌, codes,
}
use rokid_openvoice_sdk.OpCtl
use rokid_openvoice_sdk.Stream
use rokid_openvoice_sdk.Trace
use rokid_openvoice_sdk.Tts.{
  Text, Codec, TtsOptions, TtsReq, TtsResponse, ConnectionResult, Tts, prepare, release_begin,
  speak, cancel,
}
use rokid_openvoice_sdk.Tts.Options.{TtsOptionsModifier, config}
use rokid_openvoice_sdk.Tts.Polling.{PollStep, poll}
use rokid_openvoice_sdk.Tts.Requests.{
  Send, quits, blocks, skips, sends, send_take, request_begun, do_request, send_waits,
}
use rokid_openvoice_sdk.Tts.Results.{gen_results}

-- Where `send_reqs` is: at its loop's head, with a request it has taken, in `send` with it, in
-- `wait_op_finish`, or out of the loop.
pub data Sender : Type 0 where
  idle gone : Sender
  taken sending waiting : TtsReq → Sender

pub record Run : Type 0 where
  pub tts : Tts
  pub sender : Sender

unfoldable pub after_take : Send → Sender
after_take quits = gone
after_take (sends req) = taken req
after_take _ = idle

unfoldable pub after_request : TtsReq → Bool → Sender
after_request req sent = if sent then waiting req else idle

-- `TtsOptionsHolder::TtsOptionsHolder`.
unfoldable pub new_options : TtsOptions
new_options = record { codec = Codec.pcm; declaimer = codes "zh"; samplerate = 24000 }

-- `TtsImpl::TtsImpl`; the time points of a clock that is not read yet are 0.
unfoldable pub new_tts : Tts
unfolding new_options
new_tts = record {
  initialized = false;
  next_id = 0;
  options = new_options;
  requests = [];
  responses = Stream.empty;
  controller = OpCtl.init;
  traces = record { cur = record { id = 0; req_tp = 0; resp_tp = 0 }; pending = [] };
  req_notified = 0;
  resp_notified = 0;
}

-- The greatest `int32_t`.
abbrev pub int_max : ℕ
int_max = 2147483647

pub data Step : Run → Run → Type 0 where
  speaks :
      (text : Text) (s : Tts) (p : Sender)
      → s.next_id < int_max
      → Step (record { tts = s; sender = p }) (record { tts = (speak text s).0; sender = p })
  cancels :
      (id : ℕ) (s : Tts) (p : Sender)
      → Step (record { tts = s; sender = p }) (record { tts = cancel id s; sender = p })
  configures :
      (m : Option TtsOptionsModifier) (s : Tts) (p : Sender)
      → Step (record { tts = s; sender = p }) (record { tts = config m s; sender = p })
  takes :
      (now : ℕ) (s : Tts)
      → Step
          (record { tts = s; sender = idle })
          (record { tts = (send_take now s).0; sender = after_take (send_take now s).1 })
  begins :
      (wall : ℕ) (req : TtsReq) (s : Tts)
      → Step
          (record { tts = s; sender = taken req })
          (record { tts = request_begun req wall s; sender = sending req })
  requests :
      (c : ConnectionResult) (now : ℕ) (req : TtsReq) (s : Tts)
      → Step
          (record { tts = s; sender = sending req })
          (record {
            tts = (do_request c now s).0;
            sender = after_request req (do_request c now s).1;
          })
  wakes :
      (req : TtsReq) (s : Tts)
      → send_waits req s ≡ false
      → Step (record { tts = s; sender = waiting req }) (record { tts = s; sender = idle })
  receives :
      (c : ConnectionResult) (resp : TtsResponse) (now wall : ℕ) (s t : Tts) (p : Sender)
      → gen_results c resp now wall s ≡ some (some t)
      → Step (record { tts = s; sender = p }) (record { tts = t; sender = p })
  polls :
      (s t : Tts) (p : Sender) (out : PollStep)
      → poll s ≡ some (t, out)
      → Step (record { tts = s; sender = p }) (record { tts = t; sender = p })
  releases :
      (s : Tts) (p : Sender)
      → Step (record { tts = s; sender = p }) (record { tts = release_begin s; sender = p })

pub data Reaches : Run → Type 0 where
  prepares : Reaches (record { tts = (prepare (new_tts)).0; sender = idle })
  goes : (r t : Run) → Reaches r → Step r t → Reaches t

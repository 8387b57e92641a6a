-- ===== src/Tts/Polling.antt =====
-- `TtsImpl::poll` (src/tts/tts_impl.cc), from the lock of `resp_mutex_` to its release or the next wait.
use rokid_openvoice_sdk.Base.{
  ℕ, true, false, ◌||◌, Option, none, some, ◌==◌, if◌then◌else◌, ◌>>=◌, ◌>>◌, assert,
}
use rokid_openvoice_sdk.OpCtl
use rokid_openvoice_sdk.OpCtl.{Controller, Status, Operation}
use rokid_openvoice_sdk.Stream
use rokid_openvoice_sdk.Stream.{
  Queue, Out, PopType, pop_empty, pop_data, pop_start, pop_end, pop_removed, pop_error,
}
use rokid_openvoice_sdk.Tts.{
  TtsResultType, voice_result, start_result, end_result, cancelled_result, error_result, TtsResult,
  Tts, tts_success, tts_unknown,
}

unfoldable pub poptype_to_restype : PopType → Option TtsResultType
poptype_to_restype pop_data = some voice_result
poptype_to_restype pop_start = some start_result
poptype_to_restype pop_end = some end_result
poptype_to_restype _ = none

unfoldable pub integer_to_reserr : ℕ → ℕ
integer_to_reserr err =
    if err == 0
      || err == 2
      || err == 3
      || err == 4
      || err == 5
      || err == 6
      || err == 101
      || err == 102
    then err
    else tts_unknown

pub data PollStep : Type 0 where
  waits released : PollStep
  result : TtsResult → PollStep

-- `responses_.erase(op->id)`, and the `pop` of what it leaves.
unfoldable pub discard : ℕ → Tts → Option Tts
discard id s = do
  (q, found) ← Stream.erase id 0 s.responses
  elim found [
    | false ↦ some (record s { responses = q })
    | true ↦ Stream.pop q (record { id = 0; res = none; err = 0 }) >>= λ (q', (out, tp)).
        assert (out.id == id) >> some (record s { responses = q' })
  ]

abbrev pub remove_front : Tts → Tts
remove_front s = record s { controller = OpCtl.remove_front_op s.controller }

abbrev pub settled : ℕ → TtsResultType → ℕ → TtsResult
settled id tp err = record { id = id; type = tp; err = err; voice = none; text = none }

-- A round of `poll` at an operation that has a stream or is to have one.
unfoldable pub poll_stream : Operation → Tts → Option (Tts × PollStep)
unfolding poptype_to_restype integer_to_reserr
poll_stream op s = do
  (q, (out, tp)) ← Stream.pop s.responses (record { id = 0; res = none; err = 0 })
  let s' = record s { responses = q }
  elim tp [
    | pop_empty ↦ some (s', waits)
    | pop_data ↦ do
      assert (out.id == op.id)
      r ← out.res
      some (
        s',
        result (record (settled out.id voice_result (integer_to_reserr out.err)) {
          voice = r.voice;
          text = r.text;
        }),
      )
    | pop_end ↦
        assert (out.id == op.id)
        >> some (remove_front s', result (settled out.id end_result (integer_to_reserr out.err)))
    | other ↦ do
      assert (out.id == op.id)
      tp' ← poptype_to_restype other
      some (s', result (settled out.id tp' (integer_to_reserr out.err)))
  ]

unfoldable pub poll_op : Status → Operation → Tts → Option (Tts × PollStep)
unfolding poll_stream discard
poll_op Status.cancelled op s = do
  s' ← discard op.id s
  some (remove_front s', result (settled op.id cancelled_result tts_success))
poll_op Status.error op s = do
  s' ← discard op.id s
  some (remove_front s', result (settled op.id error_result op.error_code))
poll_op _ op s = poll_stream op s

unfoldable pub poll : Tts → Option (Tts × PollStep)
unfolding poll_op
poll s = elim s.initialized [
  | false ↦ some (s, released)
  | true ↦ elim (OpCtl.front_op s.controller) [
    | none ↦ some (s, waits)
    | some h ↦ let op = s.controller.store h in poll_op op.status op s
  ]
]

-- ===== src/Speech/Poll.antt =====
-- `SpeechImpl::poll` (src/speech/speech_impl.cc), from the lock of `resp_mutex_` to its release or
-- the next wait.
use rokid_openvoice_sdk.Base.{
  ℕ, Bool, true, false, Option, none, some, ◌==◌, if◌then◌else◌, ◌>>=◌, ◌>>◌, assert,
}
use rokid_openvoice_sdk.OpCtl
use rokid_openvoice_sdk.OpCtl.{Operation, Status}
use rokid_openvoice_sdk.Stream
use rokid_openvoice_sdk.Stream.{
  PopType, pop_empty, pop_data, pop_start, pop_end, pop_removed, pop_error,
}
use rokid_openvoice_sdk.Speech.{ResultIn, Speech, speech_success}
use rokid_openvoice_sdk.Speech.Results.{no_result}

-- `SpeechResultType`, in its order.
pub data ResultType : Type 0 where
  inter_result start_result asr_finish_result end_result cancelled_result error_result : ResultType

pub record Result : Type 0 where
  pub id : ℕ
  pub type : ResultType
  pub err : ℕ
  pub data_in : ResultIn

pub data PollStep : Type 0 where
  waits released : PollStep
  result : Result → PollStep

unfoldable pub poptype_to_restype : PopType → Option ResultType
poptype_to_restype pop_data = some inter_result
poptype_to_restype pop_start = some start_result
poptype_to_restype pop_end = some end_result
poptype_to_restype pop_removed = some cancelled_result
poptype_to_restype pop_error = some error_result
poptype_to_restype pop_empty = none

-- `res.type >= SPEECH_RES_END`.
unfoldable pub is_last : ResultType → Bool
is_last inter_result = false
is_last start_result = false
is_last asr_finish_result = false
is_last _ = true

-- The type and the fields of a result whose data are `resin`.
unfoldable pub filled : Option ResultIn → ResultType → ResultType × ResultIn
filled none tp = (tp, no_result)
filled (some r) tp =
    (if r.asr_finish then asr_finish_result else tp, record r { asr_finish = false })

abbrev pub settled : ℕ → ResultType → ℕ → Result
settled id tp err = record { id = id; type = tp; err = err; data_in = no_result }

module _ {V : Type 0} where
  unfoldable pub discard : ℕ → Speech V → Option (Speech V)
  discard id s = do
    (q, found) ← Stream.erase id 0 s.responses
    elim found [
      | false ↦ some (record s { responses = q })
      | true ↦ Stream.pop q (record { id = 0; res = none; err = 0 }) >>= λ (q', (out, tp)).
          assert (out.id == id) >> some (record s { responses = q' })
    ]

  abbrev pub remove_front : Speech V → Speech V
  remove_front s = record s { controller = OpCtl.remove_front_op s.controller }

  -- A round at an operation that has a stream or is to have one.
  unfoldable pub poll_stream : Operation → Speech V → Option (Speech V × PollStep)
  unfolding poptype_to_restype is_last filled
  poll_stream op s = do
    (q, (out, tp)) ← Stream.pop s.responses (record { id = 0; res = none; err = 0 })
    let s' = record s { responses = q }
    elim tp [
      | pop_empty ↦ some (s', waits)
      | other ↦ do
        assert (out.id == op.id)
        popped ← poptype_to_restype other
        let (type, r) = filled out.res popped
        some (
          if is_last type then remove_front s' else s',
          result (record (settled out.id type out.err) { data_in = r }),
        )
    ]

  unfoldable pub poll_op : Status → Operation → Speech V → Option (Speech V × PollStep)
  unfolding discard poll_stream
  poll_op Status.cancelled op s = do
    s' ← discard op.id s
    some (remove_front s', result (settled op.id cancelled_result speech_success))
  poll_op Status.error op s = do
    s' ← discard op.id s
    some (remove_front s', result (settled op.id error_result op.error_code))
  poll_op _ op s = poll_stream op s

  unfoldable pub poll : Speech V → Option (Speech V × PollStep)
  unfolding poll_op
  poll s = elim s.initialized [
    | false ↦ some (s, released)
    | true ↦ elim (OpCtl.front_op s.controller) [
      | none ↦ some (s, waits)
      | some h ↦ let op = s.controller.store h in poll_op op.status op s
    ]
  ]

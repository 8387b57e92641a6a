-- ===== src/Tests/Waiting.antt =====
-- The blocking queues on concrete input.
use rokid_openvoice_sdk.Base.{ℕ, ◌≡◌, ◌↔◌, true, false, none, some, List, [], ◌∷◌, ◌>>=◌}
use rokid_openvoice_sdk.Pending.{PendingQueue, poll_take, poll_waits}
use rokid_openvoice_sdk.Pending.Order.{polls, poll_take-none_iff}
use rokid_openvoice_sdk.PendingStream
use rokid_openvoice_sdk.PendingStream.{
  PendingStreamQueue, Call, starts, ends, streams, erases, closes, polls_again, calls,
}
use rokid_openvoice_sdk.PendingStream.Calls.{Meets, spec_calls, calls-Meets}
use rokid_openvoice_sdk.PendingStream.Signals.{Quiet, feeds-Quiet}
use rokid_openvoice_sdk.Stream.{Out}

abbrev open_queue : PendingQueue ℕ
open_queue = record { queue = []; closed = false; signalled = 0 }

abbrev early : List (ℕ × ℕ)
early = (1, 10) ∷ (2, 20) ∷ []

abbrev late : List (ℕ × ℕ)
late = (3, 30) ∷ []

poll_take-none_iff_example : (poll_take open_queue ≡ none) ↔ (poll_waits open_queue ≡ true)
poll_take-none_iff_example = poll_take-none_iff open_queue

abbrev nothing : Out ℕ
nothing = record { id = 0; res = none; err = 0 }

-- Two streams, of which one is erased, read and closed.
abbrev some_calls : List (Call ℕ)
some_calls =
    PendingStream.polls nothing
    ∷ starts 1
    ∷ polls_again nothing
    ∷ streams 1 (some 7)
    ∷ starts 2
    ∷ erases 2 0
    ∷ ends 1
    ∷ PendingStream.polls nothing
    ∷ closes
    ∷ polls_again nothing
    ∷ []

calls-Meets_example :
    Meets {T = ℕ} {A = ℕ} (calls some_calls PendingStream.empty) (spec_calls some_calls ([], false))
calls-Meets_example = calls-Meets some_calls

abbrev quiet_queue : PendingStreamQueue ℕ ℕ
quiet_queue = PendingStream.empty

feeds-Quiet_example :
    Quiet quiet_queue (some (PendingStream.start 1 quiet_queue).0)
    × Quiet quiet_queue (PendingStream.stream 1 (some 7) quiet_queue)
    × Quiet quiet_queue (PendingStream.end 1 quiet_queue)
    × Quiet quiet_queue (PendingStream.erase 1 0 quiet_queue >>= λ (q', b). some q')
feeds-Quiet_example = feeds-Quiet 1 0 (some 7) quiet_queue

-- ===== src/Tests/Streams.antt =====
-- A `StreamQueue` (src/common/pending_queue.h) with one completed stream, and some calls.
use rokid_openvoice_sdk.Base.{
  ◌>>=◌, ℕ, ◌≡◌, ◌≢◌, ◌↔◌, refl, Bool, true, false, none, some, List, [], ◌∷◌, arith,
}
use rokid_openvoice_sdk.Stream
use rokid_openvoice_sdk.Stream.{
  pop_tag, pop_live, new_tag, deref, assign, insert_before, more_data, complete, seek, strip,
  mark_erased, less_data, at_begin, front_data, retire, or_keep, start, stream, end, erase,
  pop_data, Queue, Out, Tag, completed, voice, tag, empty, find, available, pop, pop_start,
  pop_data, pop_end, pop_empty, pop_removed, start, stream, end, erase,
}
use rokid_openvoice_sdk.Stream.Spec.{Stream}
use rokid_openvoice_sdk.Stream.Refine.{Refines, Simulates}
use rokid_openvoice_sdk.Stream.History.{
  Call, starts, streams, ends, erases, pops, popped, flag, call, calls, spec_calls, calls-Simulates,
}
use rokid_openvoice_sdk.Stream.Protocol.{
  pops_of, data_results, erased_result, pops_of-completed, erases-pops, erases-ends_revives,
  available_iff,
}

abbrev nothing : Out ℕ
nothing = record { id = 0; res = none; err = 0 }

abbrev some_calls : List (Call ℕ ℕ)
some_calls =
    starts 1
    ∷ streams 1 (some 7)
    ∷ ends 1 (some 9)
    ∷ starts 2
    ∷ streams 2 (some 8)
    ∷ erases 2 103
    ∷ pops nothing
    ∷ pops nothing
    ∷ []

calls-Simulates_example : Simulates (calls some_calls empty) (spec_calls some_calls [])
calls-Simulates_example = calls-Simulates some_calls

abbrev first_tag : Tag ℕ ℕ
first_tag = record {
  at = 0;
  id = 1;
  kind = completed;
  polling = false;
  err = 0;
  content = some 9;
  arg = none;
  data_count = 2;
}

abbrev ready : Queue ℕ ℕ
ready = record {
  queue = voice (some 7) ∷ voice (some 8) ∷ tag first_tag ∷ [];
  tag_queue = 0 ∷ [];
  item_tags = (1, 0) ∷ [];
  next = 3;
}

abbrev ready_stream : Stream ℕ ℕ
ready_stream = record {
  id = 1;
  kind = completed;
  polling = false;
  err = 0;
  content = some 9;
  arg = none;
  datas = some 7 ∷ some 8 ∷ [];
}

ready-Refines : Refines ready (ready_stream ∷ [])
unfolding find
ready-Refines = (
  record { tag_item = first_tag; datas = some 7 ∷ some 8 ∷ [] } ∷ [],
  record {
    nodes = refl;
    tags = refl;
    ids = λ i. refl;
    rising = (omega arith, omega arith);
    distinct = (refl, tt);
    quiet = (tt, tt);
  },
  refl,
)

pops_of-completed_example : Simulates (calls (pops_of 4) ready) (
  [],
  popped (record { id = 1; res = none; err = 0 }, pop_start)
      ∷ data_results 1 (some 9) (some 7 ∷ some 8 ∷ []),
)
pops_of-completed_example = pops_of-completed ready ready_stream [] ready-Refines refl refl

erases-pops_example :
    Simulates
      (calls (erases 1 103 ∷ pops nothing ∷ []) ready)
      ([], flag true ∷ popped (erased_result 1 103 nothing) ∷ [])
erases-pops_example = erases-pops ready ready_stream [] 103 nothing ready-Refines

erases-ends_revives_example : Simulates (calls (erases 1 0 ∷ ends 1 none ∷ pops_of 2) ready) (
  [],
  flag true
      ∷ flag true
      ∷ popped (record { id = 1; res = none; err = 0 }, pop_start)
      ∷ popped (record { id = 1; res = none; err = 0 }, pop_end)
      ∷ [],
)
erases-ends_revives_example = erases-ends_revives ready ready_stream [] ready-Refines refl

available_iff_example :
    (b : Bool) × (q : Queue ℕ ℕ) × (r : Out ℕ × Stream.PopType) × (available ready ≡ some b)
    × (pop ready nothing ≡ some (q, r))
    × ((b ≡ true) ↔ (r.1 ≢ pop_empty))
available_iff_example = available_iff ready (ready_stream ∷ []) nothing ready-Refines

-- The replies to the calls above, one by one.
some_replies :
    (calls some_calls empty >>= λ (q, rs). some rs)
    ≡ some (
        flag true
        ∷ flag true
        ∷ flag true
        ∷ flag true
        ∷ flag true
        ∷ flag true
        ∷ popped (record { id = 1; res = none; err = 0 }, pop_start)
        ∷ popped (record { id = 1; res = some 7; err = 0 }, pop_data)
        ∷ [])
unfolding calls call empty start stream end erase pop pop_tag pop_live find new_tag deref assign
    insert_before more_data complete seek strip mark_erased less_data at_begin front_data retire
    or_keep
some_replies = refl

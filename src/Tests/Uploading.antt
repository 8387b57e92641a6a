-- ===== src/Tests/Uploading.antt =====
-- The upload of trace events on concrete input.
use rokid_openvoice_sdk.Base.{◌≡◌, refl, List, [], ◌∷◌, ◌++◌, Text, codes, decimal}
use rokid_openvoice_sdk.TraceUploader.{
  Json, TraceEvent, TraceUploader, new_event, add_key_value, new_uploader, run, put, stop,
}
use rokid_openvoice_sdk.TraceUploader.Sends.{
  Step, puts, rounds, stops, steps, put_events, Uploads, steps-Uploads,
}

-- Objects that are the text of what was put into them.
abbrev plain : Json Text
plain = record {
  new_object = [];
  new_array = [];
  new_string = λ t. t;
  new_int = decimal;
  object_add = λ key val obj. obj ++ (key ++ (codes ":" ++ (val ++ codes ";")));
  array_add = λ val array. array ++ (codes "[" ++ (val ++ codes "]"));
  to_string = λ t. t;
}

abbrev woken : TraceEvent
woken = add_key_value (codes "power") (codes "3") (record new_event { id = codes "wake" })

abbrev uploader : TraceUploader
uploader = new_uploader (codes "d") (codes "t")

abbrev some_steps : List Step
some_steps =
    rounds (λ i. 5) (codes "u1")
    ∷ puts woken
    ∷ puts new_event
    ∷ rounds (λ i. 6) (codes "u2")
    ∷ puts woken
    ∷ stops
    ∷ rounds (λ i. 7) (codes "u3")
    ∷ []

steps-Uploads_example :
    Uploads plain
      (λ t. t)
      uploader.device
      (uploader.trace_events ++ put_events some_steps)
      (steps plain (λ t. t) some_steps uploader)
steps-Uploads_example = steps-Uploads plain (λ t. t) some_steps uploader

-- The event that is put last stays behind.
lost_event : (steps plain (λ t. t) some_steps uploader).0.trace_events ≡ woken ∷ []
unfolding steps new_uploader add_key_value new_event run stop put
lost_event = refl

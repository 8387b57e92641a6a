-- ===== src/Tests/Clients.antt =====
-- The operation controller, the encoder, the traces and the two clients on concrete input.
use rokid_openvoice_sdk.Base.{
  ℕ, suc, Bool, subst, length, ◌<◌, ◌≤◌, ◌≡◌, refl, true, Option, none, some, List, [], ◌∷◌, ◌==◌,
  ltb, false, if◌then◌else◌, arith,
}
use rokid_openvoice_sdk.OpCtl.{Controller, Operation, Status}
use rokid_openvoice_sdk.Opus.{Encoded, encode}
use rokid_openvoice_sdk.Opus.Buffer.{Bounded, Within, encode-Within}
use rokid_openvoice_sdk.Opus.Failure.{encode-second_fails}
use rokid_openvoice_sdk.Trace.{Traces, finish_cur_req, Adds, finish_cur_req_reported}
use rokid_openvoice_sdk.Tts.{Codec, Text}
use rokid_openvoice_sdk.Speech.Voice.{fragments, concat, Fits, fragments-Fits, fragments-zero}

abbrev waiting : Operation
waiting = record {
  id = 1;
  status = Status.streaming;
  error_code = 0;
  begin_timepoint = 0;
  lastest_recv_timepoint = 0;
  calc_op_timeout = true;
}

abbrev waits_long : Controller
waits_long = record {
  store = λ h. waiting;
  next = 1;
  operations = 0 ∷ [];
  current = some 0;
  notified = 0;
  polled = 0;
}

abbrev advance : ℕ → List ℕ → ℕ
advance s frame = suc s

abbrev payload : ℕ → List ℕ → List ℕ
payload s frame = s ∷ frame

-- A libopus that fails when it has less than 3 bytes.
abbrev opus : ℕ → List ℕ → ℕ → ℕ × Option (List ℕ)
opus s frame area = if ltb area 3 then (s, none) else (advance s frame, some (payload s frame))

-- A libopus with packets of 2 bytes, which refuses a smaller or a negative area.
abbrev answer : Bool → Bool → ℕ → ℕ × Option (List ℕ)
answer true c s = (s, none)
answer false true s = (suc s, some (s ∷ 9 ∷ []))
answer false false s = (s, none)

abbrev careful : ℕ → List ℕ → ℕ → ℕ × Option (List ℕ)
careful s frame area = answer (ltb area 2) (ltb area 2147483648) s

careful-Bounded : Bounded careful
careful-Bounded s frame area bytes e = go (ltb area 2) (ltb area 2147483648) refl refl e
  where
    go :
        (b c : Bool)
        → ltb area 2 ≡ b
        → ltb area 2147483648 ≡ c
        → (answer b c s).1 ≡ some bytes
        → (length bytes ≤ area) × (area < 2147483648)
    go true c p q h = cc
    go false false p q h = cc
    go false true p q h =
        let l : s ∷ 9 ∷ [] ≡ bytes = cc in
        (subst (λ x. length x ≤ area) l (ground arith), ground arith)

encode-Within_example : Within (
    encode careful 9
      (record { codec = some 0; pcm_frame_size = 2; remain = 4 ∷ [] })
      (5 ∷ 6 ∷ 7 ∷ 8 ∷ []))
encode-Within_example =
    encode-Within careful 9 (record { codec = some 0; pcm_frame_size = 2; remain = 4 ∷ [] })
      (5 ∷ 6 ∷ 7 ∷ 8 ∷ []) careful-Bounded (omega arith) (omega arith)

-- A libopus that refuses every frame after its first.
abbrev refuses : ℕ → List ℕ → ℕ → ℕ × Option (List ℕ)
refuses s frame room = if s == 0 then (1, some (9 ∷ [])) else (s, none)

encode-second_fails_example :
    (r : Encoded ℕ) × (encode refuses 2
        (record { codec = some 0; pcm_frame_size = 2; remain = [] })
        (4 ∷ 5 ∷ 6 ∷ 7 ∷ [])
      ≡ some r)
    × (r.buffer ≡ none)
    × (r.enc_size ≡ 2)
encode-second_fails_example =
    encode-second_fails refuses 0 2 0 (4 ∷ 5 ∷ 6 ∷ 7 ∷ []) (9 ∷ []) (omega arith) (omega arith) refl
      refl

abbrev traced : Traces
traced = record { cur = record { id = 3; req_tp = 10; resp_tp = 0 }; pending = [] }

finish_cur_req_reported_example :
    Adds (record traced.cur { resp_tp = 20 }) traced.pending (finish_cur_req 20 traced).pending
    × (finish_cur_req 30 (finish_cur_req 20 traced) ≡ finish_cur_req 20 traced)
finish_cur_req_reported_example =
    finish_cur_req_reported 20 30 traced (λ e. omega arith) (omega arith)

fragments-Fits_example :
    (fs : List Text) × (fragments 6 Codec.pcm 2 (1 ∷ 2 ∷ 3 ∷ 4 ∷ 5 ∷ []) ≡ some fs)
    × (concat fs ≡ 1 ∷ 2 ∷ 3 ∷ 4 ∷ 5 ∷ [])
    × Fits Codec.pcm 2 fs
fragments-Fits_example =
    fragments-Fits 6 Codec.pcm 2 (1 ∷ 2 ∷ 3 ∷ 4 ∷ 5 ∷ []) (omega arith) (omega arith)

fragments-zero_example : fragments 100 Codec.pcm 0 (1 ∷ 2 ∷ []) ≡ none
fragments-zero_example = fragments-zero 100 1 (2 ∷ [])

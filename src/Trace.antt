-- ===== src/Trace.antt =====
-- The traces of finished requests (built with SPEECH_STATISTIC): `cur_trace_info_` of
-- src/speech/speech_impl.cc and src/tts/tts_impl.cc, and `SpeechConnection::add_trace_info` of
-- src/common/speech_connection.cc. Time points are numbers.
use rokid_openvoice_sdk.Base.{
  ℕ, ◌≤◌, ◌≡◌, ◌≢◌, ◌⊎◌, List, [], ◌∷◌, ◌++◌, ltb, ◌==◌, if◌then◌else◌, Bool-cases, inl, inr, refl,
  length, length-append, arith,
}

pub record TraceInfo : Type 0 where
  pub id : ℕ
  pub req_tp : ℕ
  pub resp_tp : ℕ

abbrev pub max_pending_trace_infos : ℕ
max_pending_trace_infos = 128

unfoldable pub drop_oldest : List TraceInfo → List TraceInfo
drop_oldest [] = []
drop_oldest (t ∷ ts) = ts

unfoldable pub add_trace_info : TraceInfo → List TraceInfo → List TraceInfo
unfolding drop_oldest
add_trace_info t ts =
    let all = ts ++ t ∷ [] in
    if ltb max_pending_trace_infos (length all) then drop_oldest all else all

-- The trace of the current request, and those that wait to be sent.
pub record Traces : Type 0 where
  pub cur : TraceInfo
  pub pending : List TraceInfo

unfoldable pub begin_req : ℕ → ℕ → Traces → Traces
begin_req id now t = record t { cur = record t.cur { id = id; req_tp = now } }

unfoldable pub finish_cur_req : ℕ → Traces → Traces
unfolding add_trace_info
finish_cur_req now t = if t.cur.id == 0 then t else record {
  cur = record t.cur { id = 0; resp_tp = now };
  pending = add_trace_info (record t.cur { resp_tp = now }) t.pending;
}

pub add_trace_info-length :
    (t : TraceInfo) (ts : List TraceInfo)
    → length ts ≤ max_pending_trace_infos
    → length (add_trace_info t ts) ≤ max_pending_trace_infos
unfolding add_trace_info
add_trace_info-length t [] h = omega arith
add_trace_info-length t (u ∷ ts) h = ground (arith, length-append ts (t ∷ []))

-- A list with one more at its end, and without its first if it had 128.
abbrev pub Adds : TraceInfo → List TraceInfo → List TraceInfo → Type 0
Adds t ts us =
    (kept : List TraceInfo) × (us ≡ kept ++ t ∷ [])
    × (length kept ≤ 127)
    × ((ts ≡ kept) ⊎ ((oldest : TraceInfo) × (ts ≡ oldest ∷ kept) × (length ts ≡ 128)))

-- A trace that is added comes last; the oldest makes way when 128 wait.
add_trace_info-Adds :
    (t : TraceInfo) (ts : List TraceInfo) → length ts ≤ 128 → Adds t ts (add_trace_info t ts)
unfolding add_trace_info
add_trace_info-Adds t [] h = ([], refl, omega arith, inl refl)
add_trace_info-Adds t (u ∷ ts) h = elim (Bool-cases (ltb 128 (length ((u ∷ ts) ++ t ∷ [])))) [
  | inl e ↦ simp e (
    ts,
    refl,
    ground (arith, length-append ts (t ∷ [])),
    inr (u, refl, ground (arith, length-append ts (t ∷ []))),
  )
  | inr e ↦ simp e (u ∷ ts, refl, ground (arith, length-append ts (t ∷ [])), inl refl)
]

-- When there is a current request and at most 128 traces wait, `finish_cur_req` adds its trace, with
-- the time of the answer, behind those that wait, at most 127, of which only the oldest of 128 is
-- missing; a second call, whenever it is, changes nothing.
pub finish_cur_req_reported :
    (now later : ℕ) (t : Traces)
    → t.cur.id ≢ 0
    → length t.pending ≤ 128
    → Adds (record t.cur { resp_tp = now }) t.pending (finish_cur_req now t).pending
      × (finish_cur_req later (finish_cur_req now t) ≡ finish_cur_req now t)
unfolding finish_cur_req
finish_cur_req_reported now later t n h = elim (Bool-cases (t.cur.id == 0)) [
  | inl e ↦ absurd (ground arith)
  | inr e ↦ rw e (add_trace_info-Adds (record t.cur { resp_tp = now }) t.pending h, refl)
]

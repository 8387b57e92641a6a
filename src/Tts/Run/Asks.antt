-- ===== src/Tts/Run/Asks.antt =====
-- The requests of the clients of `TtsImpl` (src/tts/tts_impl.cc), `speak` and `cancel`, as steps of the
-- client.
use rokid_openvoice_sdk.Base.{
  ℕ, ◌<◌, inl, inr, Bool, true, false, not, List, [], ◌∷◌, ◌++◌, ◌==◌, ◌||◌, if◌then◌else◌,
  Bool-cases, is_positive, add32, arith,
}
use rokid_openvoice_sdk.OpCtl
use rokid_openvoice_sdk.OpCtl.{Status, Operation, Controller, write}
use rokid_openvoice_sdk.OpCtl.Cancel.{cancel_op-WellFormed}
use rokid_openvoice_sdk.OpCtl.Invariant.{WellFormed}
use rokid_openvoice_sdk.OpCtl.Relaxes.{Relaxes, Relaxes-refl, cancel_op-Relaxes}
use rokid_openvoice_sdk.Tts.{Tts, TtsReq, Text, speak, cancel, mark_deleted}
use rokid_openvoice_sdk.Tts.Run.{int_max}
use rokid_openvoice_sdk.Tts.Run.Serves.{Ascends, Serves, Serves-refl}
use rokid_openvoice_sdk.Tts.Track.Reports.{Tracked}

-- `speak`: the new id is above those of the requests that wait.
Ascends-append :
    (m top : ℕ) (rs : List TtsReq) (r : TtsReq)
    → top < r.id
    → Ascends m rs top
    → Ascends m (rs ++ r ∷ []) r.id
Ascends-append m top [] r l a = (omega (arith, l, a), omega arith)
Ascends-append m top (x ∷ xs) r l (b, a) = (b, Ascends-append x.id top xs r l a)

Ascends-mark_deleted :
    (id m top : ℕ) (rs : List TtsReq) → Ascends m rs top → Ascends m (mark_deleted id rs).0 top
unfolding mark_deleted
Ascends-mark_deleted id m top [] a = a
Ascends-mark_deleted id m top (r ∷ rs) (b, a) =
    elim (Bool-cases (not (is_positive id) || r.id == id)) [
      | inl e ↦ simp e (b, Ascends-mark_deleted id r.id top rs a)
      | inr e ↦ simp e (b, Ascends-mark_deleted id r.id top rs a)
    ]

pub speak-Serves :
    (text : Text) (s : Tts)
    → s.next_id < int_max
    → WellFormed s.controller
    → Serves s (speak text s).0
unfolding speak
speak-Serves text s l w = elim (Bool-cases s.initialized) [
  | inr e ↦ simp e (Serves-refl s w)
  | inl e ↦ simp e (record {
    well = w;
    relaxes = Relaxes-refl s.controller;
    ascends = λ m a.
        Ascends-append m s.next_id s.requests
          (record { id = add32 s.next_id 1; deleted = false; text = text }) (omega arith) a;
  })
]

pub speak-Tracked : (text : Text) (s : Tts) → Tracked s → Tracked (speak text s).0
unfolding speak
speak-Tracked text s k = elim (Bool-cases s.initialized) [ inl e ↦ simp e k | inr e ↦ simp e k ]

cancelled_well :
    (a b : Bool) (id : ℕ) (c : Controller)
    → WellFormed c
    → let d = if a then OpCtl.cancel_op 0 c else if b then OpCtl.cancel_op id c else c in
      WellFormed d × Relaxes c d
cancelled_well true b id c w = (cancel_op-WellFormed 0 c w, cancel_op-Relaxes 0 c)
cancelled_well false true id c w = (cancel_op-WellFormed id c w, cancel_op-Relaxes id c)
cancelled_well false false id c w = (w, Relaxes-refl c)

pub cancel-Serves : (id : ℕ) (s : Tts) → WellFormed s.controller → Serves s (cancel id s)
unfolding cancel
cancel-Serves id s w = elim (Bool-cases s.initialized) [
  | inr e ↦ simp e (Serves-refl s w)
  | inl e ↦
      let (v, r) =
        cancelled_well (not (is_positive id)) (not (mark_deleted id s.requests).1) id s.controller
          w in
      simp e (record {
        well = v;
        relaxes = r;
        ascends = λ m a. Ascends-mark_deleted id m s.next_id s.requests a;
      })
]

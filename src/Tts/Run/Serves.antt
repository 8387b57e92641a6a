-- ===== src/Tts/Run/Serves.antt =====
-- What holds between the calls and the threads of `TtsImpl` (src/tts/tts_impl.cc).
use rokid_openvoice_sdk.Base.{ℕ, ◌<◌, ◌≤◌, ◌≡◌, sym, subst, true, some, List, [], ◌∷◌}
use rokid_openvoice_sdk.OpCtl.Invariant.{is_live, In, WellFormed}
use rokid_openvoice_sdk.OpCtl.Relaxes.{Relaxes, Relaxes-refl, Relaxes-trans}
use rokid_openvoice_sdk.Tts.{Tts, TtsReq}
use rokid_openvoice_sdk.Tts.Run.{Sender, idle, gone, taken, sending, waiting, Run}
use rokid_openvoice_sdk.Tts.Track.Reports.{Tracked}

-- The sending thread is at the request of this id.
abbrev pub At : Sender → ℕ → Type 0
At idle id = ⊥
At gone id = ⊥
At (taken req) id = id ≡ req.id
At (sending req) id = id ≡ req.id
At (waiting req) id = id ≡ req.id

-- The ids of the requests ascend, from above `m` to at most `top`.
abbrev pub Ascends : ℕ → List TtsReq → ℕ → Type 0
Ascends m [] top = m ≤ top
Ascends m (r ∷ rs) top = (m < r.id) × Ascends r.id rs top

-- The ids of the operations are at most `m`, and those of the requests that wait come after it.
abbrev pub Ordered : Tts → Type 0
Ordered s =
    (m : ℕ) × ((h : ℕ) → In h s.controller.operations → (s.controller.store h).id ≤ m)
    × Ascends m s.requests s.next_id

-- The controller is well formed, its streams of responses match its operations, the current one is
-- live and is that of the request which the sending thread is at, and ids are given in order.
pub record Sane (r : Run) : Type 0 where
  pub well : WellFormed r.tts.controller
  pub tracked : Tracked r.tts
  pub live :
      (h : ℕ) → r.tts.controller.current ≡ some h → is_live (r.tts.controller.store h).status ≡ true
  pub busy : (h : ℕ) → r.tts.controller.current ≡ some h → At r.sender (r.tts.controller.store h).id
  pub ordered : Ordered r.tts

-- A step that opens no operation and reports none.
pub record Serves (s t : Tts) : Type 0 where
  pub well : WellFormed t.controller
  pub relaxes : Relaxes s.controller t.controller
  pub ascends : (m : ℕ) → Ascends m s.requests s.next_id → Ascends m t.requests t.next_id

pub Serves-refl : (s : Tts) → WellFormed s.controller → Serves s s
Serves-refl s w = record { well = w; relaxes = Relaxes-refl s.controller; ascends = λ m a. a }

pub Serves-trans : (s t u : Tts) → Serves s t → Serves t u → Serves s u
Serves-trans s t u p q = record {
  well = q.well;
  relaxes = Relaxes-trans s.controller t.controller u.controller p.relaxes q.relaxes;
  ascends = λ m a. q.ascends m (p.ascends m a);
}

pub Serves-Ordered : (s t : Tts) → Serves s t → Ordered s → Ordered t
Serves-Ordered s t v (m, below, a) = (
  m,
  (λ h i.
      subst (λ x. x ≤ m) (sym (v.relaxes.ids h))
        (below h (subst (λ hs. In h hs) v.relaxes.kept i))),
  v.ascends m a,
)

-- The client after such a step, when the sending thread is at the same request.
pub Serves-Sane :
    (s t : Tts) (p q : Sender)
    → Serves s t
    → Tracked t
    → ((id : ℕ) → At p id → At q id)
    → Sane (record { tts = s; sender = p })
    → Sane (record { tts = t; sender = q })
Serves-Sane s t p q v k move w = record {
  well = v.well;
  tracked = k;
  live = λ h e. v.relaxes.still h e (w.live h (v.relaxes.was h e));
  busy = λ h e. subst (At q) (sym (v.relaxes.ids h)) (move _ (w.busy h (v.relaxes.was h e)));
  ordered = Serves-Ordered s t v w.ordered;
}

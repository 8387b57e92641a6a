-- ===== src/Connection/Closing/Release.antt =====
-- `release` of src/common/speech_connection.cc ends: both threads return.
use rokid_openvoice_sdk.Base.{
  ℕ, ◌≡◌, refl, subst, sym, Bool, true, false, not, ◌&&◌, Option, none, some, List, [], ◌∷◌,
  if◌then◌else◌, Text, Bool-cases, inl, inr, ◌>>=◌, ◌∙◌,
}
use rokid_openvoice_sdk.Connection
use rokid_openvoice_sdk.Connection.{
  Conn, Stage, init, disconn, connecting, authorizing, ready, paused, closed, is_stage, ask,
  release_begin, release_end, ws_close, ws_send, close_on, send_on, set_stage, update_reconn_tp,
  OpCode, not_ready,
}
use rokid_openvoice_sdk.Connection.Auth.{Outside}
use rokid_openvoice_sdk.Connection.Threads.{work_round, keepalive_round}
use rokid_openvoice_sdk.Connection.Messages.{recv, recv_first}
use rokid_openvoice_sdk.Connection.Events.{
  Event, happen, happens, releases, joined, works, keeps_alive,
}
use rokid_openvoice_sdk.Connection.Closing.{
  AllBetween, Occurs, Stays, Leaves, Leaves-bind, Leaves-and, same, happen-Closes, work_closed,
  keepalive_closed,
}

-- Both threads have returned, and `work_thread_` is what it was.
abbrev pub Returned : Bool → Conn → Type 0
Returned h d =
    (d.stage ≡ closed) × (d.has_threads ≡ h) × (d.work_runs ≡ false) × (d.keepalive_runs ≡ false)

-- After `release`: no threads, and whoever calls `recv` next is told NOT_READY.
abbrev pub Released : Conn → Type 0
Released d =
    (d.has_threads ≡ false)
    × (d.work_runs ≡ false)
    × (d.keepalive_runs ≡ false)
    × ((parse : Text → Option Text) → (recv parse d).1 ≡ (not_ready, none))

module _ (out : Outside) where
  works-Returns :
      (now : ℕ) (c : Conn)
      → c.stage ≡ closed
      → Leaves (λ d. d.work_runs ≡ false) (happen out (works now) c)
  unfolding happen work_round
  works-Returns now c e = elim (Bool-cases c.work_runs) [
    | inl w ↦ simp w (rw (work_closed c.stage now c e) refl)
    | inr w ↦ simp w refl
  ]

  keeps_alive-Returns :
      (now later wall : ℕ) (c : Conn)
      → c.stage ≡ closed
      → Leaves (λ d. d.keepalive_runs ≡ false) (happen out (keeps_alive now later wall) c)
  unfolding happen keepalive_round
  keeps_alive-Returns now later wall c e = elim (Bool-cases c.keepalive_runs) [
    | inl w ↦ simp w (rw (keepalive_closed out c.stage now later wall c e) refl)
    | inr w ↦ simp w refl
  ]

  happens-Stays :
      (es : List Event) (c : Conn)
      → AllBetween es
      → c.stage ≡ closed
      → Leaves (Stays c) (happens out es c)
  unfolding happens
  happens-Stays [] c b e = same c e
  happens-Stays (x ∷ es) c b e =
      Leaves-bind (Stays c) (Stays c) (happen out x c) _ (happen-Closes out x c b.0 e)
        (λ d stays. onwards d stays (happens out es d) (happens-Stays es d b.1 stays.0))
    where
      onwards : (d : Conn) → Stays c d → (m : Option Conn) → Leaves (Stays d) m → Leaves (Stays c) m
      onwards d (s, h, w, k) none p = p
      onwards d (s, h, w, k) (some d') (s', h', w', k') =
          (s', h' ∙ h, (λ f. w' (w f)), λ f. k' (k f))

  -- An event that makes a thread return, at some place of the sequence.
  happens-Returns :
      (x : Event) (P : Conn → Type 0) (es : List Event) (c : Conn)
      → ((d : Conn) → d.stage ≡ closed → Leaves P (happen out x d))
      → ((d d' : Conn) → Stays d d' → P d → P d')
      → AllBetween es
      → Occurs x es
      → c.stage ≡ closed
      → Leaves P (happens out es c)
  unfolding happens
  happens-Returns x P (y ∷ es) c r k b (inl i) e =
      Leaves-bind (λ d. Stays c d × P d) P (happen out y c) _
        (Leaves-and (Stays c) P (happen out y c) (happen-Closes out y c b.0 e)
          (subst (λ z. Leaves P (happen out z c)) (sym i) (r c e)))
        (λ d both. kept d both.1 (happens out es d) (happens-Stays es d b.1 both.0.0))
    where
      kept : (d : Conn) → P d → (m : Option Conn) → Leaves (Stays d) m → Leaves P m
      kept d p none q = q
      kept d p (some d') q = k d d' q p
  happens-Returns x P (y ∷ es) c r k b (inr o) e =
      Leaves-bind (Stays c) P (happen out y c) _ (happen-Closes out y c b.0 e)
        (λ d stays. happens-Returns x P es d r k b.1 o stays.0)
  happens-Returns x P [] c r k b o e = absurd o

  closed-Returned :
      (es : List Event) (c : Conn) (n now later wall : ℕ)
      → c.stage ≡ closed
      → AllBetween es
      → Occurs (works n) es
      → Occurs (keeps_alive now later wall) es
      → Leaves (Returned c.has_threads) (happens out es c)
  closed-Returned es c n now later wall e b w k =
      together (happens out es c) (happens-Stays es c b e)
        (happens-Returns (works n) (λ d. d.work_runs ≡ false) es c (works-Returns n)
          (λ d d' (s, h, wr, kr) p. wr p) b w e)
        (happens-Returns (keeps_alive now later wall) (λ d. d.keepalive_runs ≡ false) es c
          (keeps_alive-Returns now later wall) (λ d d' (s, h, wr, kr) p. kr p) b k e)
    where
      together :
          (m : Option Conn)
          → Leaves (Stays c) m
          → Leaves (λ d. d.work_runs ≡ false) m
          → Leaves (λ d. d.keepalive_runs ≡ false) m
          → Leaves (Returned c.has_threads) m
      together none p q r = p
      together (some d) (s, h, wr, kr) q r = (s, h, q, r)

  -- `release` of a connection that has its threads: let any events come between its first part and
  -- its end, other than `initialize` and callbacks or sends that act on what they read before, among
  -- them one round of each thread. Then both threads have
  -- returned, so that the joins end; after the end there are no threads, and the next `recv` says
  -- NOT_READY, whatever was queued.
  pub release-Released :
      (es : List Event) (c : Conn) (n now later wall : ℕ)
      → c.has_threads ≡ true
      → AllBetween es
      → Occurs (works n) es
      → Occurs (keeps_alive now later wall) es
      → Leaves Released (do
        began ← happen out releases c
        joining ← happens out es began
        happen out joined joining)
  unfolding happen release_begin ask set_stage
  release-Released es c n now later wall h b w k = simp h (
      Leaves-bind (Returned true) Released (happens out es _) _
        (closed-Returned es _ n now later wall refl b w k) ends)
    where
      ends :
          (d : Conn)
          → Returned true d
          → Released (
              if d.has_threads && not d.work_runs && not d.keepalive_runs then release_end d else d)
      ends d (s, h, w, k) =
          unfold release_end Connection.push_status_resp Connection.push_resp recv recv_first in
          (simp (h, w, k) (refl, refl, refl, λ parse. refl))

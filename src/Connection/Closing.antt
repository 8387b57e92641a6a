-- ===== src/Connection/Closing.antt =====
-- After `release` of src/common/speech_connection.cc has begun: while events are prompt,
-- the stage stays CLOSED and both threads return in their next rounds, so that the joins end.
pub mod Release
use rokid_openvoice_sdk.Base.{
  ℕ, ◌≡◌, refl, subst, sym, Bool, true, false, not, ◌&&◌, Option, none, some, List, [], ◌∷◌,
  if◌then◌else◌, Text, Bool-cases, inl, inr, ◌>>=◌, ◌∙◌, All, ◌⊎◌,
}
use rokid_openvoice_sdk.Connection
use rokid_openvoice_sdk.Connection.{
  Conn, Stage, init, disconn, connecting, authorizing, ready, paused, closed, is_stage, ask,
  release_begin, release_end, ws_close, ws_send, close_on, send_on, set_stage, update_reconn_tp,
  OpCode, not_ready,
}
use rokid_openvoice_sdk.Connection.Auth.{Outside}
use rokid_openvoice_sdk.Connection.Callbacks.{
  is_given_up, on_connection, on_disconnection, on_disconnection_at, on_message, on_error,
  on_error_at, on_error_unconnected, on_pong,
}
use rokid_openvoice_sdk.Connection.Threads.{
  Work, KeepAlive, work_round, work_in, keepalive_round, keepalive_in,
}
use rokid_openvoice_sdk.Connection.Messages.{resume, send_buf, recv, recv_first}
use rokid_openvoice_sdk.Connection.Events.{
  Event, is_prompt, happen, happens, late_message, late_disconnected, late_sends, initialized,
  releases, joined, receives, reconnects, works, disconnected, failed, ponged, resumes, keeps_alive,
  connected, message, sends, traces,
}

-- A prompt event that is neither `initialize` nor the end of `release`.
abbrev pub is_between : Event → Bool
is_between (initialized options svc) = false
is_between joined = false
is_between e = is_prompt e

abbrev pub AllBetween : List Event → Type 0
AllBetween es = All (λ e. is_between e ≡ true) es

abbrev pub Occurs : Event → List Event → Type 0
Occurs e [] = ⊥
Occurs e (x ∷ xs) = (x ≡ e) ⊎ Occurs e xs

-- CLOSED stays, and a thread that has returned stays so.
abbrev pub Stays : Conn → Conn → Type 0
Stays c d =
    (d.stage ≡ closed)
    × (d.has_threads ≡ c.has_threads)
    × (c.work_runs ≡ false → d.work_runs ≡ false)
    × (c.keepalive_runs ≡ false → d.keepalive_runs ≡ false)

-- What holds of the connection that events leave; no event is a fault.
abbrev pub Leaves : (Conn → Type 0) → Option Conn → Type 0
Leaves P none = ⊥
Leaves P (some d) = P d

abbrev pub Closes : Conn → Option Conn → Type 0
Closes c m = Leaves (Stays c) m

pub Leaves-bind :
    (P Q : Conn → Type 0) (m : Option Conn) (f : Conn → Option Conn)
    → Leaves P m
    → ((d : Conn) → P d → Leaves Q (f d))
    → Leaves Q (m >>= f)
Leaves-bind P Q none f p q = absurd p
Leaves-bind P Q (some d) f p q = q d p

pub Leaves-and :
    (P Q : Conn → Type 0) (m : Option Conn) → Leaves P m → Leaves Q m → Leaves (λ d. P d × Q d) m
Leaves-and P Q none p q = absurd p
Leaves-and P Q (some d) p q = (p, q)

pub same : (c : Conn) → c.stage ≡ closed → Stays c c
same c e = (e, refl, (λ w. w), λ k. k)

if-Stays : (c : Conn) (b : Bool) (x y : Conn) → Stays c x → Stays c y → Stays c (if b then x else y)
if-Stays c true x y p q = p
if-Stays c false x y p q = q

close_on-Stays : (o : Option ℕ) (c d : Conn) → Stays c d → Stays c (close_on o d)
unfolding close_on ask
close_on-Stays none c d p = p
close_on-Stays (some ws) c d p = p

send_on-Stays :
    (o : Option ℕ) (buf : Text) (op : OpCode) (c d : Conn)
    → Stays c d
    → Stays c (send_on o buf op d)
unfolding send_on ask
send_on-Stays none buf op c d p = p
send_on-Stays (some ws) buf op c d p = p

module _ (out : Outside) where
  on_message-Stays :
      (s : Stage) (msg : Text) (now : ℕ) (c : Conn)
      → s ≡ closed
      → c.stage ≡ closed
      → Stays c (on_message out s msg now c)
  unfolding on_message
  on_message-Stays authorizing msg now c p e = cc
  on_message-Stays ready msg now c p e = cc
  on_message-Stays init msg now c p e = cc
  on_message-Stays disconn msg now c p e = cc
  on_message-Stays connecting msg now c p e = cc
  on_message-Stays paused msg now c p e = cc
  on_message-Stays closed msg now c p e = same c e

  pub keepalive_closed :
      (s : Stage) (now later wall : ℕ) (c : Conn)
      → s ≡ closed
      → keepalive_in out s now later wall c ≡ (record c { keepalive_runs = false }, KeepAlive.quits)
  unfolding keepalive_in
  keepalive_closed closed now later wall c e = refl
  keepalive_closed init now later wall c e = cc
  keepalive_closed disconn now later wall c e = cc
  keepalive_closed connecting now later wall c e = cc
  keepalive_closed authorizing now later wall c e = cc
  keepalive_closed ready now later wall c e = cc
  keepalive_closed paused now later wall c e = cc

pub work_closed :
    (s : Stage) (now : ℕ) (c : Conn)
    → s ≡ closed
    → work_in s now c ≡ (record c { work_runs = false }, Work.quits)
unfolding work_in
work_closed closed now c e = refl
work_closed init now c e = cc
work_closed disconn now c e = cc
work_closed connecting now c e = cc
work_closed authorizing now c e = cc
work_closed ready now c e = cc
work_closed paused now c e = cc

on_error-Stays :
    (o : Option ℕ) (now : ℕ) (c : Conn) → c.stage ≡ closed → Stays c (on_error_at o now c)
unfolding on_error_at on_error_unconnected ask update_reconn_tp Connection.push_status_resp
    Connection.push_resp
on_error-Stays none now c e = simp e (refl, refl, (λ w. w), λ k. k)
on_error-Stays (some ws) now c e = same c e

pub happen-Closes :
    (out : Outside) (e : Event) (c : Conn)
    → is_between e ≡ true
    → c.stage ≡ closed
    → Closes c (happen out e c)
unfolding happen
happen-Closes out (initialized options svc) c b e = cc
happen-Closes out joined c b e = cc
happen-Closes out releases c b e =
    unfold release_begin ask set_stage in
    if-Stays c c.has_threads _ c (refl, refl, (λ w. w), λ k. k) (same c e)
happen-Closes out receives c b e = unfold recv in same c e
happen-Closes out (reconnects now) c b e =
    unfold Connection.reconn ws_close update_reconn_tp in close_on-Stays c.socket c _ (same c e)
happen-Closes out (works now) c b e =
    unfold work_round in
    if-Stays c c.work_runs _ c (rw (work_closed c.stage now c e) (e, refl, (λ w. refl), λ k. k))
      (same c e)
happen-Closes out (disconnected now) c b e =
    if-Stays c c.has_threads _ c
      (unfold on_disconnection on_disconnection_at is_given_up in
        (simp e (refl, refl, (λ w. w), λ k. k)))
      (same c e)
happen-Closes out (failed now) c b e =
    if-Stays c c.has_threads _ c (unfold on_error in on_error-Stays c.socket now c e) (same c e)
happen-Closes out (ponged now) c b e =
    if-Stays c c.has_threads _ c (unfold on_pong Connection.update_recv_tp in same c e) (same c e)
happen-Closes out (resumes now) c b e = unfold resume in (simp e (refl, refl, (λ w. w), λ k. k))
happen-Closes out (keeps_alive now later wall) c b e =
    unfold keepalive_round in
    if-Stays c c.keepalive_runs _ c
      (rw (keepalive_closed out c.stage now later wall c e) (e, refl, (λ w. w), λ k. refl))
      (same c e)
happen-Closes out (connected ws ts) c b e =
    unfold on_connection is_given_up in (simp e (go c.has_threads))
  where
    go : (h : Bool) → Closes c (if h then some c else some c)
    go true = same c e
    go false = same c e
happen-Closes out (message msg now) c b e =
    if-Stays c c.has_threads _ c (on_message-Stays out c.stage msg now c e e) (same c e)
happen-Closes out (sends buf true now) c b e =
    unfold send_buf ws_send Connection.update_voice_tp in
    send_on-Stays c.socket buf OpCode.binary_op c _ (same c e)
happen-Closes out (sends buf false now) c b e = unfold send_buf in same c e
happen-Closes out (traces t) c b e = unfold Connection.add_trace in same c e
happen-Closes out (late_message seen msg now) c b e = cc
happen-Closes out (late_disconnected seen now) c b e = cc
happen-Closes out (late_sends buf) c b e = cc

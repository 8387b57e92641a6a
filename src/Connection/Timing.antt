-- ===== src/Connection/Timing.antt =====
-- When the connection of src/common/speech_connection.cc is tried again, and how long its
-- keep-alive thread sleeps.
use rokid_openvoice_sdk.Base.{
  Option, none, some, ℕ, ◌+◌, ◌-◌, ◌*◌, ◌≡◌, ◌<◌, ◌≤◌, refl, Bool, true, false, ◌&&◌, [], ◌∷◌,
  if◌then◌else◌, leb, ltb, arith, Text, sym, Bool-cases, inl, inr, subst,
}
use rokid_openvoice_sdk.Connection
use rokid_openvoice_sdk.Connection.{
  ping, ws_send, send_on, OpCode, Conn, Stage, init, disconn, connecting, authorizing, ready,
  paused, closed, is_stage, nanoseconds, ask, Ask, set_stage, update_reconn_tp,
}
use rokid_openvoice_sdk.Connection.Auth.{get_server_uri}
use rokid_openvoice_sdk.Connection.Callbacks.{on_disconnection, on_disconnection_at, is_given_up}
use rokid_openvoice_sdk.Connection.Threads.{
  Work, KeepAlive, work_round, work_in, keepalive_ready, keepalive_timeout, keepalive_ping, left,
  min, is_past,
}

-- The time after a loss of the connection at which it is tried again.
abbrev pub retry_interval : Conn → ℕ
retry_interval c = nanoseconds (if is_stage c.stage ready then 0 else c.options.reconn_interval)

work_in_disconn :
    (now : ℕ) (d : Conn)
    → ((work_in disconn now d).1 ≡ (
        if leb d.reconn_timepoint now
        then Work.goes_on
        else Work.waits_for (d.reconn_timepoint - now)))
      × ((work_in disconn now d).0.asked ≡ (
          if leb d.reconn_timepoint now
          then Ask.connect (get_server_uri d.options) ∷ d.asked
          else d.asked))
unfolding work_in ask
work_in_disconn now d = elim (Bool-cases (leb d.reconn_timepoint now)) [
  | inl r ↦ simp r (refl, refl)
  | inr r ↦ simp r (refl, refl)
]

-- When a connection that is not given up is lost, the work thread's next round asks for a new
-- one if it comes no earlier than the reconnect interval later (at once, if the connection was
-- READY); a round that comes earlier asks for nothing and waits for exactly the time left.
pub work_round-on_disconnection :
    (lost now : ℕ) (c : Conn)
    → is_given_up c.stage ≡ false
    → ((work_round now (on_disconnection lost c)).1 ≡ (
        if leb (lost + retry_interval c) now
        then Work.goes_on
        else Work.waits_for (lost + retry_interval c - now)))
      × ((work_round now (on_disconnection lost c)).0.asked ≡ (
          if leb (lost + retry_interval c) now
          then Ask.connect (get_server_uri c.options) ∷ c.asked
          else c.asked))
unfolding work_round on_disconnection on_disconnection_at set_stage update_reconn_tp
    Connection.push_status_resp Connection.push_resp
work_round-on_disconnection lost now c e = simp e (work_in_disconn now _)

-- The limits on a sleep of the keep-alive thread that begins at `now`, in milliseconds, when it
-- leaves the connection `d`: at least 1, less than 1 past either of the times at which the next
-- ping and the next answer are due, and at most 1000 where a trace was sent.
abbrev pub Rests : ℕ → Bool → Conn → ℕ → Type 0
Rests now has_trace_info d ms =
    (1 ≤ ms)
    × (now + nanoseconds ms
        < d.lastest_ping_tp + nanoseconds d.options.ping_interval + nanoseconds 1)
    × (now + nanoseconds ms
        < d.lastest_recv_tp + nanoseconds d.options.no_resp_timeout + nanoseconds 1)
    × (has_trace_info ≡ true → ms ≤ 1000)

left_bounds :
    (now since interval : ℕ)
    → 1 ≤ interval
    → now < since + nanoseconds interval
    → (1 ≤ left now since interval)
      × (now + nanoseconds (left now since interval) < since + nanoseconds interval + nanoseconds 1)
left_bounds now since interval k h = ground arith

-- The shorter of two times, and at most 1000 where a trace was sent.
keepalive_timeout-Rests :
    (now : ℕ) (b : Bool) (d : Conn)
    → 1 ≤ d.options.ping_interval
    → 1 ≤ d.options.no_resp_timeout
    → now < d.lastest_ping_tp + nanoseconds d.options.ping_interval
    → now < d.lastest_recv_tp + nanoseconds d.options.no_resp_timeout
    → Rests now b d (keepalive_timeout now b d)
unfolding keepalive_timeout
keepalive_timeout-Rests now b d i j p r =
    shorter b (left now d.lastest_ping_tp d.options.ping_interval)
      (left now d.lastest_recv_tp d.options.no_resp_timeout)
      (left_bounds now d.lastest_ping_tp d.options.ping_interval i p)
      (left_bounds now d.lastest_recv_tp d.options.no_resp_timeout j r)
  where
    shorter :
        (t : Bool) (x y : ℕ)
        → (1 ≤ x)
          × (now + nanoseconds x
              < d.lastest_ping_tp + nanoseconds d.options.ping_interval + nanoseconds 1)
        → (1 ≤ y)
          × (now + nanoseconds y
              < d.lastest_recv_tp + nanoseconds d.options.no_resp_timeout + nanoseconds 1)
        → Rests now t d (if t && ltb 1000 (min x y) then 1000 else min x y)
    shorter true x y (p1, p2) (q1, q2) =
        (ground arith, ground arith, ground arith, λ e. ground arith)
    shorter false x y (p1, p2) (q1, q2) = (ground arith, ground arith, ground arith, λ e. cc)

send_on-options :
    (o : Option ℕ) (msg : Text) (op : OpCode) (c : Conn) → (send_on o msg op c).options ≡ c.options
unfolding send_on ask
send_on-options none msg op c = refl
send_on-options (some ws) msg op c = refl

keepalive_ping-options :
    (now later : ℕ) (c : Conn) → (keepalive_ping now later c).options ≡ c.options
unfolding keepalive_ping ping ws_send Connection.update_ping_tp
keepalive_ping-options now later c =
    elim (Bool-cases (is_past now c.lastest_ping_tp (nanoseconds c.options.ping_interval))) [
      | inl e ↦ simp e (send_on-options c.socket [] OpCode.ping_op c)
      | inr e ↦ simp e refl
    ]

-- After the ping of a round, the next one is not due.
keepalive_ping-fresh :
    (now later : ℕ) (c : Conn)
    → now ≤ later
    → 1 ≤ c.options.ping_interval
    → now < (keepalive_ping now later c).lastest_ping_tp + nanoseconds c.options.ping_interval
unfolding keepalive_ping ping Connection.update_ping_tp
keepalive_ping-fresh now later c h k =
    elim (Bool-cases (is_past now c.lastest_ping_tp (nanoseconds c.options.ping_interval))) [
      | inl e ↦ simp e (omega arith)
      | inr e ↦ simp e (ground arith)
    ]

-- When a round of the keep-alive thread in READY sleeps, with intervals of at least 1 ms, it
-- sleeps at least 1 ms, and ends less than 1 ms past the times at which the next ping and the
-- next answer are due; where it has sent a trace, it sleeps at most 1000 ms.
pub keepalive_ready-Rests :
    (now later ms : ℕ) (b : Bool) (c : Conn)
    → now ≤ later
    → 1 ≤ c.options.ping_interval
    → 1 ≤ c.options.no_resp_timeout
    → (keepalive_ready now later b c).1 ≡ KeepAlive.waits_for ms
    → Rests now b (keepalive_ready now later b c).0 ms
unfolding keepalive_ready
keepalive_ready-Rests now later ms b c h i j =
    decided (is_past now d.lastest_recv_tp (nanoseconds d.options.no_resp_timeout))
      (is_past now d.lastest_voice_tp (nanoseconds (d.options.conn_duration * 1000))) _ _ refl
  where
    d : Conn
    d = keepalive_ping now later c

    o : d.options ≡ c.options
    o = keepalive_ping-options now later c

    rests :
        now < d.lastest_recv_tp + nanoseconds d.options.no_resp_timeout
        → Rests now b d (keepalive_timeout now b d)
    rests r =
        keepalive_timeout-Rests now b d
          (subst (λ (p : Connection.PrepareOptions). 1 ≤ p.ping_interval) (sym o) i)
          (subst (λ (p : Connection.PrepareOptions). 1 ≤ p.no_resp_timeout) (sym o) j)
          (subst
            (λ (p : Connection.PrepareOptions).
              now < d.lastest_ping_tp + nanoseconds p.ping_interval)
            (sym o) (keepalive_ping-fresh now later c h i))
          r

    outcome : Bool → Bool → Conn → Conn → Conn × KeepAlive
    outcome x y c1 c2 =
        if x
        then (c1, KeepAlive.goes_on)
        else if y
        then (c2, KeepAlive.goes_on)
        else (d, KeepAlive.waits_for (keepalive_timeout now b d))

    decided :
        (x y : Bool) (c1 c2 : Conn)
        → is_past now d.lastest_recv_tp (nanoseconds d.options.no_resp_timeout) ≡ x
        → (outcome x y c1 c2).1 ≡ KeepAlive.waits_for ms
        → Rests now b (outcome x y c1 c2).0 ms
    decided true y c1 c2 e w = cc
    decided false true c1 c2 e w = cc
    decided false false c1 c2 e w =
        let t : keepalive_timeout now b d ≡ ms = cc in
        subst (Rests now b d) (t) (rests (ground arith))

-- ===== src/Connection/Shape/Rounds.antt =====
-- The rounds of the threads of src/common/speech_connection.cc keep the connection's shape.
use rokid_openvoice_sdk.Base.{
  ℕ, ◌≤◌, ◌≡◌, refl, subst, Bool, true, false, Option, none, some, List, [], ◌∷◌, if◌then◌else◌,
  Text, Bool-cases, inl, inr, length, leb, arith, ap, sym, ◌∙◌, ◌*◌, ◌⊎◌,
}
use rokid_openvoice_sdk.Connection
use rokid_openvoice_sdk.Connection.{
  Conn, Stage, init, disconn, connecting, authorizing, ready, paused, closed, is_stage, ask, Ask,
  OpCode, initialize, release_begin, release_end, ws_close, ws_send, close_on, send_on, BinResp,
  ping, PrepareOptions, nanoseconds, set_stage, update_reconn_tp, new_connection,
}
use rokid_openvoice_sdk.Connection.Auth.{Outside}
use rokid_openvoice_sdk.Connection.Threads.{
  work_in, keepalive_in, keepalive_ready, keepalive_ping, send_trace_info, send_trace_infos,
  send_payload, is_past, trace_payload,
}
use rokid_openvoice_sdk.Trace.{TraceInfo, max_pending_trace_infos}
use rokid_openvoice_sdk.Connection.Shape.{
  AllRun, Running, Shaped, if-Shaped, close_on-Shaped, ping-Shaped,
}

module _ (out : Outside) where
  send_trace_infos-Shaped :
      (later wall : ℕ) (ts : List TraceInfo) (c : Conn)
      → c.trace_infos ≡ ts
      → Shaped c
      → Shaped (send_trace_infos out later wall ts c).0
  unfolding send_trace_infos
  send_trace_infos-Shaped later wall [] c e p = p
  send_trace_infos-Shaped later wall (t ∷ ts) c e (r, s, l) =
      payload (out.serialize_ping (trace_payload wall t)) (omega (arith, ap length e))
    where
      payload :
          (o : Option Text)
          → length ts ≤ max_pending_trace_infos
          → Shaped (send_payload later o (record c { trace_infos = ts }))
      payload none h = unfold send_payload in (r, s, h)
      payload (some buf) h =
          unfold send_payload in ping-Shaped later buf (record c { trace_infos = ts }) (r, s, h)

keepalive_ping-Shaped : (now later : ℕ) (c : Conn) → Shaped c → Shaped (keepalive_ping now later c)
unfolding keepalive_ping Connection.update_ping_tp
keepalive_ping-Shaped now later c p =
    if-Shaped (is_past now c.lastest_ping_tp (nanoseconds c.options.ping_interval)) _ c
      (ping-Shaped later [] c p) p

send_on-stage :
    (o : Option ℕ) (msg : Text) (op : OpCode) (c : Conn) → (send_on o msg op c).stage ≡ c.stage
unfolding send_on ask
send_on-stage none msg op c = refl
send_on-stage (some ws) msg op c = refl

ping-stage : (now : ℕ) (msg : Text) (c : Conn) → (ping now msg c).stage ≡ c.stage
unfolding ping ws_send
ping-stage now msg c = send_on-stage c.socket msg OpCode.ping_op c

keepalive_ping-stage : (now later : ℕ) (c : Conn) → (keepalive_ping now later c).stage ≡ c.stage
unfolding keepalive_ping Connection.update_ping_tp
keepalive_ping-stage now later c =
    elim (Bool-cases (is_past now c.lastest_ping_tp (nanoseconds c.options.ping_interval))) [
      | inl e ↦ simp e (ping-stage later [] c)
      | inr e ↦ simp e refl
    ]

send_trace_infos-stage :
    (out : Outside) (later wall : ℕ) (ts : List TraceInfo) (c : Conn)
    → (send_trace_infos out later wall ts c).0.stage ≡ c.stage
unfolding send_trace_infos
send_trace_infos-stage out later wall [] c = refl
send_trace_infos-stage out later wall (t ∷ ts) c =
    payload (out.serialize_ping (trace_payload wall t))
  where
    payload :
        (o : Option Text) → (send_payload later o (record c { trace_infos = ts })).stage ≡ c.stage
    payload none = unfold send_payload in refl
    payload (some buf) = unfold send_payload in ping-stage later buf (record c { trace_infos = ts })

if-Shaped_0 {ℓ} :
    {R : Type ℓ} (b : Bool) (x y : Conn × R)
    → Shaped x.0
    → Shaped y.0
    → Shaped (if b then x else y).0
if-Shaped_0 true x y p q = p
if-Shaped_0 false x y p q = q

ready-AllRun : (s : Stage) {h w k : Bool} → s ≡ ready → Running s h w k → AllRun h w k
ready-AllRun s {h} {w} {k} e r = subst (λ t. Running t h w k) e r

keepalive_ready-Shaped :
    (now later : ℕ) (b : Bool) (c : Conn)
    → c.stage ≡ ready
    → Shaped c
    → Shaped (keepalive_ready now later b c).0
unfolding keepalive_ready
keepalive_ready-Shaped now later b c e p =
    let d = keepalive_ping now later c in
    let q = keepalive_ping-Shaped now later c p in
    if-Shaped_0 (is_past now d.lastest_recv_tp (nanoseconds d.options.no_resp_timeout)) _ _
      (unfold ws_close update_reconn_tp in close_on-Shaped d.socket _ q)
      (if-Shaped_0 (is_past now d.lastest_voice_tp (nanoseconds (d.options.conn_duration * 1000))) _
        _
        (unfold ask set_stage in
          (ready-AllRun d.stage (keepalive_ping-stage now later c ∙ e) q.0, tt, q.2))
        q)

pub keepalive_in-Shaped :
    (out : Outside) (s : Stage) (now later wall : ℕ) (c : Conn)
    → c.stage ≡ s
    → c.has_threads ≡ true
    → Shaped c
    → Shaped (keepalive_in out s now later wall c).0
unfolding keepalive_in send_trace_info
keepalive_in-Shaped out closed now later wall c e h (r, s, l) =
    let r' : Running c.stage c.has_threads c.work_runs false =
      subst (λ t. Running t c.has_threads c.work_runs false) (sym e) (λ g. cc) in
    (r', s, l)
keepalive_in-Shaped out ready now later wall c e h p =
    let q = send_trace_infos-Shaped out later wall c.trace_infos c refl p in
    let t = send_trace_infos out later wall c.trace_infos c in
    keepalive_ready-Shaped now later t.1 t.0
      (send_trace_infos-stage out later wall c.trace_infos c ∙ e) q
keepalive_in-Shaped out init now later wall c e h p = p
keepalive_in-Shaped out disconn now later wall c e h p = p
keepalive_in-Shaped out connecting now later wall c e h p = p
keepalive_in-Shaped out authorizing now later wall c e h p = p
keepalive_in-Shaped out paused now later wall c e h p = p

pub work_in-Shaped :
    (s : Stage) (now : ℕ) (c : Conn)
    → c.stage ≡ s
    → c.has_threads ≡ true
    → Shaped c
    → Shaped (work_in s now c).0
unfolding work_in ask
work_in-Shaped closed now c e h (r, s, l) =
    let r' : Running c.stage c.has_threads false c.keepalive_runs =
      subst (λ t. Running t c.has_threads false c.keepalive_runs) (sym e) (λ g. cc) in
    (r', s, l)
work_in-Shaped disconn now c e h (r, s, l) =
    let r' : Running disconn c.has_threads c.work_runs c.keepalive_runs =
      subst (λ t. Running t c.has_threads c.work_runs c.keepalive_runs) e r in
    if-Shaped_0 (leb c.reconn_timepoint now) _ _ (r', tt, l) (r, s, l)
work_in-Shaped paused now c e h p = p
work_in-Shaped init now c e h p = p
work_in-Shaped connecting now c e h p = p
work_in-Shaped authorizing now c e h p = p
work_in-Shaped ready now c e h p = p

-- A running thread is there.
pub has_threads-of :
    (s : Stage) (h w k : Bool) → Running s h w k → (w ≡ true) ⊎ (k ≡ true) → h ≡ true
has_threads-of s true w k r e = refl
has_threads-of closed false w k r (inl e) = let f = r refl in cc
has_threads-of closed false w k r (inr e) = let f = r refl in cc
has_threads-of init false w k r (inl e) = cc
has_threads-of init false w k r (inr e) = cc
has_threads-of disconn false w k r e = cc
has_threads-of connecting false w k r e = cc
has_threads-of authorizing false w k r e = cc
has_threads-of ready false w k r e = cc
has_threads-of paused false w k r e = cc

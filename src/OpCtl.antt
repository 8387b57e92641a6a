-- ===== src/OpCtl.antt =====
-- The class template `OperationController` of src/common/op_ctl.h.
--
-- `operations_` and `current_op_` share their operations through shared pointers, so an operation
-- lives in a store and the two hold handles. A `TError` is the number of its enumerator, 0 in a
-- fresh operation. Time points are nanoseconds of a clock that never goes back.
pub mod Invariant
pub mod Ends
pub mod Cancel
pub mod Timeout
pub mod Relaxes
use rokid_openvoice_sdk.Base.{
  ℕ, suc, ◌+◌, ◌-◌, ◌/◌, ◌%◌, Bool, true, false, not, ◌&&◌, ◌||◌, Option, none, some, List, [], ◌∷◌,
  ◌++◌, ◌==◌, ltb, if◌then◌else◌, word, is_positive,
}

-- `SpeechStatus` and `TtsStatus`, which have the same enumerators.
pub data Status : Type 0 where
  start streaming ended cancelled error : Status

pub record Operation : Type 0 where
  pub id : ℕ
  pub status : Status
  pub error_code : ℕ
  pub begin_timepoint : ℕ
  pub lastest_recv_timepoint : ℕ
  pub calc_op_timeout : Bool

-- `notified` counts the calls of `op_cond_.notify_one()`, `polled` those of the condition that
-- `cancel_op` is given.
pub record Controller : Type 0 where
  pub store : ℕ → Operation
  pub next : ℕ
  pub operations : List ℕ
  pub current : Option ℕ
  pub notified : ℕ
  pub polled : ℕ

abbrev pub noop_timeout : ℕ
noop_timeout = 20000

abbrev pub noresp_timeout : ℕ
noresp_timeout = 30000

-- A write to the operation behind a handle.
abbrev pub write : ℕ → (Operation → Operation) → (ℕ → Operation) → ℕ → Operation
write h f st p = if h == p then f (st p) else st p

abbrev pub with_status : Status → Operation → Operation
with_status s o = record o { status = s }

unfoldable pub is_start : Status → Bool
is_start start = true
is_start _ = false

unfoldable pub is_final : Status → Bool
is_final cancelled = true
is_final error = true
is_final _ = false

abbrev pub no_operation : Operation
no_operation = record {
  id = 0;
  status = start;
  error_code = 0;
  begin_timepoint = 0;
  lastest_recv_timepoint = 0;
  calc_op_timeout = false;
}

unfoldable pub init : Controller
init = record {
  store = λ h. no_operation;
  next = 0;
  operations = [];
  current = none;
  notified = 0;
  polled = 0;
}

unfoldable pub new_op : ℕ → Status → ℕ → Controller → Controller
unfolding is_start
new_op id status now c = record c {
  store =
      write c.next
        (λ o. record {
          id = id;
          status = status;
          error_code = 0;
          begin_timepoint = 0;
          lastest_recv_timepoint = now;
          calc_op_timeout = false;
        })
        c.store;
  next = suc c.next;
  operations = c.operations ++ c.next ∷ [];
  current = if is_start status then some c.next else c.current;
}

unfoldable pub set_op_error : ℕ → Controller → Controller
set_op_error err c = elim c.current [
  | none ↦ c
  | some h ↦ record c {
    store = write h (λ o. record o { status = error; error_code = err }) c.store;
    current = none;
    notified = suc c.notified;
  }
]

unfoldable pub finish_op : Controller → Controller
unfolding is_final
finish_op c = elim c.current [
  | none ↦ c
  | some h ↦ record c {
    store = write h (λ o. if not (is_final o.status) then with_status ended o else o) c.store;
    current = none;
    notified = suc c.notified;
  }
]

-- Whether `wait_op_finish` blocks on `op_cond_`.
unfoldable pub wait_op_finish : ℕ → Controller → Bool
wait_op_finish id c = elim c.current [ none ↦ false | some h ↦ (c.store h).id == id ]

-- `current_op_.get() && current_op_->id == id`.
unfoldable pub current_is : ℕ → Option ℕ → (ℕ → Operation) → Bool
current_is id none st = false
current_is id (some h) st = (st h).id == id

-- The loop of `cancel_op`; the flag is `need_notify`.
unfoldable pub cancel_loop : ℕ → Option ℕ → List ℕ → (ℕ → Operation) → Bool → (ℕ → Operation) × Bool
unfolding current_is
cancel_loop id cur [] st need = (st, need)
cancel_loop id cur (h ∷ hs) st need =
    let st' = write h (with_status cancelled) st in
    let need' = if current_is (st h).id cur st then true else need in
    let others = cancel_loop id cur hs st' need' in
    let missed = cancel_loop id cur hs st need in
    if not (is_positive id) || id == (st h).id
    then (if is_positive id then (st', need') else others)
    else missed

unfoldable pub cancel_op : ℕ → Controller → Controller
cancel_op id c =
    let (st, need) = cancel_loop id c.current c.operations c.store false in
    if need
    then record c { store = st; current = none; notified = suc c.notified; polled = suc c.polled }
    else record c { store = st }

unfoldable pub drop_front : List ℕ → List ℕ
drop_front [] = []
drop_front (h ∷ hs) = hs

unfoldable pub remove_front_op : Controller → Controller
unfolding drop_front
remove_front_op c = record c { operations = drop_front c.operations }

unfoldable pub refresh_op_time : Bool → ℕ → Controller → Controller
refresh_op_time recv now c = elim c.current [
  | none ↦ c
  | some h ↦ record c {
    store =
        write h
          (λ o. record o {
            calc_op_timeout = true;
            begin_timepoint = now;
            lastest_recv_timepoint = if recv then now else o.lastest_recv_timepoint;
          })
          c.store;
  }
]

-- `duration_cast` to milliseconds in a `uint32_t`.
unfoldable pub elapsed : ℕ → ℕ → ℕ
elapsed now tp = (now - tp) / 1000000 % word

unfoldable pub op_timeout : ℕ → Controller → ℕ
unfolding elapsed
op_timeout now c = elim c.current [
  | none ↦ noop_timeout
  | some h ↦
      let o = c.store h in
      if not o.calc_op_timeout
      then noop_timeout
      else if ltb noop_timeout (elapsed now o.begin_timepoint)
      then 0
      else if ltb noresp_timeout (elapsed now o.lastest_recv_timepoint)
      then 0
      else (let t1 = noop_timeout - elapsed now o.begin_timepoint in
          let t2 = noresp_timeout - elapsed now o.lastest_recv_timepoint in
          if ltb t2 t1 then t2 else t1)
]

unfoldable pub front_op : Controller → Option ℕ
front_op c = elim c.operations [ [] ↦ none | h ∷ hs ↦ some h ]

unfoldable pub clear_current_op : Controller → Controller
clear_current_op c = record c { current = none }

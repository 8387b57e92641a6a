-- ===== src/Stream/Spec.antt =====
-- What `StreamQueue` of src/common/pending_queue.h promises: a queue of streams, each with its own
-- queue of data. There are no iterators, no shared list and no index here.
use rokid_openvoice_sdk.Base.{
  ℕ, ◌%◌, Bool, true, false, not, ◌&&◌, Option, none, some, List, [], ◌∷◌, ◌++◌, map, ◌==◌,
  if◌then◌else◌,
}
use rokid_openvoice_sdk.Stream.{
  Kind, uncompleted, completed, deleted, error, Out, PopType, pop_empty, pop_data, pop_start,
  pop_end, pop_removed, pop_error, is_uncompleted, or_keep,
}

pub record Stream {ℓ κ} (T : Type ℓ) (A : Type κ) : Type (ℓ ⊔ κ) where
  pub id : ℕ
  pub kind : Kind
  pub polling : Bool
  pub err : ℕ
  pub content : Option T
  pub arg : Option A
  pub datas : List (Option T)

module _ {ℓ κ} {T : Type ℓ} {A : Type κ} where
  unfoldable pub lookup : ℕ → List (Stream T A) → Option (Stream T A)
  lookup i [] = none
  lookup i (s ∷ ss) = if s.id == i then some s else lookup i ss

  unfoldable pub update : ℕ → (Stream T A → Stream T A) → List (Stream T A) → List (Stream T A)
  update i f [] = []
  update i f (s ∷ ss) = if s.id == i then f s ∷ ss else s ∷ update i f ss

  unfoldable pub fresh : ℕ → Stream T A
  fresh id = record {
    id = id;
    kind = uncompleted;
    polling = false;
    err = 0;
    content = none;
    arg = none;
    datas = [];
  }

  unfoldable pub start : ℕ → List (Stream T A) → List (Stream T A) × Bool
  start id ss = elim (lookup id ss) [ some s ↦ (ss, false) | none ↦ (ss ++ fresh id ∷ [], true) ]

  unfoldable pub feed : Option T → Stream T A → Stream T A
  feed d s = record s { datas = s.datas ++ d ∷ [] }

  unfoldable pub stream : ℕ → Option T → List (Stream T A) → List (Stream T A) × Bool
  stream id d ss = elim (lookup id ss) [
    | none ↦ (ss, false)
    | some s ↦ if is_uncompleted s.kind then (update id (feed d) ss, true) else (ss, false)
  ]

  unfoldable pub finish : Option T → Stream T A → Stream T A
  finish none s = record s { kind = completed }
  finish (some d) s = record s { kind = completed; content = some d }

  unfoldable pub end : ℕ → Option T → List (Stream T A) → List (Stream T A) × Bool
  end id d ss = elim (lookup id ss) [
    | none ↦ (ss, false)
    | some s ↦ (update id (finish d) ss, true)
  ]

  unfoldable pub kill : ℕ → Stream T A → Stream T A
  kill err s =
      if err == 0
      then record s { content = none; kind = deleted; datas = [] }
      else record s { content = none; kind = error; err = err % 65536; datas = [] }

  unfoldable pub erase : ℕ → ℕ → List (Stream T A) → List (Stream T A) × Bool
  erase id err ss = elim (lookup id ss) [
    | none ↦ (ss, false)
    | some s ↦ (update id (kill err) ss, true)
  ]

  unfoldable pub last_id : ℕ → List (Stream T A) → ℕ
  last_id i [] = i
  last_id i (s ∷ ss) = last_id s.id ss

  unfoldable pub range : List (Stream T A) → ℕ × ℕ
  range [] = (0, 0)
  range (s ∷ ss) = (s.id, last_id s.id ss)

  unfoldable pub clear : List (Stream T A) → List (Stream T A) × (ℕ × ℕ)
  unfolding kill
  clear ss = (map (kill 0) ss, range ss)

  -- A live stream at the front: its start, then its data in order, then its end.
  unfoldable pub pop_datas :
      List (Option T)
      → Stream T A
      → List (Stream T A)
      → Out T
      → List (Stream T A) × (Out T × PopType)
  pop_datas [] s rest out =
      if is_uncompleted s.kind
      then (s ∷ rest, (out, pop_empty))
      else (rest, (record out { id = s.id; res = or_keep s.content out.res }, pop_end))
  pop_datas (d ∷ ds) s rest out =
      (record s { datas = ds } ∷ rest, (record out { id = s.id; res = d }, pop_data))

  unfoldable pub pop_live :
      Stream T A → List (Stream T A) → Out T → List (Stream T A) × (Out T × PopType)
  unfolding pop_datas
  pop_live s rest out =
      if not s.polling
      then (record s { polling = true } ∷ rest, (record out { id = s.id }, pop_start))
      else pop_datas s.datas s rest out

  unfoldable pub pop_kind :
      Kind → Stream T A → List (Stream T A) → Out T → List (Stream T A) × (Out T × PopType)
  unfolding pop_live
  pop_kind uncompleted s rest out = pop_live s rest out
  pop_kind completed s rest out = pop_live s rest out
  pop_kind deleted s rest out = (rest, (record out { id = s.id }, pop_removed))
  pop_kind error s rest out = (rest, (record out { id = s.id; err = s.err }, pop_error))

  unfoldable pub pop : List (Stream T A) → Out T → List (Stream T A) × (Out T × PopType)
  unfolding pop_kind
  pop [] out = ([], (out, pop_empty))
  pop (s ∷ rest) out = pop_kind s.kind s rest out

  unfoldable pub with_arg : Option A → Stream T A → Stream T A
  with_arg arg s = record s { arg = arg }

  unfoldable pub set_arg : ℕ → Option A → List (Stream T A) → List (Stream T A)
  set_arg id arg ss = update id (with_arg arg) ss

  unfoldable pub arg_of : Option (Stream T A) → Option A
  arg_of none = none
  arg_of (some s) = s.arg

  -- Something can be popped unless the front stream has begun, is open and has no data.
  unfoldable pub available : List (Stream T A) → Bool
  available [] = false
  available (s ∷ ss) =
      if is_uncompleted s.kind && s.polling
      then elim s.datas [ [] ↦ false | d ∷ ds ↦ true ]
      else true

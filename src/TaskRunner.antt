-- ===== src/TaskRunner.antt =====
-- src/task_runner.rs: `run` as a machine whose events are what the runtime decides: which resource
-- ends and how, whether a checkpoint is saved, and when the token is cancelled.
pub mod Load
pub mod Accounting
use moenotes_assets.Base.{
  ℕ, zero, suc, ◌+◌, ◌-◌, ◌*◌, ◌/◌, ◌%◌, ◌^◌, ◌≤◌, ◌<◌, min, bit_xor, Bool, true, false, not, ◌&&◌,
  ◌||◌, Option, none, some, List, [], ◌∷◌, ◌++◌, map, ◌≡◌, ◌≢◌, ◌↔◌, ◌⊎◌, inl, inr, refl, sym, ap,
  ◌∙◌, arith, leb, ltb, ◌==◌, within, if◌then◌else◌, length, take, drop, replicate, get_or,
  get_elem?, all, any, All, String, Bool-cases, Option-cases,
}
use moenotes_assets.Base.Outcome.{
  Result, ok, err, ensure, context, collect, ◌>>=◌, ◌>>◌, >>=-eq-ok, ensure-eq-ok,
}
use moenotes_assets.Base.Bytes.{
  Bytes, IsBytes, codes, equal, starts_with, range, checked_add, be, le,
}

pub record ItemResult : Type 0 where
  pub key : Bytes
  pub export_id : Option Bytes
  pub error : Option Bytes

unfoldable pub failed_item : Bytes → String → ItemResult
failed_item key error = record { key = key; export_id = none; error = some (codes error) }

-- How a spawned resource ends: with the item of `execute`, on the token, or by a panic. The number
-- stands for all that the item depends on besides the key.
pub data Outcome : Type 0 where
  returned : ℕ → Outcome
  interrupted : Outcome
  terminated : Outcome

pub data TaskState : Type 0 where
  running succeeded partial failed cancelled : TaskState

-- The task, the keys still to come, those at work, and the token; `cancels n` tells whether the token
-- is cancelled before it is read for the start `n` of the next filling.
pub record Runner : Type 0 where
  pub total : ℕ
  pub results : List ItemResult
  pub completed : ℕ
  pub error : Option Bytes
  pub state : TaskState
  pub pending : List Bytes
  pub active : List Bytes
  pub token : Bool
  pub cancels : ℕ → Bool

-- `joined n o saved cancels`: the resource at place `n` of those at work ends with `o`; `saved` tells
-- whether a checkpoint, if one is due, is saved, and `cancels` when the token is cancelled while the
-- next resources are started. `cancel`: the token is cancelled while the loop waits.
pub data Event : Type 0 where
  cancel : Event
  joined : ℕ → Outcome → Bool → (ℕ → Bool) → Event

-- `while active.len() < concurrency && !token.is_cancelled()`, with the token read for each start; the
-- keys that are left, those at work, and the token.
unfoldable pub start :
    (ℕ → Bool) → ℕ → ℕ → Bool → List Bytes → List Bytes → List Bytes × (List Bytes × Bool)
start cancels concurrency n token [] active = ([], (active, token || cancels n))
start cancels concurrency n token (key ∷ pending) active =
    let rest =
      start cancels concurrency (n + 1) (token || cancels n) pending (active ++ key ∷ []) in
    if ltb (length active) concurrency && not (token || cancels n)
    then rest
    else (key ∷ pending, (active, token || cancels n))

unfoldable pub fill : ℕ → Runner → Runner
fill concurrency s =
    let (pending, (active, token)) = start s.cancels concurrency 0 s.token s.pending s.active in
    record s { pending = pending; active = active; token = token }

abbrev pub is_some {ℓ} : {A : Type ℓ} → Option A → Bool
is_some none = false
is_some (some a) = true

unfoldable pub persistence_failed : Runner → Runner
persistence_failed s = record s {
  error = some (codes "task persistence failed; resubmit unsuccessful keys");
  state = failed;
}

-- What follows the join: the result is kept, and every twentieth is a checkpoint.
unfoldable pub record_item : ItemResult → Bool → Runner → Runner
record_item r saved s =
    let t = record s { results = s.results ++ r ∷ []; completed = length (s.results ++ r ∷ []) } in
    if not (is_some t.error) && t.completed % 20 == 0 && not saved
    then record (persistence_failed t) { token = true }
    else t

unfoldable pub remove_at : ℕ → List Bytes → Option (Bytes × List Bytes)
remove_at n [] = none
remove_at zero (k ∷ ks) = some (k, ks)
remove_at (suc n) (k ∷ ks) = elim (remove_at n ks) [
  | none ↦ none
  | some (x, rest) ↦ some (x, k ∷ rest)
]

unfoldable pub successes : List ItemResult → ℕ
successes [] = 0
successes (r ∷ rs) = (if is_some r.export_id then 1 else 0) + successes rs

unfoldable pub verdict : Runner → TaskState
verdict s =
    if is_some s.error
    then failed
    else (if s.token
        then cancelled
        else (if successes s.results == s.total
            then succeeded
            else (if ltb 0 (successes s.results) then partial else failed)))

-- What follows the loop.
unfoldable pub finish : Runner → Runner
finish s =
    let results = s.results ++ map (λ key. failed_item key "cancelled") s.pending in
    let t = record s { results = results; completed = length results; pending = [] } in
    record t { state = verdict t }

-- The runner of a task whose start could be saved (no error) or could not, with a token that may be
-- cancelled by then.
unfoldable pub begin : Option Bytes → Bool → (ℕ → Bool) → List Bytes → Runner
begin error token cancels keys = record {
  total = length keys;
  results = [];
  completed = 0;
  error = error;
  state = elim error [ none ↦ running | some e ↦ failed ];
  pending = keys;
  active = [];
  token = token;
  cancels = cancels;
}

module _ (execute : Bytes → ℕ → ItemResult) where
  -- The item of an ended resource. The select is biased to the resource; only a cancelled token
  -- interrupts it.
  unfoldable pub item : Bool → Bytes → Outcome → Option ItemResult
  item token key (returned n) = some (execute key n)
  item true key interrupted = some (failed_item key "cancelled")
  item false key interrupted = none
  item token key terminated = some (failed_item key "resource task terminated unexpectedly")

  -- One event; `none` for one that cannot happen.
  unfoldable pub step : Event → Runner → Option Runner
  step cancel s = some (record s { token = true })
  step (joined n o saved cancels) s = elim (remove_at n s.active) [
    | none ↦ none
    | some (key, rest) ↦ elim (item s.token key o) [
      | none ↦ none
      | some r ↦
          let t = record_item r saved (record s { active = rest }) in
          some (record t { cancels = cancels })
    ]
  ]

  -- The loop on the events that happen; `none` where they are impossible or end too soon.
  unfoldable pub loop : ℕ → List Event → Runner → Option Runner
  loop concurrency [] s = elim (fill concurrency s).active [
    | [] ↦ some (finish (fill concurrency s))
    | key ∷ keys ↦ none
  ]
  loop concurrency (e ∷ es) s = elim (fill concurrency s).active [
    | [] ↦ some (finish (fill concurrency s))
    | key ∷ keys ↦ elim (step e (fill concurrency s)) [
      | none ↦ none
      | some t ↦ loop concurrency es t
    ]
  ]

  unfoldable pub run :
      ℕ → Option Bytes → Bool → (ℕ → Bool) → List Bytes → List Event → Option Runner
  run concurrency error token cancels keys events =
      loop concurrency events (begin error token cancels keys)

-- The run of an export in `submit_export`: `started` tells whether the start of the task is saved. If
-- it is not, the token is cancelled before the run.
unfoldable pub run_export :
    (Bytes → ℕ → ItemResult)
    → Bool
    → ℕ
    → Bool
    → (ℕ → Bool)
    → List Bytes
    → List Event
    → Option Runner
run_export execute true concurrency token cancels keys events =
    run execute concurrency none token cancels keys events
run_export execute false concurrency token cancels keys events =
    run execute concurrency (some (codes "task persistence failed; resubmit unsuccessful keys"))
      true cancels keys events

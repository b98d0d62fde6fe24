-- ===== src/Service/Ended.antt =====
-- The end of a task of src/service.rs is kept, and what is told of a service that could not keep one.
use moenotes_assets.Base.{
  ℕ, Bool, true, false, Option, some, List, [], ◌∷◌, ◌≡◌, ◌≢◌, inl, inr, refl, arith, if◌then◌else◌,
  All, Bool-cases, ◌||◌, ◌&&◌,
}
use moenotes_assets.Base.Outcome.{Result, ok, err}
use moenotes_assets.Base.Bytes.{equal_iff, Bytes, codes, equal}
use moenotes_assets.Service.{Task}
use moenotes_assets.Service.Tasks.{
  App, find_task, upsert, forget, persistence_failed, finish_task, no_tasks, new_task, refreshed,
  run_refresh,
}

find_task-upsert : (u : Task) (ts : List Task) → find_task u.id (upsert u ts) ≡ some u
unfolding find_task upsert
find_task-upsert u [] = rw ((equal_iff u.id u.id).1 refl) refl
find_task-upsert u (t ∷ ts) = elim (Bool-cases (equal t.id u.id)) [
  | inl e ↦ rw (e, (equal_iff u.id u.id).1 refl) refl
  | inr e ↦ rw (e, e) (find_task-upsert u ts)
]

-- How a refresh ends, by whether its writes up to the first one of its end succeeded.
abbrev pub EndsAs : Bool → Result Bytes → Bool → Task → Type 0
EndsAs true (ok s) cancelled u =
    (u.state ≡ codes "succeeded") × (u.snapshot ≡ some s) × (u.completed ≡ 1)
EndsAs true (err e) true u = (u.state ≡ codes "cancelled") × (u.error ≡ some (codes e))
EndsAs true (err e) false u = (u.state ≡ codes "failed") × (u.error ≡ some (codes e))
EndsAs false result cancelled u =
    (u.state ≡ codes "failed")
    × (u.error ≡ some (codes "task persistence failed; resubmit unsuccessful keys"))

-- Where the end of a task is kept: in the database if one of the two writes succeeds, else in
-- memory.
abbrev pub IsKept : Bool → Task → App → Type 0
IsKept true u app = find_task u.id app.stored ≡ some u
IsKept false u app = find_task u.id app.unpersisted ≡ some u

-- What `finish_task` keeps of a task.
abbrev kept_as : ℕ → Bool → Task → Task
kept_as now true t = t
kept_as now false t = persistence_failed now t

finish_task-IsKept :
    (now : ℕ) (first second : Bool) (t : Task) (app : App)
    → IsKept (first || second) (kept_as now first t) (finish_task now first second t app)
unfolding finish_task
finish_task-IsKept now true second t app = find_task-upsert t app.stored
finish_task-IsKept now false true t app = find_task-upsert (persistence_failed now t) app.stored
finish_task-IsKept now false false t app =
    find_task-upsert (persistence_failed now t) app.unpersisted

forget-lacks : (id : Bytes) (ts : List Bytes) → All (λ t. t ≢ id) (forget id ts)
unfolding forget
forget-lacks id [] = tt
forget-lacks id (t ∷ ts) = elim (Bool-cases (equal t id)) [
  | inl e ↦ rw e (forget-lacks id ts)
  | inr e ↦ rw e ((λ same. absurd (ground (arith, (equal_iff t id).1 same, e))), forget-lacks id ts)
]

carried :
    (written : Bool) (u : Task) (app : App) (tokens : List Bytes) (permits : ℕ)
    → IsKept written u app
    → IsKept written u (record app { tokens = tokens; permits = permits })
carried true u app tokens permits h = h
carried false u app tokens permits h = h

refreshed_ends :
    (now : ℕ) (first : Bool) (result : Result Bytes) (cancelled : Bool) (t : Task)
    → EndsAs first result cancelled (kept_as now first (refreshed now result cancelled t))
unfolding refreshed persistence_failed
refreshed_ends now true (ok s) cancelled t = (refl, refl, refl)
refreshed_ends now true (err e) true t = (refl, refl)
refreshed_ends now true (err e) false t = (refl, refl)
refreshed_ends now false result cancelled t = (refl, refl)

refreshed_id :
    (now : ℕ) (first : Bool) (result : Result Bytes) (cancelled : Bool) (t : Task)
    → (kept_as now first (refreshed now result cancelled t)).id ≡ t.id
unfolding refreshed persistence_failed
refreshed_id now true (ok s) cancelled t = refl
refreshed_id now true (err e) cancelled t = refl
refreshed_id now false (ok s) cancelled t = refl
refreshed_id now false (err e) cancelled t = refl

unstarted_ends :
    (now : ℕ) (first : Bool) (result : Result Bytes) (cancelled : Bool) (t : Task)
    → EndsAs false result cancelled (kept_as now first (persistence_failed now t))
      × ((kept_as now first (persistence_failed now t)).id ≡ t.id)
unfolding persistence_failed
unstarted_ends now true result cancelled t = ((refl, refl), refl)
unstarted_ends now false result cancelled t = ((refl, refl), refl)

-- What has run: the task as it ended, and where it is kept.
pub record IsSettled (started : Bool) (result : Result Bytes) (cancelled first second : Bool)
    (t : Task) (app : App) : Type 0 where
  pub task : Task
  pub same_id : task.id ≡ t.id
  pub ends : EndsAs (started && first) result cancelled task
  pub kept : IsKept (first || second) task app
  pub token_gone : All (λ id. id ≢ t.id) app.tokens

-- A refresh that has run has ended. If its start and its end could be written at once, then with the
-- snapshot that was fetched it has succeeded, and with an error it is cancelled where its token was,
-- else failed, and holds the error; if one of the two writes failed, it has failed with the error of
-- the persistence. Where the end or the failure could be written, the task with its id is found so in
-- the database, else in memory; and its cancellation token is gone.
pub run_refresh-IsSettled :
    (now : ℕ) (started : Bool) (result : Result Bytes) (cancelled first second : Bool) (t : Task)
    (app : App)
    → IsSettled started result cancelled first second t
        (run_refresh now started result cancelled first second t app)
unfolding run_refresh
run_refresh-IsSettled now true result cancelled first second t app =
    let running = record t { state = codes "running" } in
    let u = refreshed now result cancelled running in
    let before = record app { stored = upsert running app.stored } in
    let after = finish_task now first second u before in
    record {
      task = kept_as now first u;
      same_id = refreshed_id now first result cancelled running;
      ends = refreshed_ends now first result cancelled running;
      kept =
          carried (first || second) (kept_as now first u) after _ _
            (finish_task-IsKept now first second u before);
      token_gone = forget-lacks t.id after.tokens;
    }
run_refresh-IsSettled now false result cancelled first second t app =
    let running = record t { state = codes "running" } in
    let u = persistence_failed now running in
    let after = finish_task now first second u app in
    let (ends, same) = unstarted_ends now first result cancelled running in
    record {
      task = kept_as now first u;
      same_id = same;
      ends = ends;
      kept =
          carried (first || second) (kept_as now first u) after _ _
            (finish_task-IsKept now first second u app);
      token_gone = forget-lacks t.id after.tokens;
    }

no_tasks-upsert : (t : Task) (ts : List Task) → no_tasks (upsert t ts) ≡ false
unfolding upsert
no_tasks-upsert t [] = refl
no_tasks-upsert t (u ∷ ts) = elim (Bool-cases (equal u.id t.id)) [
  | inl e ↦ rw e refl
  | inr e ↦ rw e refl
]

-- After the end of a task could not be written, twice, the service takes no new task: it answers that
-- the persistence is not available, or that it is shutting down.
pub new_task-finish_task :
    (now later : ℕ) (t : Task) (app : App) (id kind : Bytes) (saved : Bool)
    (snapshot : Option Bytes) (total : ℕ) (keys : List Bytes)
    → new_task later id saved kind snapshot total keys (finish_task now false false t app) ≡ (
        if app.shutdown
        then err "service shutting down"
        else err "task persistence unavailable; restart after repairing storage")
unfolding new_task finish_task
new_task-finish_task now later t app id kind saved snapshot total keys =
    let some_task = no_tasks-upsert (persistence_failed now t) app.unpersisted in
    elim (Bool-cases app.shutdown) [
      | inl e ↦ rw (new_task, e) refl
      | inr e ↦ rw (new_task, e) (rw some_task refl)
    ]

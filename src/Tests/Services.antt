-- ===== src/Tests/Services.antt =====
-- A restart with one task that was running, a refresh that fails, and a selection by prefix.
use moenotes_assets.Base.{
  ◌+◌, ◌≤◌, ◌<◌, true, false, none, some, List, [], ◌∷◌, ◌++◌, map, ◌≡◌, refl, if◌then◌else◌,
  length, All,
}
use moenotes_assets.Base.Outcome.{Result, ok, err}
use moenotes_assets.Base.Bytes.{Bytes, codes, equal, starts_with}
use mathlib.Core.List.{Memᴰ}
use moenotes_assets.TaskRunner.{failed_item}
use moenotes_assets.Service.{
  less, Task, is_active, interrupted, recovered, later, replace, process, last_id, recover,
}
use moenotes_assets.Service.Order.{Ascending}
use moenotes_assets.Service.Restart.{recover-map}
use moenotes_assets.Service.Settled.{IsFailed, recovered-IsSettled}
use moenotes_assets.Service.Ended.{IsSettled, run_refresh-IsSettled, new_task-finish_task}
use moenotes_assets.Service.Tasks.{App, finish_task, new_task, run_refresh}
use moenotes_assets.Service.Requests.{
  ExportRequest, insert, sort, dedup_from, dedup, matching, candidates, selection,
}
use moenotes_assets.Service.Requests.Sorted.{Strict}
use moenotes_assets.Service.Requests.Selection.{Asked, selection-IsChosen}

abbrev running_task : Task
running_task = record {
  id = codes "a1";
  kind = codes "export";
  state = codes "running";
  snapshot = none;
  keys = codes "x" ∷ codes "y" ∷ [];
  total = 2;
  completed = 1;
  results = record { key = codes "x"; export_id = some (codes "e"); error = none } ∷ [];
  error = none;
  created = 5;
  updated = 6;
}

abbrev done_task : Task
done_task = record running_task { id = codes "b2"; state = codes "succeeded" }

abbrev table : List Task
table = running_task ∷ done_task ∷ []

restarted :
    recover 3 9 [] table
    ≡ some (
        record running_task {
          state = codes "failed";
          error = some (codes "interrupted by service restart; resubmit failed keys");
          results =
              running_task.results ++ failed_item (codes "y") "interrupted by service restart" ∷ [];
          completed = 2;
          updated = 9;
        }
        ∷ done_task
        ∷ [])
unfolding recover later less process replace recovered interrupted failed_item last_id equal
restarted = refl

table-Ascending : Ascending [] table
unfolding Ascending less
table-Ascending = (refl, (refl, tt))

recover-map_example : recover (length table + 1) 9 [] table ≡ some (map (recovered 9) table)
recover-map_example = recover-map 9 table table-Ascending

recovered-IsSettled_example :
    (is_active running_task ≡ true → IsFailed running_task (recovered 9 running_task))
    × (is_active running_task ≡ false → recovered 9 running_task ≡ running_task)
recovered-IsSettled_example = recovered-IsSettled 9 running_task

abbrev app : App
app = record {
  shutdown = false;
  stored = table;
  unpersisted = [];
  tokens = codes "a1" ∷ [];
  permits = 3;
}

-- The catalog cannot be fetched, and the end of the task cannot be written.
run_refresh-IsSettled_example :
    IsSettled true
      (err "CDN HTTP")
      false
      false
      false
      running_task
      (run_refresh 9 true (err "CDN HTTP") false false false running_task app)
run_refresh-IsSettled_example =
    run_refresh-IsSettled 9 true (err "CDN HTTP") false false false running_task app

abbrev new_task_after : Result (Task × App)
new_task_after =
    new_task 10 (codes "c3") true (codes "export") none 1 (codes "x" ∷ [])
      (finish_task 9 false false running_task app)

no_new_task : new_task_after ≡ (
    if app.shutdown
    then err "service shutting down"
    else err "task persistence unavailable; restart after repairing storage")
no_new_task =
    new_task-finish_task 9 10 running_task app (codes "c3") (codes "export") true none 1
      (codes "x" ∷ [])

abbrev catalog_keys : List Bytes
catalog_keys = codes "A/1" ∷ codes "A/2" ∷ codes "B/1" ∷ []

abbrev request : ExportRequest
request = record { keys = []; prefix = some (codes "A/"); location_id = none }

catalog_keys-Strict : Strict catalog_keys
unfolding Strict less
catalog_keys-Strict = ((refl, (refl, tt)), ((refl, tt), (tt, tt)))

selected : selection 2 catalog_keys request ≡ ok (codes "A/1" ∷ codes "A/2" ∷ [])
unfolding selection candidates matching starts_with sort insert dedup dedup_from less equal
selected = refl

too_many : selection 1 catalog_keys request ≡ err "empty or excessive selection"
unfolding selection candidates matching starts_with sort insert dedup dedup_from less equal
too_many = refl

selection-IsChosen_example :
    Strict (codes "A/1" ∷ codes "A/2" ∷ [])
    × (0 < length (codes "A/1" ∷ codes "A/2" ∷ []))
    × (length (codes "A/1" ∷ codes "A/2" ∷ []) ≤ 2)
    × All (λ k. length k ≤ 4096) (codes "A/1" ∷ codes "A/2" ∷ [])
    × All (Asked catalog_keys request.prefix request.keys) (codes "A/1" ∷ codes "A/2" ∷ [])
    × ((x : Bytes)
        → Asked catalog_keys request.prefix request.keys x
        → Memᴰ x (codes "A/1" ∷ codes "A/2" ∷ []))
selection-IsChosen_example = selection-IsChosen 2 catalog_keys request catalog_keys-Strict selected

-- ===== src/Service/Tasks.antt =====
-- The life of a task in src/service.rs: it is queued, runs and ends, and its end is kept even if the
-- database fails.
use moenotes_assets.Base.{
  ℕ, ◌+◌, ◌-◌, Bool, true, false, not, Option, none, some, List, [], ◌∷◌, ltb, if◌then◌else◌,
}
use moenotes_assets.Base.Outcome.{Result, ok, err, ensure, ◌>>◌}
use moenotes_assets.Base.Bytes.{Bytes, codes, equal}
use moenotes_assets.Service.{Task}

-- The part of `App` that tasks change. `permits` is the semaphore `queue`, `tokens` the keys of
-- `cancellations`.
pub record App : Type 0 where
  pub shutdown : Bool
  pub stored : List Task
  pub unpersisted : List Task
  pub tokens : List Bytes
  pub permits : ℕ

unfoldable pub find_task : Bytes → List Task → Option Task
find_task id [] = none
find_task id (t ∷ ts) = if equal t.id id then some t else find_task id ts

-- `INSERT ... ON CONFLICT(id) DO UPDATE`, and `HashMap::insert`
unfoldable pub upsert : Task → List Task → List Task
upsert u [] = u ∷ []
upsert u (t ∷ ts) = if equal t.id u.id then u ∷ ts else t ∷ upsert u ts

unfoldable pub forget : Bytes → List Bytes → List Bytes
forget id [] = []
forget id (t ∷ ts) = let rest = forget id ts in if equal t id then rest else t ∷ rest

unfoldable pub persistence_failed : ℕ → Task → Task
persistence_failed now t = record t {
  state = codes "failed";
  error = some (codes "task persistence failed; resubmit unsuccessful keys");
  updated = now;
}

-- `first` and `second` tell whether the two writes succeed.
unfoldable pub finish_task : ℕ → Bool → Bool → Task → App → App
unfolding persistence_failed
finish_task now first second t app =
    if first
    then record app { stored = upsert t app.stored }
    else if second
    then record app { stored = upsert (persistence_failed now t) app.stored }
    else record app { unpersisted = upsert (persistence_failed now t) app.unpersisted }

abbrev pub no_tasks : List Task → Bool
no_tasks [] = true
no_tasks (t ∷ ts) = false

unfoldable pub queued_task : ℕ → Bytes → Bytes → Option Bytes → ℕ → List Bytes → Task
queued_task now id kind snapshot total keys = record {
  id = id;
  kind = kind;
  state = codes "queued";
  snapshot = snapshot;
  keys = keys;
  total = total;
  completed = 0;
  results = [];
  error = none;
  created = now;
  updated = now;
}

-- `id` is what `Uuid::new_v4` gives; `saved` tells whether the task is written.
unfoldable pub new_task :
    ℕ → Bytes → Bool → Bytes → Option Bytes → ℕ → List Bytes → App → Result (Task × App)
new_task now id saved kind snapshot total keys app = do
  ensure (not app.shutdown) "service shutting down"
  ensure (no_tasks app.unpersisted) "task persistence unavailable; restart after repairing storage"
  ensure (ltb 0 app.permits) "task queue full"
  let t = queued_task now id kind snapshot total keys
  ensure saved "task not saved"
  ok (
    t,
    record app {
      stored = upsert t app.stored;
      tokens = id ∷ forget id app.tokens;
      permits = app.permits - 1;
    },
  )

-- What `refresh` gives, and whether the token is cancelled then.
unfoldable pub refreshed : ℕ → Result Bytes → Bool → Task → Task
refreshed now result cancelled t = elim result [
  | ok s ↦ record t { snapshot = some s; completed = 1; state = codes "succeeded"; updated = now }
  | err e ↦ record t {
    state = if cancelled then codes "cancelled" else codes "failed";
    error = some (codes e);
    updated = now;
  }
]

-- The spawned part of `submit_refresh`; `started` tells whether the first write succeeds, `first` and
-- `second` are for `finish_task`. The permit is given back at the end.
unfoldable pub run_refresh : ℕ → Bool → Result Bytes → Bool → Bool → Bool → Task → App → App
unfolding finish_task refreshed persistence_failed
run_refresh now started result cancelled first second t app =
    let running = record t { state = codes "running" } in
    let ended =
      if started
      then finish_task now first second (refreshed now result cancelled running)
          (record app { stored = upsert running app.stored })
      else finish_task now first second (persistence_failed now running) app in
    record ended { tokens = forget t.id ended.tokens; permits = ended.permits + 1 }

-- ===== src/Tests/Tasks.antt =====
-- A task of three keys: the second ends first, the token is cancelled, the first is interrupted.
use moenotes_assets.Base.{
  ℕ, true, false, Option, none, some, List, [], ◌∷◌, map, ◌≡◌, refl, Bool, ◌==◌,
}
use moenotes_assets.Base.Bytes.{Bytes, codes}
use moenotes_assets.TaskRunner.{
  ItemResult, Event, Runner, cancel, joined, returned, interrupted, terminated, failed_item, start,
  fill, item, record_item, remove_at, step, verdict, finish, loop, begin, run, cancelled,
  run_export,
}
use moenotes_assets.TaskRunner.Accounting.{
  IsAccount, run-IsAccount, IsUnstarted, run_export-IsUnstarted,
}

abbrev exported : Bytes → ℕ → ItemResult
exported key n = record { key = key; export_id = some (codes "id"); error = none }

abbrev three : List Bytes
three = codes "a" ∷ codes "b" ∷ codes "c" ∷ []

abbrev never : ℕ → Bool
never n = false

abbrev events : List Event
events =
    joined 1 (returned 0) true never
    ∷ cancel
    ∷ joined 0 interrupted true never
    ∷ joined 0 terminated true never
    ∷ []

abbrev ended : Option Runner → Runner
ended (some s) = s
ended none = begin none false never []

run-three :
    run exported 2 none false never three events
    ≡ some (ended (run exported 2 none false never three events))
unfolding run loop fill start step remove_at item record_item finish verdict failed_item begin
run-three = refl

three_keys :
    map (λ (r : ItemResult). r.key) (ended (run exported 2 none false never three events)).results
    ≡ codes "b" ∷ codes "a" ∷ codes "c" ∷ []
unfolding run loop fill start step remove_at item record_item finish verdict failed_item begin
three_keys = refl

three_cancelled : (ended (run exported 2 none false never three events)).state ≡ cancelled
unfolding run loop fill start step remove_at item record_item finish verdict failed_item begin
three_cancelled = refl

-- The token is cancelled when the first of two free places is filled.
abbrev second : ℕ → Bool
second n = n == 1

one_started :
    map
      (λ (r : ItemResult). r.export_id)
      (ended
        (run exported 2 none false second three (joined 0 (returned 0) true never ∷ []))).results
    ≡ some (codes "id") ∷ none ∷ none ∷ []
unfolding run loop fill start step remove_at item record_item finish verdict failed_item begin
one_started = refl

run-IsAccount_example : IsAccount three (ended (run exported 2 none false never three events))
run-IsAccount_example =
    run-IsAccount exported 2 none false never three events (λ key n. refl) run-three

run_export-IsUnstarted_example :
    (t : Runner) × (run_export exported false 2 false never three [] ≡ some t) × IsUnstarted three t
run_export-IsUnstarted_example = run_export-IsUnstarted exported 2 false never three []

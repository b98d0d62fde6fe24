-- ===== src/Tests/Sharing.antt =====
-- Three callers of one key and one of another, which come and go.
use moenotes_assets.Base.{
  ℕ, ◌+◌, ◌<◌, true, false, none, some, List, [], ◌∷◌, ◌++◌, ◌≡◌, ◌⊎◌, refl, arith, length,
}
use moenotes_assets.Base.Outcome.{ok}
use moenotes_assets.Base.Bytes.{Bytes, codes, equal}
use moenotes_assets.Shared.{
  Operation, World, Step, join, leave, cancel, finish, find, update, alive, retain, joinable,
  existing, created, insert_new, join_key, step, steps, empty, erase,
}
use moenotes_assets.Shared.Waiters.{waiters, apply, action, started}
use moenotes_assets.Shared.Runs.{single_flight, waiters_hold}
use moenotes_assets.Shared.Refines.{steps_refine}

abbrev key_a : Bytes
key_a = codes "a"

abbrev visits : List (Step ℕ)
visits = join key_a ∷ join (codes "b") ∷ join key_a ∷ leave 0 ∷ finish 1 (ok 7) ∷ []

abbrev first_operation : Operation ℕ
first_operation = record {
  key = key_a;
  users = 1;
  owed = false;
  cancelled = false;
  producing = true;
  result = none;
}

abbrev second_operation : Operation ℕ
second_operation = record {
  key = codes "b";
  users = 1;
  owed = false;
  cancelled = false;
  producing = false;
  result = some (ok 7);
}

abbrev visited : World ℕ
visited = record {
  operations = first_operation ∷ second_operation ∷ [];
  registry = (codes "b", 1) ∷ (key_a, 0) ∷ [];
}

visits_lem : steps visits empty ≡ some visited
unfolding steps step join_key existing insert_new created retain alive joinable find update empty
    erase equal
visits_lem = refl

single_flight_example : ◌≡◌ {A = ℕ} 0 0
single_flight_example =
    single_flight visits 0 0 first_operation first_operation (omega arith) visits_lem refl refl refl
      (omega arith) (omega arith)

waiters_hold_example :
    (0 < first_operation.users
      → (first_operation.cancelled ≡ false) × (first_operation.owed ≡ false))
    × (first_operation.users ≡ 0
        → (first_operation.cancelled ≡ true) ⊎ (first_operation.owed ≡ true))
    × (first_operation.result ≡ none → first_operation.producing ≡ true)
waiters_hold_example = waiters_hold visits 0 first_operation (omega arith) visits_lem refl

-- The last waiter of the first operation leaves, and the key is joined anew before it is cancelled.
abbrev left : World ℕ
left = record visited {
  operations = record first_operation { users = 0; owed = true } ∷ second_operation ∷ [];
}

left_lem : step (leave 0) visited ≡ some left
unfolding step update
left_lem = refl

steps_refine_example :
    ((k : Bytes)
      → waiters left.operations k
        ≡ apply (action visited (leave 0)) k (waiters visited.operations k))
    × (length left.operations
        ≡ length visited.operations
          + started (action visited (leave 0)) (waiters visited.operations))
steps_refine_example = steps_refine visits (leave 0) (omega arith) visits_lem left_lem

rejoined :
    steps (visits ++ leave 0 ∷ join key_a ∷ cancel 0 ∷ []) empty
    ≡ some (record {
      operations =
          record first_operation { users = 0; cancelled = true }
          ∷ second_operation
          ∷ first_operation
          ∷ [];
      registry = (key_a, 2) ∷ (codes "b", 1) ∷ [];
    })
unfolding steps step join_key existing insert_new created retain alive joinable find update empty
    erase equal
rejoined = refl

-- ===== src/Shared.antt =====
-- src/shared.rs: the registry of shared operations as a store. An operation is named by its place in
-- the store; an `Arc` is that name, and a `Weak` is one that may have died. Threads are a list of
-- their atomic steps.
pub mod Users
pub mod Single
pub mod Runs
pub mod Refines
pub mod Joins
pub mod Waiters
use moenotes_assets.Base.{
  ℕ, zero, suc, ◌+◌, ◌-◌, ◌*◌, ◌/◌, ◌%◌, ◌^◌, ◌≤◌, ◌<◌, min, bit_xor, Bool, true, false, not, ◌&&◌,
  ◌||◌, Option, none, some, List, [], ◌∷◌, ◌++◌, map, ◌≡◌, ◌≢◌, ◌↔◌, ◌⊎◌, inl, inr, refl, sym, ap,
  ◌∙◌, arith, leb, ltb, ◌==◌, within, if◌then◌else◌, length, take, drop, replicate, get_or,
  get_elem?, all, any, All, String, Bool-cases, Option-cases,
}
use moenotes_assets.Base.Outcome.{
  Result, ok, err, ensure, context, collect, ◌>>=◌, ◌>>◌, >>=-eq-ok, ensure-eq-ok,
}
use moenotes_assets.Base.Bytes.{
  Bytes, IsBytes, codes, equal, starts_with, range, checked_add, be, le,
}

-- `Shared`, with the key that it was created for. `producing` tells that the producer has not sent
-- its result; `owed` that a waiter has taken the count to zero and has not yet cancelled the token.
pub record Operation (T : Type 0) : Type 0 where
  pub key : Bytes
  pub users : ℕ
  pub owed : Bool
  pub cancelled : Bool
  pub producing : Bool
  pub result : Option (Result T)

-- `Registry`; the first entry for a key counts.
abbrev pub Registry : Type 0
Registry = List (Bytes × ℕ)

pub record World (T : Type 0) : Type 0 where
  pub operations : List (Operation T)
  pub registry : Registry

-- `join` up to the `Waiter`, which is done under the lock of the registry; the drop of a `Waiter`
-- in two steps, `fetch_sub` and `cancel`; and the end of the producer.
pub data Step (T : Type 0) : Type 0 where
  join : Bytes → Step T
  leave : ℕ → Step T
  cancel : ℕ → Step T
  finish : ℕ → Result T → Step T

unfoldable pub find : Bytes → Registry → Option ℕ
find key [] = none
find key ((k, i) ∷ rest) = if equal k key then some i else find key rest

-- What `insert` replaces.
unfoldable pub erase : Bytes → Registry → Registry
erase key [] = []
erase key ((k, i) ∷ rest) = let more = erase key rest in if equal k key then more else (k, i) ∷ more

unfoldable pub update {ℓ} : {A : Type ℓ} → ℕ → A → List A → List A
update n a [] = []
update zero a (x ∷ xs) = a ∷ xs
update (suc n) a (x ∷ xs) = x ∷ update n a xs

module _ {T : Type 0} where
  -- `strong_count() > 0`: a waiter or the producer holds it.
  unfoldable pub alive : List (Operation T) → ℕ → Bool
  alive os i = elim (get_elem? os i) [ none ↦ false | some o ↦ ltb 0 o.users || o.producing ]

  -- `map.retain`
  unfoldable pub retain : List (Operation T) → Registry → Registry
  retain os [] = []
  retain os ((k, i) ∷ rest) =
      let more = retain os rest in if alive os i then (k, i) ∷ more else more

  -- The two filters: not cancelled, and `fetch_update` succeeds.
  unfoldable pub joinable : Operation T → Bool
  joinable o = not o.cancelled && ltb 0 o.users && ltb (o.users + 1) (2 ^ 64)

  unfoldable pub existing : World T → Bytes → Option (ℕ × Operation T)
  existing w key = elim (find key w.registry) [
    | none ↦ none
    | some i ↦ elim (get_elem? w.operations i) [
      | none ↦ none
      | some o ↦ if alive w.operations i && joinable o then some (i, o) else none
    ]
  ]

  unfoldable pub created : Bytes → Operation T
  created key = record {
    key = key;
    users = 1;
    owed = false;
    cancelled = false;
    producing = true;
    result = none;
  }

  -- `map.insert` and the spawned producer
  unfoldable pub insert_new : Bytes → World T → World T
  insert_new key w = record {
    operations = w.operations ++ created key ∷ [];
    registry = (key, length w.operations) ∷ erase key w.registry;
  }

  unfoldable pub join_key : Bytes → World T → World T
  join_key key w₀ =
      let w = record w₀ { registry = retain w₀.operations w₀.registry } in
      elim (existing w key) [
        | none ↦ insert_new key w
        | some (i, o) ↦ record w {
          operations = update i (record o { users = o.users + 1 }) w.operations;
        }
      ]

  -- One step; `none` for one that cannot happen.
  unfoldable pub step : Step T → World T → Option (World T)
  step (join key) w = some (join_key key w)
  step (leave i) w = elim (get_elem? w.operations i) [
    | none ↦ none
    | some o ↦
        if ltb 0 o.users
        then some (record w {
          operations =
              update i (record o { users = o.users - 1; owed = o.users == 1 || o.owed })
                w.operations;
        })
        else none
  ]
  step (cancel i) w = elim (get_elem? w.operations i) [
    | none ↦ none
    | some o ↦
        if o.owed
        then some (record w {
          operations = update i (record o { owed = false; cancelled = true }) w.operations;
        })
        else none
  ]
  step (finish i r) w = elim (get_elem? w.operations i) [
    | none ↦ none
    | some o ↦
        if o.producing
        then some (record w {
          operations = update i (record o { producing = false; result = some r }) w.operations;
        })
        else none
  ]

  unfoldable pub steps : List (Step T) → World T → Option (World T)
  steps [] w = some w
  steps (s ∷ ss) w = elim (step s w) [ none ↦ none | some v ↦ steps ss v ]

  unfoldable pub empty : World T
  empty = record { operations = []; registry = [] }

  -- One turn of the loop of `join`: an answer, or to wait for a change.
  unfoldable pub poll : Bool → Operation T → Option (Result T)
  poll caller_cancelled o = if caller_cancelled then some (err "cancelled") else o.result

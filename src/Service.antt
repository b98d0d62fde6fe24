-- ===== src/Service.antt =====
-- src/service.rs: the tasks and where they are kept. The tables of the database are lists; `saved`
-- tells whether a write succeeds. The pages of the restart are in Service/Restart.
pub mod Order
pub mod Restart
pub mod Settled
pub mod Requests
pub mod Tasks
pub mod Ended
use moenotes_assets.Base.Percent.{is_ascii_hexdigit}
use moenotes_assets.Base.{
  ℕ, zero, suc, ◌+◌, ◌-◌, ◌*◌, ◌/◌, ◌%◌, ◌^◌, ◌≤◌, ◌<◌, min, bit_xor, Bool, true, false, not, ◌&&◌,
  ◌||◌, Option, none, some, List, [], ◌∷◌, ◌++◌, map, ◌≡◌, ◌≢◌, ◌↔◌, ◌⊎◌, inl, inr, refl, sym, ap,
  ◌∙◌, arith, leb, ltb, ◌==◌, within, if◌then◌else◌, length, take, drop, replicate, get_or,
  get_elem?, all, any, All, String, Bool-cases, Option-cases,
}
use moenotes_assets.Base.Outcome.{
  Result, ok, err, ensure, context, collect, ◌>>=◌, ◌>>◌, >>=-eq-ok, ensure-eq-ok,
}
use moenotes_assets.Base.Bytes.{
  Bytes, IsBytes, codes, equal, starts_with, range, checked_add, be, le,
}
use mathlib.Core.Option.{some_inj, none-ne-some}
use mathlib.Core.Path.{subst, ap₂}
use mathlib.Core.List.{Memᴰ}
use mathlib.Core.List.Memᴰ
use moenotes_assets.Base.Outcome.{ok_injective, Result-cases}
use moenotes_assets.Base.{leb→le, and_split, ℕ_discrete, dec_le, dec_lt}
use moenotes_assets.TaskRunner.{ItemResult, failed_item}

pub record Task : Type 0 where
  pub id : Bytes
  pub kind : Bytes
  pub state : Bytes
  pub snapshot : Option Bytes
  pub keys : List Bytes
  pub total : ℕ
  pub completed : ℕ
  pub results : List ItemResult
  pub error : Option Bytes
  pub created : ℕ
  pub updated : ℕ

unfoldable pub valid_id : Bytes → Bool
unfolding is_ascii_hexdigit
valid_id s =
    not (length s == 0) && leb (length s) 64 && all (λ b. is_ascii_hexdigit b || b == b'-') s

-- `String`'s order, and that of the `id` column
unfoldable pub less : Bytes → Bytes → Bool
less xs [] = false
less [] (y ∷ ys) = true
less (x ∷ xs) (y ∷ ys) = ltb x y || (x == y && less xs ys)

abbrev pub is_active : Task → Bool
is_active t = equal t.state (codes "queued") || equal t.state (codes "running")

abbrev pub reported : List ItemResult → Bytes → Bool
reported results key = any (λ r. equal r.key key) results

-- The results of the keys that have none.
unfoldable pub interrupted : List ItemResult → List Bytes → List ItemResult
interrupted results [] = []
interrupted results (key ∷ keys) =
    let rest = interrupted results keys in
    if reported results key then rest else failed_item key "interrupted by service restart" ∷ rest

-- What the restart makes of a task.
unfoldable pub recovered : ℕ → Task → Task
unfolding interrupted failed_item
recovered now t =
    let results = t.results ++ interrupted t.results t.keys in
    if is_active t
    then record t {
      state = codes "failed";
      error = some (codes "interrupted by service restart; resubmit failed keys");
      results = results;
      completed = if equal t.kind (codes "export") then length results else t.completed;
      updated = now;
    }
    else t

-- `SELECT id,body FROM tasks WHERE id>? ORDER BY id LIMIT 100`, of a table in the order of ids
unfoldable pub later : Bytes → List Task → List Task
later previous [] = []
later previous (t ∷ ts) =
    let rest = later previous ts in if less previous t.id then t ∷ rest else rest

-- `UPDATE tasks SET body=? WHERE id=?`
unfoldable pub replace : Task → List Task → List Task
replace u [] = []
replace u (t ∷ ts) = (if equal t.id u.id then u else t) ∷ replace u ts

-- The loop over the rows of a page.
unfoldable pub process : ℕ → List Task → List Task → List Task
process now [] table = table
process now (row ∷ rows) table =
    process now rows (if is_active row then replace (recovered now row) table else table)

unfoldable pub last_id : Bytes → List Task → Bytes
last_id previous [] = previous
last_id previous (row ∷ rows) = last_id row.id rows

-- The loop over the pages; `none` when the fuel is used up.
unfoldable pub recover : ℕ → ℕ → Bytes → List Task → Option (List Task)
unfolding later process last_id
recover zero now previous table = none
recover (suc fuel) now previous table =
    let rows = take 100 (later previous table) in
    let next = recover fuel now (last_id previous rows) (process now rows table) in
    elim rows [ [] ↦ some table | row ∷ more ↦ next ]

-- ===== src/Service/Requests.antt =====
-- src/service.rs: what an export request selects, and the bounded fetch.
pub mod Sorted
pub mod Selection
use moenotes_assets.Base.{
  ℕ, zero, suc, ◌+◌, ◌-◌, ◌*◌, ◌/◌, ◌%◌, ◌^◌, ◌≤◌, ◌<◌, min, bit_xor, Bool, true, false, not, ◌&&◌,
  ◌||◌, Option, none, some, List, [], ◌∷◌, ◌++◌, map, ◌≡◌, ◌≢◌, ◌↔◌, ◌⊎◌, inl, inr, refl, sym, ap,
  ◌∙◌, arith, leb, ltb, ◌==◌, within, if◌then◌else◌, length, take, drop, replicate, get_or,
  get_elem?, all, any, All, String, Bool-cases, Option-cases,
}
use moenotes_assets.Base.Outcome.{
  Result, ok, err, ensure, context, collect, ◌>>=◌, ◌>>◌, >>=-eq-ok, ensure-eq-ok,
}
use moenotes_assets.Base.Bytes.{
  Bytes, IsBytes, codes, equal, starts_with, range, checked_add, be, le,
}
use mathlib.Core.Option.{some_inj, none-ne-some}
use mathlib.Core.Path.{subst, ap₂}
use mathlib.Core.List.{Memᴰ}
use mathlib.Core.List.Memᴰ
use moenotes_assets.Base.Outcome.{ok_injective, Result-cases}
use moenotes_assets.Base.{leb→le, and_split, ℕ_discrete, dec_le, dec_lt}
use moenotes_assets.Service.{less}

-- `ExportRequest`, less the archive flag; the location of the selector may be given.
pub record ExportRequest : Type 0 where
  pub keys : List Bytes
  pub prefix : Option Bytes
  pub location_id : Option ℕ

-- `sort` on strings, which is stable
unfoldable pub insert : Bytes → List Bytes → List Bytes
insert k [] = k ∷ []
insert k (j ∷ js) = if less j k then j ∷ insert k js else k ∷ j ∷ js

unfoldable pub sort : List Bytes → List Bytes
unfolding insert
sort [] = []
sort (k ∷ ks) = insert k (sort ks)

-- `dedup`: of equal neighbours the first stays.
unfoldable pub dedup_from : Bytes → List Bytes → List Bytes
dedup_from k [] = k ∷ []
dedup_from k (j ∷ js) =
    let same = dedup_from k js in
    let other = k ∷ dedup_from j js in if equal k j then same else other

unfoldable pub dedup : List Bytes → List Bytes
unfolding dedup_from
dedup [] = []
dedup (k ∷ ks) = dedup_from k ks

unfoldable pub matching : Bytes → List Bytes → List Bytes
matching prefix [] = []
matching prefix (k ∷ ks) =
    let rest = matching prefix ks in if starts_with k prefix then k ∷ rest else rest

abbrev pub is_given : Option Bytes → Bool
is_given none = false
is_given (some b) = true

abbrev pub no_keys : List Bytes → Bool
no_keys [] = true
no_keys (k ∷ ks) = false

abbrev pub no_location : Option ℕ → Bool
no_location none = true
no_location (some n) = false

unfoldable pub candidates : ℕ → List Bytes → ExportRequest → List Bytes
unfolding matching
candidates max_keys catalog_keys r = elim r.prefix [
  | none ↦ r.keys
  | some prefix ↦ take (max_keys + 1) (matching prefix catalog_keys)
]

-- The keys of `submit_export`; those of the catalog come in the order of its map.
unfoldable pub selection : ℕ → List Bytes → ExportRequest → Result (List Bytes)
selection max_keys catalog_keys r = do
  ensure
      ((is_given r.prefix && no_keys r.keys) || (not (is_given r.prefix) && not (no_keys r.keys)))
      "provide either keys or prefix"
  let keys = dedup (sort (candidates max_keys catalog_keys r))
  ensure (not (no_keys keys) && leb (length keys) max_keys) "empty or excessive selection"
  ensure (all (λ k. leb (length k) 4096) keys) "key limit"
  ensure (no_location r.location_id || length keys == 1) "location_id requires exactly one key"
  ok keys

-- The loop of `fetch_bytes`, less its cancellation.
unfoldable pub fetch : ℕ → Bytes → List (Result Bytes) → Result Bytes
fetch max bytes [] = ok bytes
fetch max bytes (err e ∷ chunks) = err e
fetch max bytes (ok chunk ∷ chunks) = do
  ensure (leb (length chunk) (max - length bytes)) "response size limit"
  fetch max (bytes ++ chunk) chunks

unfoldable pub fetch_bytes : ℕ → ℕ → Option ℕ → List (Result Bytes) → Result Bytes
unfolding fetch
fetch_bytes max status content_length chunks = do
  ensure (status == 200) "CDN HTTP"
  ensure (elim content_length [ none ↦ true | some n ↦ leb n max ]) "response size limit"
  fetch max [] chunks

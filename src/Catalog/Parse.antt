-- ===== src/Catalog/Parse.antt =====
-- `Catalog::parse` of src/catalog.rs.
pub mod Total
pub mod Rounds
pub mod Closed
use moenotes_assets.Base.{
  ℕ, zero, suc, ◌+◌, ◌-◌, ◌*◌, ◌/◌, ◌%◌, ◌^◌, ◌≤◌, ◌<◌, min, bit_xor, Bool, true, false, not, ◌&&◌,
  ◌||◌, Option, none, some, List, [], ◌∷◌, ◌++◌, map, ◌≡◌, ◌≢◌, ◌↔◌, ◌⊎◌, inl, inr, refl, sym, ap,
  ◌∙◌, arith, leb, ltb, ◌==◌, within, if◌then◌else◌, length, take, drop, replicate, get_or,
  get_elem?, all, any, All, String, Bool-cases, Option-cases,
}
use moenotes_assets.Base.Outcome.{
  Result, ok, err, ensure, context, collect, ◌>>=◌, ◌>>◌, >>=-eq-ok, ensure-eq-ok,
}
use moenotes_assets.Base.Bytes.{
  Bytes, IsBytes, codes, equal, starts_with, range, checked_add, be, le,
}
use moenotes_assets.Catalog.{Location, Locations, Options, Catalog, get, ids_of, is_some}
use moenotes_assets.Catalog.Reader.{Reader, u32, take_at, array, location}
use moenotes_assets.Catalog.Reader

abbrev pub materialization : ℕ
materialization = 128 * 2 ^ 20

-- `BTreeSet::insert`; the set is in ascending order.
unfoldable pub add : ℕ → List ℕ → List ℕ
add n [] = n ∷ []
add n (x ∷ xs) =
    let rest = add n xs in if ltb n x then n ∷ x ∷ xs else (if n == x then x ∷ xs else x ∷ rest)

-- `pending.extend`
unfoldable pub extend : List ℕ → List ℕ → List ℕ
extend [] set = set
extend (n ∷ ns) set = extend ns (add n set)

-- The variables of the loop over the keys
pub record Keys : Type 0 where
  pub keys : List (Bytes × List ℕ)
  pub pending : List ℕ
  pub references : ℕ
  pub materialized : ℕ
  pub reader : Reader

unfoldable pub keep : Option Bytes → List ℕ → Keys → Result Keys
keep none ids s = ok s
keep (some k) ids s = do
  let total = s.materialized + (length k + length ids * 4)
  ensure (leb total materialization) "catalog materialization budget"
  ensure (not (is_some (ids_of k s.keys))) "duplicate catalog key"
  ok (record s { keys = s.keys ++ (k, ids) ∷ []; materialized = total })

unfoldable pub key_entry : Bytes → ℕ → Keys → Result Keys
key_entry d a s = do
  at ← u32 d (a + 4)
  entries ← array d at 4
  ids ← collect (u32 d) entries
  ensure (leb (s.references + length ids) 1_000_000) "catalog key reference budget"
  o ← u32 d a
  (k, r) ← Reader.key d o s.reader
  keep k ids (record s {
    references = s.references + length ids;
    pending = extend ids s.pending;
    reader = r;
  })

unfoldable pub key_entries : Bytes → List ℕ → Keys → Result Keys
key_entries d [] s = ok s
key_entries d (a ∷ as') s = do t ← key_entry d a s; key_entries d as' t

-- The variables of the loop over the locations
pub record Found : Type 0 where
  pub pending : List ℕ
  pub locations : Locations
  pub edges : ℕ
  pub materialized : ℕ
  pub reader : Reader

unfoldable pub option_size : Option Options → ℕ
option_size none = 0
option_size (some o) = length o.bundle_name + length o.hash

unfoldable pub size_of : Location → ℕ
size_of l =
    length l.key
    + length l.internal
    + length l.provider
    + length l.resource_type
    + length l.dependencies * 4
    + option_size l.options

abbrev pub missing : Locations → List ℕ → List ℕ
missing locations [] = []
missing locations (d ∷ ds) =
    let rest = missing locations ds in if is_some (get d locations) then rest else d ∷ rest

-- The body of `while let Some(id) = pending.pop_first()`; `pending` is what is left of it.
unfoldable pub enter : Bytes → ℕ → List ℕ → Found → Result Found
enter d id pending s =
    if is_some (get id s.locations) then ok (record s { pending = pending }) else (do
      ensure (ltb (length s.locations) 200_000) "location limit"
      (l, r) ← location d id s.reader
      ensure (leb (s.materialized + size_of l) materialization) "catalog materialization budget"
      ensure (leb (s.edges + length l.dependencies) 1_000_000) "dependency limit"
      ok (record {
        pending = extend (missing s.locations l.dependencies) pending;
        locations = (id, l) ∷ s.locations;
        edges = s.edges + length l.dependencies;
        materialized = s.materialized + size_of l;
        reader = r;
      }))

-- The loop, on fuel, over what is pending
unfoldable pub locations_loop : ℕ → Bytes → List ℕ → Found → Option (Result Found)
locations_loop fuel d [] s = some (ok s)
locations_loop zero d (id ∷ pending) s = none
locations_loop (suc fuel) d (id ∷ pending) s = elim (enter d id pending s) [
  | err e ↦ some (err e)
  | ok t ↦ locations_loop fuel d t.pending t
]

unfoldable pub keys_of : Bytes → Result Keys
keys_of d = do
  ensure (leb (length d) (32 * 2 ^ 20)) "catalog size limit"
  magic ← u32 d 0
  version ← (if magic == 0x0de38942 then u32 d 4 else ok 0)
  ensure (magic == 0x0de38942 && version == 2) "unsupported catalog format"
  _ ← take_at d 0 32
  at ← u32 d 8
  entries ← array d at 8
  key_entries d entries (record {
    keys = [];
    pending = [];
    references = 0;
    materialized = 0;
    reader = record { strings = []; string_bytes = 0 };
  })

-- At most a million dependencies become pending, and each pending location is popped once.
unfoldable pub locate : Bytes → Keys → Option (Result Found)
locate d k = locations_loop (length k.pending + 1_000_000) d k.pending (record {
  pending = k.pending;
  locations = [];
  edges = 0;
  materialized = k.materialized;
  reader = k.reader;
})

abbrev pub catalog_of : Keys → Option (Result Found) → Option (Result Catalog)
catalog_of k none = none
catalog_of k (some (err e)) = some (err e)
catalog_of k (some (ok s)) = some (ok (record { keys = k.keys; locations = s.locations }))

unfoldable pub parse : Bytes → Option (Result Catalog)
parse d = elim (keys_of d) [ err e ↦ some (err e) | ok k ↦ catalog_of k (locate d k) ]

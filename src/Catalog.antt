-- ===== src/Catalog.antt =====
-- src/catalog.rs: the catalog, `resolve` and `closure_from`. A `BTreeMap` is an association list,
-- whose first entry for a key counts; text is its UTF-8.
pub mod Closure
pub mod Progress
pub mod Reach
pub mod Reader
pub mod Parse
use moenotes_assets.Base.{
  ℕ, zero, suc, ◌+◌, ◌-◌, ◌*◌, ◌/◌, ◌%◌, ◌^◌, ◌≤◌, ◌<◌, min, bit_xor, Bool, true, false, not, ◌&&◌,
  ◌||◌, Option, none, some, List, [], ◌∷◌, ◌++◌, map, ◌≡◌, ◌≢◌, ◌↔◌, ◌⊎◌, inl, inr, refl, sym, ap,
  ◌∙◌, arith, leb, ltb, ◌==◌, within, if◌then◌else◌, length, take, drop, replicate, get_or,
  get_elem?, all, any, All, String, Bool-cases, Option-cases,
}
use moenotes_assets.Base.Outcome.{
  Result, ok, err, ensure, context, collect, ◌>>=◌, ◌>>◌, >>=-eq-ok, ensure-eq-ok,
}
use moenotes_assets.Base.Bytes.{
  Bytes, IsBytes, codes, equal, starts_with, range, checked_add, be, le,
}

abbrev pub crypt : Bytes
crypt = codes "Fwk.Crypt.AssetBundleCryptProvider"

abbrev pub plain : Bytes
plain = codes "UnityEngine.ResourceManagement.ResourceProviders.AssetBundleProvider"

abbrev pub cri : Bytes
cri = codes "CriWare.Assets.CriResourceProvider"

pub record Selector : Type 0 where
  pub expected_type : Option Bytes
  pub location_id : Option ℕ

pub record Options : Type 0 where
  pub hash : Bytes
  pub bundle_name : Bytes
  pub crc : ℕ
  pub size : ℕ

pub record Location : Type 0 where
  pub id : ℕ
  pub key : Bytes
  pub internal : Bytes
  pub provider : Bytes
  pub resource_type : Bytes
  pub dependencies : List ℕ
  pub options : Option Options

abbrev pub Locations : Type 0
Locations = List (ℕ × Location)

pub record Catalog : Type 0 where
  pub keys : List (Bytes × List ℕ)
  pub locations : Locations

unfoldable pub ids_of : Bytes → List (Bytes × List ℕ) → Option (List ℕ)
ids_of key [] = none
ids_of key ((k, ids) ∷ rest) = if equal k key then some ids else ids_of key rest

unfoldable pub get : ℕ → Locations → Option Location
get id [] = none
get id ((i, l) ∷ rest) = if i == id then some l else get id rest

abbrev pub none_or_id : Option ℕ → ℕ → Bool
none_or_id none n = true
none_or_id (some i) n = i == n

abbrev pub none_or_type : Option Bytes → Bytes → Bool
none_or_type none t = true
none_or_type (some s) t = equal s t

-- The filter of `resolve`.
unfoldable pub selects : Selector → Location → Bool
selects s l = none_or_id s.location_id l.id && none_or_type s.expected_type l.resource_type

abbrev pub filter {ℓ} : {A : Type ℓ} → (A → Bool) → List A → List A
filter p [] = []
filter p (x ∷ xs) = let rest = filter p xs in if p x then x ∷ rest else rest

-- The two locations lead to the same payload.
unfoldable pub agrees : Location → Location → Bool
agrees first other =
    equal other.internal first.internal
    && equal other.provider first.provider
    && equal other.dependencies first.dependencies

-- `selected.first()` and the check that all agree with it
unfoldable pub only : List Location → Result Location
only [] = err "selector did not match a location"
only (first ∷ rest) = do
  ensure (all (agrees first) (first ∷ rest))
      "ambiguous asset key; select expected_type or location_id"
  ok first

unfoldable pub candidate : Catalog → ℕ → Result Location
candidate c id = context (get id c.locations) "location missing"

unfoldable pub resolve : Catalog → Bytes → Selector → Result Location
resolve c key selector = do
  ids ← context (ids_of key c.keys) "asset key not found"
  candidates ← collect (candidate c) ids
  only (filter (selects selector) candidates)

unfoldable pub contains : ℕ → List ℕ → Bool
contains n [] = false
contains n (x ∷ xs) = x == n || contains n xs

abbrev pub is_some {ℓ} : {A : Type ℓ} → Option A → Bool
is_some none = false
is_some (some a) = true

-- `todo.extend`: the last of the new elements is popped first.
unfoldable pub pushed : List ℕ → List ℕ → List ℕ
pushed [] todo = todo
pushed (d ∷ ds) todo = pushed ds (d ∷ todo)

unfoldable pub supported : Location → Bool
supported l = equal l.provider crypt || equal l.provider plain || equal l.provider cri

-- What a location adds to the result.
unfoldable pub collected : Location → List Location → Result (List Location)
collected l out =
    if is_some l.options
    then (do ensure (supported l) "unsupported provider"; ok (out ++ l ∷ []))
    else ok out

-- The body of `while let Some(id) = todo.pop()`: what is left to do, what was seen, and the result.
unfoldable pub visit :
    Locations → ℕ → List ℕ → List ℕ → List Location → Result (List ℕ × List ℕ × List Location)
visit locations id todo seen out = if contains id seen then ok (todo, seen, out) else (do
  l ← context (get id locations) "dependency missing"
  more ← collected l out
  ok (pushed l.dependencies todo, id ∷ seen, more))

unfoldable pub closure_loop :
    ℕ → Locations → List ℕ → List ℕ → List Location → Option (Result (List Location))
closure_loop fuel locations [] seen out = some (ok out)
closure_loop zero locations (id ∷ todo) seen out = none
closure_loop (suc fuel) locations (id ∷ todo) seen out = elim (visit locations id todo seen out) [
  | err e ↦ some (err e)
  | ok (todo', seen', out') ↦ closure_loop fuel locations todo' seen' out'
]

-- A location is entered once, and each of its dependencies is popped once.
unfoldable pub edges : Locations → ℕ
edges [] = 0
edges ((i, l) ∷ rest) = length l.dependencies + edges rest

abbrev is_empty {ℓ} : {A : Type ℓ} → List A → Bool
is_empty [] = true
is_empty (x ∷ xs) = false

abbrev pub not_empty : Result (List Location) → Result (List Location)
not_empty r = do out ← r; ensure (not (is_empty out)) "no downloadable dependencies"; ok out

abbrev pub finished : Option (Result (List Location)) → Option (Result (List Location))
finished none = none
finished (some r) = some (not_empty r)

unfoldable pub closure_from : Catalog → ℕ → Option (Result (List Location))
closure_from c id = finished (closure_loop (1 + edges c.locations) c.locations (id ∷ []) [] [])

-- `Catalog::target` and `Catalog::closure`
unfoldable pub target : Catalog → Bytes → Result Location
target c key = resolve c key (record { expected_type = none; location_id = none })

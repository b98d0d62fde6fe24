-- ===== src/Plan.antt =====
-- src/plan.rs: which locations an export fetches, and how the result is called.
pub mod Order
pub mod Choice
pub mod Fonts
pub mod Kinds
use moenotes_assets.Base.{
  ℕ, zero, suc, ◌+◌, ◌-◌, ◌*◌, ◌/◌, ◌%◌, ◌^◌, ◌≤◌, ◌<◌, min, bit_xor, Bool, true, false, not, ◌&&◌,
  ◌||◌, Option, none, some, List, [], ◌∷◌, ◌++◌, map, ◌≡◌, ◌≢◌, ◌↔◌, ◌⊎◌, inl, inr, refl, sym, ap,
  ◌∙◌, arith, leb, ltb, ◌==◌, within, if◌then◌else◌, length, take, drop, replicate, get_or,
  get_elem?, all, any, All, String, Bool-cases, Option-cases,
}
use moenotes_assets.Base.Outcome.{
  Result, ok, err, ensure, context, collect, ◌>>=◌, ◌>>◌, >>=-eq-ok, ensure-eq-ok,
}
use moenotes_assets.Base.Bytes.{
  Bytes, IsBytes, codes, equal, starts_with, range, checked_add, be, le,
}
use moenotes_assets.Catalog.{
  Location, Catalog, Selector, get, ids_of, resolve, closure_from, filter, cri,
}

abbrev split_acb_type : Bytes
split_acb_type = codes "Fwk.Sound.SplitAcbData"

pub record Plan : Type 0 where
  pub target : Location
  pub dependencies : List Location
  pub omitted_local : List Location
  pub archive : Bool
  pub font : Bool
  pub embedded_cri : Bool
  pub supported : Bool

unfoldable pub remote : Location → Bool
remote l = starts_with l.internal (codes "https://") || starts_with l.internal (codes "http://")

unfoldable pub is_font : Location → Bool
is_font l =
    equal l.resource_type (codes "TMPro.TMP_FontAsset")
    || equal l.resource_type (codes "UnityEngine.Font")

-- `font`: one of the locations that the key names is a font.
unfoldable pub names_font : Catalog → List ℕ → Bool
names_font c = any (λ id. elim (get id c.locations) [ none ↦ false | some l ↦ is_font l ])

unfoldable pub is_cri : Location → Bool
is_cri l = equal l.provider cri || starts_with l.resource_type (codes "CriWare.")

unfoldable pub insert : Location → List Location → List Location
insert x [] = x ∷ []
insert x (y ∷ ys) = let rest = insert x ys in if leb x.id y.id then x ∷ y ∷ ys else y ∷ rest

-- `sort_by_key(|l| l.id)`, which is stable
unfoldable pub sort : List Location → List Location
sort [] = []
sort (x ∷ xs) = insert x (sort xs)

unfoldable pub supports : Bool → Location → Bool
supports archive target =
    archive
    || equal target.resource_type split_acb_type
    || is_cri target
    || equal target.resource_type (codes "UnityEngine.TextAsset")
    || equal target.resource_type (codes "UnityEngine.Texture2D")
    || equal target.resource_type (codes "UnityEngine.Sprite")
    || equal target.resource_type (codes "UnityEngine.U2D.SpriteAtlas")

-- The choice by `raw`, the dependencies of the CRI provider
unfoldable pub chosen : List Location → List Location → Result (List Location × Bool)
chosen dependencies [] = ok (dependencies, true)
chosen dependencies (raw ∷ []) = ok (raw ∷ [], false)
chosen dependencies (raw ∷ more) = err "ambiguous CRI media dependencies"

-- The dependencies that are fetched, and whether CRI media is embedded in them.
unfoldable pub narrowed : Bool → List Location → Result (List Location × Bool)
narrowed false dependencies = ok (dependencies, false)
narrowed true dependencies = chosen dependencies (filter (λ l. equal l.provider cri) dependencies)

abbrev pub plan_of :
    Catalog → Bool → Location → List Location → List ℕ → List Location → Bool → Plan
plan_of c archive target closure ids dependencies embedded_cri = record {
  target = target;
  dependencies = dependencies;
  omitted_local = filter (λ l. not (remote l)) closure;
  archive = archive || names_font c ids;
  font = names_font c ids;
  embedded_cri = embedded_cri;
  supported = supports (archive || names_font c ids) target;
}

-- What `build` makes of the closure. The key is in the catalog, since `resolve` found it.
unfoldable pub planned : Catalog → Bytes → Bool → Location → List Location → Result Plan
planned c key archive target closure = do
  ids ← context (ids_of key c.keys) "asset key not found"
  (dependencies, embedded_cri) ←
      narrowed (is_cri target && not (archive || names_font c ids)) (sort (filter remote closure))
  ensure (leb (length dependencies) 512) "dependency count limit"
  ok (plan_of c archive target closure ids dependencies embedded_cri)

unfoldable pub build_from :
    Catalog → Bytes → Bool → Location → Option (Result (List Location)) → Option (Result Plan)
build_from c key archive target none = none
build_from c key archive target (some r) =
    some (do closure ← r; planned c key archive (record target { key = key }) closure)

unfoldable pub build : Catalog → Bytes → Selector → Bool → Option (Result Plan)
build c key selector archive = elim (resolve c key selector) [
  | err e ↦ some (err e)
  | ok target ↦ build_from c key archive target (closure_from c target.id)
]

abbrev is_empty {ℓ} : {A : Type ℓ} → List A → Bool
is_empty [] = true
is_empty (x ∷ xs) = false

unfoldable pub validate : Plan → Result (Unit {0})
validate p = do
  ensure p.supported "unsupported preview type; use archive for HTTP containers"
  ensure (not (is_empty p.dependencies) || p.font)
      "no HTTP resource payload; package-only content has no catalog download URL"

unfoldable pub disposition : Plan → String
disposition p =
    if p.font
    then (if is_empty p.dependencies then "font-reference" else "font-archive")
    else (if p.archive then "http-container-archive" else "preview")

-- ===== src/Plan/Choice.antt =====
-- `Plan::build` of src/plan.rs: what is fetched and what is omitted.
use moenotes_assets.Base.{◌≤◌, Bool, true, false, some, List, [], ◌∷◌, ◌≡◌, length, ℕ, ◌↔◌, ◌⊎◌}
use moenotes_assets.Base.Bytes.{Bytes, equal}
use moenotes_assets.Catalog.{Location, Catalog, filter, cri, ids_of}
use moenotes_assets.Plan.{Plan}
use moenotes_assets.Plan.Kinds.{IsRemote, IsMedia}
use moenotes_assets.Plan.Fonts.{HasFont}
use moenotes_assets.Plan.Order.{IsAscending}
use mathlib.Core.List.{Memᴰ}
use mathlib.Core.List.Memᴰ

abbrev pub has_cri : Location → Bool
has_cri l = equal l.provider cri

-- The fetched part of the candidates `all`: for CRI media that is not archived, the one candidate
-- of the CRI provider if there is one; else all of them.
pub record IsNarrowed (media embedded : Bool) (candidates fetched : List Location) : Type 0 where
  pub within : (l : Location) → Memᴰ l fetched → Memᴰ l candidates
  pub ascending : IsAscending candidates → IsAscending fetched
  pub whole : media ≡ false → (fetched ≡ candidates) × (embedded ≡ false)
  pub in_bundles : embedded ≡ true → (fetched ≡ candidates) × (filter has_cri candidates ≡ [])
  pub alone :
      media ≡ true → embedded ≡ false → (fetched ≡ filter has_cri candidates) × (length fetched ≡ 1)

-- What a plan promises about the closure that it is made from.
pub record IsPlan (closure : List Location) (p : Plan) : Type 0 where
  pub fetched : (l : Location) → Memᴰ l p.dependencies → Memᴰ l closure × IsRemote l
  pub ascending : IsAscending p.dependencies
  pub few : length p.dependencies ≤ 512
  pub omitted : (l : Location) → Memᴰ l p.omitted_local → Memᴰ l closure × (IsRemote l → ⊥)
  pub all_omitted : (l : Location) → Memᴰ l closure → (IsRemote l → ⊥) → Memᴰ l p.omitted_local
  pub all_fetched :
      (IsMedia p.target p.archive → ⊥)
      → (l : Location) → Memᴰ l closure
      → IsRemote l
      → Memᴰ l p.dependencies
  pub media :
      IsMedia p.target p.archive
      → p.embedded_cri ≡ false
      → (l : Location) → Memᴰ l closure
      → IsRemote l
      → l.provider ≡ cri
      → p.dependencies ≡ l ∷ []

-- An archive is asked for, or made of a font; a font is what the ids of the key say.
pub record IsArchived (c : Catalog) (key : Bytes) (archive : Bool) (p : Plan) : Type 0 where
  pub ids : List ℕ
  pub listed : ids_of key c.keys ≡ some ids
  pub font_iff : (p.font ≡ true) ↔ HasFont c ids
  pub archive_iff : (p.archive ≡ true) ↔ ((archive ≡ true) ⊎ (p.font ≡ true))

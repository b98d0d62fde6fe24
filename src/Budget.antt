-- ===== src/Budget.antt =====
-- `Budget` and `Reservation` of src/service.rs: the shared counter, and the reservations that live.
pub mod Sum
use moenotes_assets.Base.{
  ℕ, zero, suc, ◌+◌, ◌-◌, ◌*◌, ◌/◌, ◌%◌, ◌^◌, ◌≤◌, ◌<◌, min, bit_xor, Bool, true, false, not, ◌&&◌,
  ◌||◌, Option, none, some, List, [], ◌∷◌, ◌++◌, map, ◌≡◌, ◌≢◌, ◌↔◌, ◌⊎◌, inl, inr, refl, sym, ap,
  ◌∙◌, arith, leb, ltb, ◌==◌, within, if◌then◌else◌, length, take, drop, replicate, get_or,
  get_elem?, all, any, All, String, Bool-cases, Option-cases,
}
use moenotes_assets.Base.Outcome.{
  Result, ok, err, ensure, context, collect, ◌>>=◌, ◌>>◌, >>=-eq-ok, ensure-eq-ok,
}
use moenotes_assets.Base.Bytes.{
  Bytes, IsBytes, codes, equal, starts_with, range, checked_add, be, le,
}

pub record Budget : Type 0 where
  pub used : ℕ
  pub max : ℕ

-- `fetch_update`, which is one atomic step
unfoldable pub reserve : ℕ → Budget → Result Budget
reserve n b = do
  total ← context (checked_add b.used n) "temporary storage budget exhausted"
  ensure (leb total b.max) "temporary storage budget exhausted"
  ok (record b { used = total })

-- `fetch_sub`, which wraps around
unfoldable pub release : ℕ → Budget → Budget
release n b = record b { used = (b.used + (2 ^ 64 - n)) % 2 ^ 64 }

-- The bytes of the reservations that have not been dropped
pub record Held : Type 0 where
  pub budget : Budget
  pub live : List ℕ

pub data Use : Type 0 where
  acquire : ℕ → Use
  drop_at : ℕ → Use

unfoldable pub remove_at : ℕ → List ℕ → Option (ℕ × List ℕ)
remove_at n [] = none
remove_at zero (x ∷ xs) = some (x, xs)
remove_at (suc n) (x ∷ xs) = elim (remove_at n xs) [
  | none ↦ none
  | some (y, rest) ↦ some (y, x ∷ rest)
]

-- A refused reservation changes nothing.
unfoldable pub apply : Use → Held → Held
apply (acquire n) h = elim (reserve n h.budget) [
  | err e ↦ h
  | ok b ↦ record { budget = b; live = n ∷ h.live }
]
apply (drop_at i) h = elim (remove_at i h.live) [
  | none ↦ h
  | some (n, rest) ↦ record { budget = release n h.budget; live = rest }
]

unfoldable pub apply_all : List Use → Held → Held
apply_all [] h = h
apply_all (u ∷ us) h = apply_all us (apply u h)

unfoldable pub unused : ℕ → Held
unused max = record { budget = record { used = 0; max = max }; live = [] }

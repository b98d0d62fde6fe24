-- ===== src/Service/Requests/Selection.antt =====
-- What `submit_export` of src/service.rs selects.
use moenotes_assets.Base.{
  ℕ, zero, suc, ◌+◌, ◌≤◌, ◌<◌, Bool, true, false, not, ◌&&◌, ◌||◌, Option, none, some, List, [],
  ◌∷◌, ◌≡◌, ◌≢◌, inl, inr, refl, sym, ap, ◌∙◌, arith, leb, ◌==◌, length, take, all, All, Bool-cases,
  Option-cases, take_all, length-take,
}
use moenotes_assets.Base.Outcome.{ok, ensure-eq-ok}
use moenotes_assets.Base.Bytes.{Bytes, starts_with}
use mathlib.Core.Path.{subst}
use mathlib.Core.List.{Memᴰ}
use mathlib.Core.List.Memᴰ
use moenotes_assets.Base.Outcome.{ok_injective}
use moenotes_assets.Base.{leb→le, and_split}
use moenotes_assets.Service.{less}
use moenotes_assets.Service.Requests.{
  ExportRequest, sort, dedup, matching, candidates, selection, no_keys, no_location,
}
use moenotes_assets.Service.Requests.Sorted.{
  Strict, dedup-sort-Strict, dedup-sort_in_order, dedup-sort_has, dedup-sort-All,
}

-- The key is named by the request, or is one of the catalog's with the prefix.
abbrev pub Asked : List Bytes → Option Bytes → List Bytes → Bytes → Type 0
Asked catalog_keys none keys x = Memᴰ x keys
Asked catalog_keys (some prefix) keys x = Memᴰ x catalog_keys × (starts_with x prefix ≡ true)

all_members : {P : Bytes → Type 0} (xs : List Bytes) → ((x : Bytes) → Memᴰ x xs → P x) → All P xs
all_members [] f = tt
all_members (x ∷ xs) f = (f x (Memᴰ.head refl), all_members xs (λ y m. f y (Memᴰ.tail m)))

true-ne-false : ◌≢◌ {A = Bool} true false
true-ne-false h = cc

matching_sound :
    (prefix : Bytes) (ks : List Bytes) (x : Bytes)
    → Memᴰ x (matching prefix ks)
    → Memᴰ x ks × (starts_with x prefix ≡ true)
unfolding matching
matching_sound prefix [] x m = elim m [ ]
matching_sound prefix (k ∷ ks) x m = elim (Bool-cases (starts_with k prefix)) [
  | inl e ↦ elim (Memᴰ.cases_cons (rw e at m)) [
    | inl same ↦ (Memᴰ.head same, ap (λ (y : Bytes). starts_with y prefix) same ∙ e)
    | inr n ↦ let (a, b) = matching_sound prefix ks x n in (Memᴰ.tail a, b)
  ]
  | inr e ↦ let (a, b) = matching_sound prefix ks x (rw e at m) in (Memᴰ.tail a, b)
]

matching_complete :
    (prefix : Bytes) (ks : List Bytes) (x : Bytes)
    → Memᴰ x ks
    → starts_with x prefix ≡ true
    → Memᴰ x (matching prefix ks)
unfolding matching
matching_complete prefix [] x m s = elim m [ ]
matching_complete prefix (k ∷ ks) x m s = elim (Bool-cases (starts_with k prefix)) [
  | inl e ↦ rw e (elim (Memᴰ.cases_cons m) [
    | inl same ↦ Memᴰ.head same
    | inr n ↦ Memᴰ.tail (matching_complete prefix ks x n s)
  ])
  | inr e ↦ rw e (elim (Memᴰ.cases_cons m) [
    | inl same ↦ absurd (true-ne-false (sym s ∙ ap (λ (y : Bytes). starts_with y prefix) same ∙ e))
    | inr n ↦ matching_complete prefix ks x n s
  ])
]

matching-All :
    (P : Bytes → Type 0) (prefix : Bytes) (ks : List Bytes) → All P ks → All P (matching prefix ks)
unfolding matching
matching-All P prefix [] h = tt
matching-All P prefix (k ∷ ks) h = elim (Bool-cases (starts_with k prefix)) [
  | inl e ↦ rw e (h.0, matching-All P prefix ks h.1)
  | inr e ↦ rw e (matching-All P prefix ks h.1)
]

matching-Strict : (prefix : Bytes) (ks : List Bytes) → Strict ks → Strict (matching prefix ks)
unfolding matching Strict
matching-Strict prefix [] h = tt
matching-Strict prefix (k ∷ ks) h = elim (Bool-cases (starts_with k prefix)) [
  | inl e ↦ rw e (matching-All (λ j. less k j ≡ true) prefix ks h.0, matching-Strict prefix ks h.1)
  | inr e ↦ rw e (matching-Strict prefix ks h.1)
]

take-All : (P : Bytes → Type 0) (n : ℕ) (ks : List Bytes) → All P ks → All P (take n ks)
take-All P zero ks h = tt
take-All P (suc n) [] h = tt
take-All P (suc n) (k ∷ ks) h = (h.0, take-All P n ks h.1)

take-Strict : (n : ℕ) (ks : List Bytes) → Strict ks → Strict (take n ks)
unfolding Strict
take-Strict zero ks h = tt
take-Strict (suc n) [] h = tt
take-Strict (suc n) (k ∷ ks) h = (take-All (λ j. less k j ≡ true) n ks h.0, take-Strict n ks h.1)

-- One key more than allowed is taken, so that no more than allowed means all of them.
all_taken :
    (max : ℕ) (ks : List Bytes)
    → Strict ks
    → length (dedup (sort (take (max + 1) ks))) ≤ max
    → take (max + 1) ks ≡ ks
all_taken max ks s h =
    let same =
      ap (λ (x : List Bytes). length x)
        (dedup-sort_in_order (take (max + 1) ks) (take-Strict (max + 1) ks s)) in
    take_all ks (max + 1) (omega (arith, length-take (max + 1) ks))

-- What is selected was asked for, and what was asked for is selected.
chosen :
    (max : ℕ) (catalog_keys : List Bytes) (r : ExportRequest)
    → Strict catalog_keys
    → length (dedup (sort (candidates max catalog_keys r))) ≤ max
    → All (Asked catalog_keys r.prefix r.keys) (dedup (sort (candidates max catalog_keys r)))
      × ((x : Bytes)
          → Asked catalog_keys r.prefix r.keys x
          → Memᴰ x (dedup (sort (candidates max catalog_keys r))))
unfolding candidates
chosen max catalog_keys r s h = elim (Option-cases r.prefix) [
  | inl e ↦ rw e (
    dedup-sort-All (λ x. Memᴰ x r.keys) r.keys (all_members r.keys (λ x m. m)),
    (λ x m. dedup-sort_has x r.keys m),
  )
  | inr (prefix, e) ↦
      let ks = matching prefix catalog_keys in
      let short : length (dedup (sort (take (max + 1) ks))) ≤ max = rw e at h in
      let whole = all_taken max ks (matching-Strict prefix catalog_keys s) short in
      rw e (
        rw whole (
          dedup-sort-All (Asked catalog_keys (some prefix) r.keys) ks
              (all_members ks (matching_sound prefix catalog_keys)),
          (λ x m. dedup-sort_has x ks (matching_complete prefix catalog_keys x m.0 m.1)),
        ))
]

small_keys :
    (ks : List Bytes) → all (λ k. leb (length k) 4096) ks ≡ true → All (λ k. length k ≤ 4096) ks
small_keys [] h = tt
small_keys (k ∷ ks) h =
    let (a, b) = and_split (leb (length k) 4096) _ h in (leb→le (length k) 4096 a, small_keys ks b)

abbrev Chosen : ℕ → List Bytes → ExportRequest → List Bytes → Type 0
Chosen max catalog_keys r ks =
    Strict ks
    × (0 < length ks)
    × (length ks ≤ max)
    × All (λ k. length k ≤ 4096) ks
    × All (Asked catalog_keys r.prefix r.keys) ks
    × ((x : Bytes) → Asked catalog_keys r.prefix r.keys x → Memᴰ x ks)

positive : (ks : List Bytes) → not (no_keys ks) ≡ true → 0 < length ks
positive [] h = absurd (true-ne-false (sym h))
positive (k ∷ ks) h = omega arith

-- A selection is in ascending order with no key twice, has at least one key and at most the allowed
-- number, each of at most 4096 bytes, and consists of exactly the keys that the request asks for: those
-- it names, or all of the catalog that begin with its prefix.
pub selection-IsChosen :
    (max : ℕ) (catalog_keys : List Bytes) (r : ExportRequest) {ks : List Bytes}
    → Strict catalog_keys
    → selection max catalog_keys r ≡ ok ks
    → Strict ks
      × (0 < length ks)
      × (length ks ≤ max)
      × All (λ k. length k ≤ 4096) ks
      × All (Asked catalog_keys r.prefix r.keys) ks
      × ((x : Bytes) → Asked catalog_keys r.prefix r.keys x → Memᴰ x ks)
unfolding selection
selection-IsChosen max catalog_keys r {ks} s h =
    let keys = dedup (sort (candidates max catalog_keys r)) in
    let (_, h₁) = ensure-eq-ok _ _ _ h in
    let (count, h₂) = ensure-eq-ok (not (no_keys keys) && leb (length keys) max) _ _ h₁ in
    let (small, h₃) = ensure-eq-ok (all (λ k. leb (length k) 4096) keys) _ _ h₂ in
    let (_, h₄) = ensure-eq-ok (no_location r.location_id || length keys == 1) _ _ h₃ in
    let (some_key, few) = and_split (not (no_keys keys)) (leb (length keys) max) count in
    let at_most = leb→le (length keys) max few in
    let (asked, complete) = chosen max catalog_keys r s at_most in
    subst (Chosen max catalog_keys r) (ok_injective h₄) (
      dedup-sort-Strict (candidates max catalog_keys r),
      positive keys some_key,
      at_most,
      small_keys keys small,
      asked,
      complete,
    )

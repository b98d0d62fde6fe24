-- ===== src/Catalog/Parse/Total.antt =====
-- `Catalog::parse` of src/catalog.rs ends.
use mathlib.Core.Path.{subst}
use mathlib.Core.Option.{none-ne-some}
use moenotes_assets.Base.{
  ℕ, zero, suc, ◌+◌, ◌-◌, ◌≤◌, Option, none, some, List, [], ◌∷◌, ◌≡◌, inl, inr, refl, arith, leb,
  ltb, length, Bool-cases, leb→le,
}
use moenotes_assets.Base.Outcome.{
  Result, ok, err, >>=-eq-ok, ensure-eq-ok, ok_injective, Result-cases,
}
use moenotes_assets.Base.Bytes.{Bytes}
use moenotes_assets.Catalog.{Locations, Catalog, get, is_some}
use moenotes_assets.Catalog.Reader.{location}
use moenotes_assets.Catalog.Parse.{
  Found, Keys, add, extend, missing, enter, locations_loop, keys_of, locate, catalog_of, parse,
  size_of, materialization,
}

length-add : (n : ℕ) (set : List ℕ) → length (add n set) ≤ 1 + length set
unfolding add
length-add n [] = omega arith
length-add n (x ∷ xs) = let h = length-add n xs in ground arith

length-extend : (ns set : List ℕ) → length (extend ns set) ≤ length ns + length set
unfolding extend
length-extend [] set = omega arith
length-extend (n ∷ ns) set = omega (arith, length-extend ns (add n set), length-add n set)

length-missing : (ls : Locations) (ds : List ℕ) → length (missing ls ds) ≤ length ds
length-missing ls [] = omega arith
length-missing ls (d ∷ ds) = let h = length-missing ls ds in ground arith

-- The edges are in their limit, and one entry is worked off.
enter_smaller :
    (d : Bytes) (id : ℕ) (pending : List ℕ) (s : Found) {t : Found}
    → s.edges ≤ 1_000_000
    → enter d id pending s ≡ ok t
    → (t.edges ≤ 1_000_000) × (length t.pending + s.edges ≤ length pending + t.edges)
unfolding enter
enter_smaller d id pending s {t} w h = elim (Bool-cases (is_some (get id s.locations))) [
  | inl yes' ↦
      let same = ok_injective {a = record s { pending = pending }} (rw (enter, yes') at h) in
      subst
        (λ (x : Found).
          (x.edges ≤ 1_000_000) × (length x.pending + s.edges ≤ length pending + x.edges))
        same (w, omega arith)
  | inr no' ↦
      let (room, h₁) = ensure-eq-ok (ltb (length s.locations) 200_000) _ _ (rw (enter, no') at h) in
      let ((l, r), found, h₂) = >>=-eq-ok (location d id s.reader) _ h₁ in
      let (budget, h₃) = ensure-eq-ok (leb (s.materialized + size_of l) materialization) _ _ h₂ in
      let (limit, h₄) = ensure-eq-ok (leb (s.edges + length l.dependencies) 1_000_000) _ _ h₃ in
      let same = ok_injective h₄ in
      let fits : s.edges + length l.dependencies ≤ 1_000_000 = leb→le _ 1_000_000 limit in
      let size : length (extend (missing s.locations l.dependencies) pending) + s.edges
          ≤ length pending + (s.edges + length l.dependencies) =
        omega (
          arith,
          length-extend (missing s.locations l.dependencies) pending,
          length-missing s.locations l.dependencies,
        ) in
      subst
        (λ (x : Found).
          (x.edges ≤ 1_000_000) × (length x.pending + s.edges ≤ length pending + x.edges))
        same (fits, size)
]

resume :
    (fuel : ℕ) (d : Bytes) (s : Found) (id : ℕ) (pending : List ℕ) {t : Found}
    → enter d id pending s ≡ ok t
    → (r : Result Found) × (locations_loop fuel d t.pending t ≡ some r)
    → (r : Result Found) × (locations_loop (suc fuel) d (id ∷ pending) s ≡ some r)
unfolding locations_loop
resume fuel d s id pending v (r, h) = (r, rw (locations_loop, v) h)

loop_total :
    (fuel : ℕ) (d : Bytes) (pending : List ℕ) (s : Found)
    → s.edges ≤ 1_000_000
    → length pending + (1_000_000 - s.edges) ≤ fuel
    → (r : Result Found) × (locations_loop fuel d pending s ≡ some r)
unfolding locations_loop
loop_total fuel d [] s w h = (ok s, refl)
loop_total zero d (id ∷ pending) s w h = absurd (omega arith)
loop_total (suc fuel) d (id ∷ pending) s w h = elim (Result-cases (enter d id pending s)) [
  | inr (m, v) ↦ (err m, rw (locations_loop, v) refl)
  | inl (t, v) ↦
      let (w', less) = enter_smaller d id pending s w v in
      resume fuel d s id pending v (loop_total fuel d t.pending t w' (omega arith))
]

catalog_of_total :
    (k : Keys) (o : Option (Result Found))
    → (r : Result Found) × (o ≡ some r)
    → (c : Result Catalog) × (catalog_of k o ≡ some c)
catalog_of_total k none (r, e) = absurd (none-ne-some r e)
catalog_of_total k (some (err m)) h = (err m, refl)
catalog_of_total k (some (ok s)) h = (ok (record { keys = k.keys; locations = s.locations }), refl)

locate_total : (d : Bytes) (k : Keys) → (r : Result Found) × (locate d k ≡ some r)
unfolding locate
locate_total d k =
    loop_total (length k.pending + 1_000_000) d k.pending _ (omega arith) (omega arith)

-- For every input, `parse` ends: the fuel, one unit for each location that a key names and for
-- each of the million dependencies that the limit allows, is enough.
pub parse_total : (d : Bytes) → (r : Result Catalog) × (parse d ≡ some r)
unfolding parse
parse_total d = elim (Result-cases (keys_of d)) [
  | inr (e, h) ↦ (err e, rw (parse, h) refl)
  | inl (k, h) ↦
      let (c, e) = catalog_of_total k (locate d k) (locate_total d k) in (c, rw (parse, h) e)
]

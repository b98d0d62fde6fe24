-- ===== src/Catalog/Closure.antt =====
-- `closure_from` of src/catalog.rs ends, and finds what the dependencies reach.
use moenotes_assets.Base.{
  ℕ, zero, suc, ◌+◌, ◌≤◌, true, false, some, List, [], ◌∷◌, ◌≡◌, ◌⊎◌, inl, inr, refl, ap, arith,
  if◌then◌else◌, length, Bool-cases, Option-cases, ℕ_discrete,
}
use moenotes_assets.Base.Outcome.{Result, ok, err, Result-cases}
use moenotes_assets.Catalog.{
  Location, Locations, Catalog, get, contains, pushed, collected, visit, closure_loop, edges,
  closure_from, not_empty,
}

-- The dependencies of the locations that have not been seen
unfoldable left : Locations → List ℕ → ℕ
left [] seen = 0
left ((i, l) ∷ rest) seen = (if contains i seen then 0 else length l.dependencies) + left rest seen

length-pushed : (ds todo : List ℕ) → length (pushed ds todo) ≡ length ds + length todo
unfolding pushed
length-pushed [] todo = omega arith
length-pushed (d ∷ ds) todo = omega (arith, length-pushed ds (d ∷ todo))

left_le : (ls : Locations) (id : ℕ) (seen : List ℕ) → left ls (id ∷ seen) ≤ left ls seen
unfolding left contains
left_le [] id seen = omega arith
left_le ((i, l) ∷ rest) id seen = let h = left_le rest id seen in ground arith

left-get :
    (ls : Locations) (id : ℕ) (seen : List ℕ) {found : Location}
    → contains id seen ≡ false
    → get id ls ≡ some found
    → left ls (id ∷ seen) + length found.dependencies ≤ left ls seen
unfolding left contains get
left-get [] id seen n h = absurd (ground arith)
left-get ((i, l) ∷ rest) id seen {found} n h = elim (ℕ_discrete i id) [
  | yes e ↦
      let same : l ≡ found = ground arith in
      let le = left_le rest id seen in
      let new : contains i seen ≡ false = rw e n in rw (← same) (ground arith)
  | no ne ↦
      let other : get id rest ≡ some found = ground arith in
      let more = left-get rest id seen n other in ground arith
]

left-edges : (ls : Locations) → left ls [] ≡ edges ls
unfolding left edges contains
left-edges [] = refl
left-edges ((i, l) ∷ rest) = ap (λ n. length l.dependencies + n) (left-edges rest)

pub visit-ok :
    (ls : Locations) (id : ℕ) (todo seen : List ℕ) (out : List Location) {todo' seen' : List ℕ}
    {out' : List Location}
    → visit ls id todo seen out ≡ ok (todo', seen', out')
    → ((contains id seen ≡ true) × (todo' ≡ todo) × (seen' ≡ seen) × (out' ≡ out))
      ⊎ ((l : Location) × (contains id seen ≡ false)
          × (get id ls ≡ some l)
          × (collected l out ≡ ok out')
          × (todo' ≡ pushed l.dependencies todo)
          × (seen' ≡ id ∷ seen))
unfolding visit
visit-ok ls id todo seen out h = elim (Bool-cases (contains id seen)) [
  | inl t ↦ inl (ground arith)
  | inr f ↦ elim (Option-cases (get id ls)) [
    | inl n ↦ absurd (ground arith)
    | inr (l, g) ↦ elim (Result-cases (collected l out)) [
      | inl (more, c) ↦ inr (l, f, g, ground arith, ground arith, ground arith)
      | inr (e, c) ↦ absurd (ground arith)
    ]
  ]
]

resume :
    (fuel : ℕ) (ls : Locations) (id : ℕ) (todo seen : List ℕ) (out : List Location)
    {todo' seen' : List ℕ} {out' : List Location}
    → visit ls id todo seen out ≡ ok (todo', seen', out')
    → (r : Result (List Location)) × (closure_loop fuel ls todo' seen' out' ≡ some r)
    → (r : Result (List Location)) × (closure_loop (suc fuel) ls (id ∷ todo) seen out ≡ some r)
unfolding closure_loop
resume fuel ls id todo seen out v (r, h) = (r, rw (closure_loop, v) h)

loop_total :
    (fuel : ℕ) (ls : Locations) (todo seen : List ℕ) (out : List Location)
    → length todo + left ls seen ≤ fuel
    → (r : Result (List Location)) × (closure_loop fuel ls todo seen out ≡ some r)
unfolding closure_loop
loop_total fuel ls [] seen out h = (ok out, refl)
loop_total zero ls (id ∷ todo) seen out h = absurd (omega arith)
loop_total (suc fuel) ls (id ∷ todo) seen out h = elim (Result-cases (visit ls id todo seen out)) [
  | inr (e, v) ↦ (err e, rw (closure_loop, v) refl)
  | inl ((todo', seen', out'), v) ↦
      let less : length todo' + left ls seen' ≤ fuel = (elim (visit-ok ls id todo seen out v) [
        | inl (t, a, b, c) ↦ rw (a, b) (omega arith)
        | inr (l, f, g, c, a, b) ↦
            rw (a, b) (omega (arith, length-pushed l.dependencies todo, left-get ls id seen f g))
      ]) in
      resume fuel ls id todo seen out v (loop_total fuel ls todo' seen' out' less)
]

-- For every catalog and every location in it or not, `closure_from` ends, cyclic dependencies
-- included: one unit of fuel for the start and one for each dependency is enough.
pub closure_from_total :
    (c : Catalog) (id : ℕ) → (r : Result (List Location)) × (closure_from c id ≡ some r)
unfolding closure_from
closure_from_total c id =
    let (r, h) =
      loop_total (1 + edges c.locations) c.locations (id ∷ []) [] []
        (rw left-edges (omega arith)) in
    (not_empty r, rw h refl)

-- ===== src/Catalog/Reach.antt =====
-- `closure_from` of src/catalog.rs returns exactly the locations with options that dependencies
-- reach.
use mathlib.Core.Path.{subst}
use moenotes_assets.Base.{
  ℕ, zero, suc, ◌+◌, true, Option, none, some, List, [], ◌∷◌, ◌≡◌, ◌≢◌, inl, inr, refl, sym, arith,
}
use moenotes_assets.Base.Outcome.{Result, ok, err, Result-cases}
use moenotes_assets.Catalog.{
  Location, Locations, Catalog, get, is_some, supported, visit, closure_loop, edges, closure_from,
  finished,
}
use mathlib.Core.List.{Memᴰ}
use mathlib.Core.List.Memᴰ
use moenotes_assets.Catalog.Progress.{Reaches, start, onward, IsProgress, visit-IsProgress}

pub record IsClosure (ls : Locations) (from : ℕ) (out : List Location) : Type 0 where
  pub sound :
      (l : Location)
      → Memᴰ l out
      → (i : ℕ) × Reaches ls from i
        × (get i ls ≡ some l)
        × (is_some l.options ≡ true)
        × (supported l ≡ true)
  pub complete :
      (i : ℕ)
      → Reaches ls from i
      → (l : Location) × (get i ls ≡ some l) × (is_some l.options ≡ true → Memᴰ l out)
  pub not_nil : out ≢ []

module _ (ls : Locations) (from : ℕ) where
  loop-IsProgress :
      (fuel : ℕ) (todo seen : List ℕ) (out : List Location) {result : List Location}
      → IsProgress ls from todo seen out
      → closure_loop fuel ls todo seen out ≡ some (ok result)
      → (seen' : List ℕ) × IsProgress ls from [] seen' result
  unfolding closure_loop
  loop-IsProgress fuel [] seen out p h = (seen, subst (IsProgress ls from [] seen) (ground arith) p)
  loop-IsProgress zero (id ∷ todo) seen out p h = absurd (ground arith)
  loop-IsProgress (suc fuel) (id ∷ todo) seen out {result} p h =
      elim (Result-cases (visit ls id todo seen out)) [
        | inl ((todo', seen', out'), v) ↦
            let rest : closure_loop fuel ls todo' seen' out' ≡ some (ok result) = ground arith in
            loop-IsProgress fuel todo' seen' out' (visit-IsProgress ls from id todo seen out p v)
              rest
        | inr (e, v) ↦ absurd (ground arith)
      ]

  reached :
      (seen : List ℕ) (out : List Location) (i : ℕ)
      → IsProgress ls from [] seen out
      → Reaches ls from i
      → Memᴰ i seen
  reached seen out i p start = elim p.origin [ inl m ↦ m | inr n ↦ absurd (Memᴰ.not-nil n) ]
  reached seen out _ p (onward {i} {d} {l} r g m) =
      let (l', g', o, ds) = p.entered i (reached seen out i p r) in
      let same : l ≡ l' = ground arith in
      elim (ds d (subst (λ (y : Location). Memᴰ d y.dependencies) same m)) [
        | inl s ↦ s
        | inr n ↦ absurd (Memᴰ.not-nil n)
      ]

  progress-IsClosure :
      (seen : List ℕ) (out : List Location)
      → IsProgress ls from [] seen out
      → out ≢ []
      → IsClosure ls from out
  progress-IsClosure seen out p ne = record {
    sound = p.found;
    complete = λ i r. let (l, g, o, ds) = p.entered i (reached seen out i p r) in (l, g, o);
    not_nil = ne;
  }

begin : (ls : Locations) (id : ℕ) → IsProgress ls id (id ∷ []) [] []
begin ls id = record {
  planned = λ i m. subst (Reaches ls id) (sym (Memᴰ.eq_of_singleton m)) start;
  found = λ l m. absurd (Memᴰ.not-nil m);
  entered = λ i m. absurd (Memᴰ.not-nil m);
  origin = inr (Memᴰ.head refl);
}

finished-ok :
    (o : Option (Result (List Location))) {out : List Location}
    → finished o ≡ some (ok out)
    → (o ≡ some (ok out)) × (out ≢ [])
finished-ok none h = absurd (ground arith)
finished-ok (some (err e)) h = absurd (ground arith)
finished-ok (some (ok [])) h = absurd (ground arith)
finished-ok (some (ok (l ∷ ls))) h = (h, λ e. ground arith)

-- When `closure_from` returns locations, there is at least one, each has options and a supported
-- provider and is reached from the start over dependencies; and everything that the start reaches
-- is in the catalog and, if it has options, is returned.
pub closure_from-IsClosure :
    (c : Catalog) (id : ℕ) {out : List Location}
    → closure_from c id ≡ some (ok out)
    → IsClosure c.locations id out
unfolding closure_from
closure_from-IsClosure c id {out} h =
    let (loop, ne) =
      finished-ok (closure_loop (1 + edges c.locations) c.locations (id ∷ []) [] []) h in
    let (seen, p) =
      loop-IsProgress c.locations id (1 + edges c.locations) (id ∷ []) [] [] (begin c.locations id)
        loop in
    progress-IsClosure c.locations id seen out p ne

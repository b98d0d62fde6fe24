-- ===== src/Tree/Export/Listed.antt =====
-- The map of the objects of src/tree.rs that are there.
use moenotes_assets.Base.{
  ◌+◌, ◌≤◌, List, [], ◌∷◌, ◌++◌, ◌≡◌, inl, inr, refl, sym, ap, arith, length, Option-cases,
  append_assoc, append-nil, length-append,
}
use moenotes_assets.Base.Bytes.{Bytes}
use mathlib.Core.Path.{subst}
use moenotes_assets.Tree.{Object}
use moenotes_assets.Tree.Export.{insert, lookup, lower_key}
use moenotes_assets.Tree.Export.Distinct.{
  Distinct, IsMapOf, insert-IsMapOf, length-insert_old, insert_fresh,
}
use moenotes_assets.Tree.Export.Preflight.{index_map}

length-index_map :
    (m : List (Bytes × Object)) (os : List Object) → length (index_map m os) ≤ length m + length os
unfolding index_map
length-index_map m [] = omega arith
length-index_map m (o ∷ os) =
    let rest = length-index_map (insert (lower_key o) o m) os in
    elim (Option-cases (lookup (lower_key o) m)) [
      | inl n ↦
          let grown =
            ap (λ (x : List (Bytes × Object)). length x) (insert_fresh (lower_key o) o m n) in
          omega (arith, length-append m ((lower_key o, o) ∷ []))
      | inr (w, e) ↦ omega (arith, length-insert_old (lower_key o) o w m e)
    ]

snoc-append :
    (xs : List Object) (y : Object) (ys : List Object) → (xs ++ y ∷ []) ++ ys ≡ xs ++ y ∷ ys
snoc-append xs y ys = simp append_assoc

-- A map that is as long as the list had no key twice.
index_map-IsMapOf_from :
    (m : List (Bytes × Object)) (seen os : List Object)
    → IsMapOf seen m
    → length (index_map m os) ≡ length m + length os
    → IsMapOf (seen ++ os) (index_map m os)
unfolding index_map
index_map-IsMapOf_from m seen [] h l =
    subst (λ (x : List Object). IsMapOf x m) (sym (append-nil seen)) h
index_map-IsMapOf_from m seen (o ∷ os) h l =
    let rest = length-index_map (insert (lower_key o) o m) os in
    elim (Option-cases (lookup (lower_key o) m)) [
      | inr (w, e) ↦ absurd (omega (arith, length-insert_old (lower_key o) o w m e))
      | inl n ↦
          let grown =
            ap (λ (x : List (Bytes × Object)). length x) (insert_fresh (lower_key o) o m n) in
          let one = length-append m ((lower_key o, o) ∷ []) in
          subst (λ (x : List Object). IsMapOf x (index_map (insert (lower_key o) o m) os))
            (snoc-append seen o os)
            (index_map-IsMapOf_from (insert (lower_key o) o m) (seen ++ o ∷ []) os
              (insert-IsMapOf o seen m n h) (omega arith))
    ]

pub index_map-IsMapOf :
    (os : List Object) → length (index_map [] os) ≡ length os → IsMapOf os (index_map [] os)
unfolding Distinct
index_map-IsMapOf os l =
    index_map-IsMapOf_from [] [] os (record { listed = refl; distinct = tt }) (omega arith)

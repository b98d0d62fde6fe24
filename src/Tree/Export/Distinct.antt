-- ===== src/Tree/Export/Distinct.antt =====
-- The maps of src/tree.rs: what an insertion leaves, and when all insertions were of new keys.
use moenotes_assets.Base.{
  suc, true, none, some, List, [], ◌∷◌, ◌++◌, map, ◌≡◌, ◌≢◌, inl, inr, refl, sym, ap, ◌∙◌, arith,
  length, All, Bool-cases, All-append,
}
use moenotes_assets.Base.Bytes.{equal_iff, Bytes, equal}
use mathlib.Core.Option.{none-ne-some}
use mathlib.Core.Path.{subst}
use mathlib.Core.List.{map-append}
use moenotes_assets.Tree.{Object}
use moenotes_assets.Tree.Export.{lookup, insert, same_object, lower_key}

-- No key stands twice.
unfoldable pub Distinct : List Bytes → Type 0
Distinct [] = Unit {0}
Distinct (k ∷ ks) = All (λ j. j ≢ k) ks × Distinct ks

Distinct-snoc :
    (ks : List Bytes) (k : Bytes) → Distinct ks → All (λ j. j ≢ k) ks → Distinct (ks ++ k ∷ [])
unfolding Distinct
Distinct-snoc [] k d n = (tt, tt)
Distinct-snoc (j ∷ ks) k (a, d) (n, ns) =
    (All-append (λ i. i ≢ j) ks (k ∷ []) a ((λ e. n (sym e)), tt), Distinct-snoc ks k d ns)

abbrev pub entry : Object → Bytes × Object
entry o = (lower_key o, o)

abbrev pub keys : List Object → List Bytes
keys = map lower_key

module _ {V : Type 0} where
  pub lookup-insert_self :
      (k : Bytes) (v : V) (m : List (Bytes × V)) → lookup k (insert k v m) ≡ some v
  unfolding lookup insert
  lookup-insert_self k v [] = rw ((equal_iff k k).1 refl) refl
  lookup-insert_self k v ((j, w) ∷ m) = elim (Bool-cases (equal j k)) [
    | inl e ↦ rw (e, (equal_iff k k).1 refl) refl
    | inr e ↦ rw (e, e) (lookup-insert_self k v m)
  ]

  -- A new key leaves the others.
  pub lookup-insert_new :
      (k i : Bytes) (v w : V) (m : List (Bytes × V))
      → lookup k m ≡ none
      → lookup i m ≡ some w
      → lookup i (insert k v m) ≡ some w
  unfolding lookup insert
  lookup-insert_new k i v w [] n h = absurd (none-ne-some _ h)
  lookup-insert_new k i v w ((j, u) ∷ m) n h = elim (Bool-cases (equal j k)) [
    | inl e ↦ absurd (none-ne-some _ (sym (rw e at n)))
    | inr e ↦ elim (Bool-cases (equal j i)) [
      | inl t ↦ rw (e, t) (rw t at h)
      | inr t ↦ rw (e, t) (lookup-insert_new k i v w m (rw e at n) (rw t at h))
    ]
  ]

  pub insert_fresh :
      (k : Bytes) (v : V) (m : List (Bytes × V))
      → lookup k m ≡ none
      → insert k v m ≡ m ++ (k, v) ∷ []
  unfolding lookup insert
  insert_fresh k v [] n = refl
  insert_fresh k v ((j, u) ∷ m) n = elim (Bool-cases (equal j k)) [
    | inl e ↦ absurd (none-ne-some _ (sym (rw e at n)))
    | inr e ↦ rw e (ap (λ (x : List (Bytes × V)). (j, u) ∷ x) (insert_fresh k v m (rw e at n)))
  ]

  pub length-insert_old :
      (k : Bytes) (v w : V) (m : List (Bytes × V))
      → lookup k m ≡ some w
      → length (insert k v m) ≡ length m
  unfolding lookup insert
  length-insert_old k v w [] h = absurd (none-ne-some _ h)
  length-insert_old k v w ((j, u) ∷ m) h = elim (Bool-cases (equal j k)) [
    | inl e ↦ rw e refl
    | inr e ↦ rw e (ap suc (length-insert_old k v w m (rw e at h)))
  ]

lookup-entry-none :
    (k : Bytes) (os : List Object) → lookup k (map entry os) ≡ none → All (λ j. j ≢ k) (keys os)
unfolding lookup
lookup-entry-none k [] h = tt
lookup-entry-none k (o ∷ os) h = elim (Bool-cases (equal (lower_key o) k)) [
  | inl e ↦ absurd (none-ne-some _ (sym (rw e at h)))
  | inr e ↦ (
    (λ same. absurd (ground (arith, (equal_iff (lower_key o) k).1 same, e))),
    lookup-entry-none k os (rw e at h),
  )
]

-- The map of a list of objects with distinct keys is the list.
pub record IsMapOf (os : List Object) (m : List (Bytes × Object)) : Type 0 where
  pub listed : m ≡ map entry os
  pub distinct : Distinct (keys os)

pub insert-IsMapOf :
    (o : Object) (os : List Object) (m : List (Bytes × Object))
    → lookup (lower_key o) m ≡ none
    → IsMapOf os m
    → IsMapOf (os ++ o ∷ []) (insert (lower_key o) o m)
insert-IsMapOf o os m n h =
    let fresh = lookup-entry-none (lower_key o) os (ap (lookup (lower_key o)) (sym h.listed) ∙ n) in
    record {
      listed =
          insert_fresh (lower_key o) o m n
          ∙ ap (λ (x : List (Bytes × Object)). x ++ entry o ∷ []) h.listed
          ∙ sym (map-append entry os (o ∷ []));
      distinct =
          subst Distinct (sym (map-append lower_key os (o ∷ [])))
            (Distinct-snoc (keys os) (lower_key o) h.distinct fresh);
    }

pub same_object-eq : (a b : Object) → same_object a b ≡ true → a ≡ b
unfolding same_object
same_object-eq a b h = ground (
  arith,
  equal_iff a.object_key b.object_key,
  equal_iff a.asset_key b.asset_key,
  equal_iff a.artifact_id b.artifact_id,
  equal_iff a.label b.label,
  equal_iff a.content_type b.content_type,
  equal_iff a.sha256 b.sha256,
  equal_iff a.snapshot b.snapshot,
  equal_iff a.profile b.profile,
  equal_iff a.role b.role,
  equal_iff a.export_id b.export_id,
)

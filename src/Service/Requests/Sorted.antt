-- ===== src/Service/Requests/Sorted.antt =====
-- `sort` and `dedup` of src/service.rs give the same keys, each once and in order.
use moenotes_assets.Base.{
  true, false, ◌||◌, List, [], ◌∷◌, ◌≡◌, ◌≢◌, ◌⊎◌, inl, inr, refl, sym, ap, ◌∙◌, arith, All,
  Bool-cases,
}
use moenotes_assets.Base.Bytes.{equal_iff, Bytes, equal}
use mathlib.Core.List.{Memᴰ}
use mathlib.Core.List.Memᴰ
use moenotes_assets.Service.{less}
use moenotes_assets.Service.Order.{less_irrefl, less_trans}
use moenotes_assets.Service.Requests.{insert, sort, dedup_from, dedup}

less_nil : (a : Bytes) → less a [] ≢ true
unfolding less
less_nil [] h = cc
less_nil (x ∷ a) h = cc

less_split : (a b c : Bytes) → less a c ≡ true → (less a b || less b c) ≡ true
unfolding less
less_split a b [] h = absurd (less_nil a h)
less_split [] [] (z ∷ c) h = refl
less_split [] (y ∷ b) (z ∷ c) h = refl
less_split (x ∷ a) [] (z ∷ c) h = ground arith
less_split (x ∷ a) (y ∷ b) (z ∷ c) h = ground (arith, less_split a b c)

less_total : (a b : Bytes) → less a b ≡ false → equal b a ≡ false → less b a ≡ true
unfolding less equal
less_total [] [] h e = ground arith
less_total (x ∷ a) [] h e = ground arith
less_total [] (y ∷ b) h e = ground arith
less_total (x ∷ a) (y ∷ b) h e = ground (arith, less_total a b)

less_asym : (a b : Bytes) → less a b ≡ true → less b a ≡ false
less_asym a b h = elim (Bool-cases (less b a)) [
  | inl e ↦ absurd (ground (arith, less_trans a b a h e, less_irrefl a))
  | inr e ↦ e
]

-- Each key is before all that follow it.
unfoldable pub Strict : List Bytes → Type 0
Strict [] = Unit {0}
Strict (k ∷ ks) = All (λ j. less k j ≡ true) ks × Strict ks

-- No key is before one that it follows.
unfoldable Sorted : List Bytes → Type 0
Sorted [] = Unit {0}
Sorted (k ∷ ks) = All (λ j. less j k ≡ false) ks × Sorted ks

insert-All :
    (P : Bytes → Type 0) (k : Bytes) (ks : List Bytes) → P k → All P ks → All P (insert k ks)
unfolding insert
insert-All P k [] p h = (p, tt)
insert-All P k (j ∷ js) p h = elim (Bool-cases (less j k)) [
  | inl e ↦ rw e (h.0, insert-All P k js p h.1)
  | inr e ↦ rw e (p, h)
]

above_all :
    (k j : Bytes) (js : List Bytes)
    → less j k ≡ false
    → All (λ x. less x j ≡ false) js
    → All (λ x. less x k ≡ false) js
above_all k j [] e h = tt
above_all k j (x ∷ js) e h = (
  elim (Bool-cases (less x k)) [
    | inl t ↦ absurd (ground (arith, less_split x j k t, e, h.0))
    | inr t ↦ t
  ],
  above_all k j js e h.1,
)

insert-Sorted : (k : Bytes) (ks : List Bytes) → Sorted ks → Sorted (insert k ks)
unfolding insert Sorted
insert-Sorted k [] h = (tt, tt)
insert-Sorted k (j ∷ js) h = elim (Bool-cases (less j k)) [
  | inl e ↦
      rw e (insert-All (λ x. less x j ≡ false) k js (less_asym j k e) h.0, insert-Sorted k js h.1)
  | inr e ↦ rw e ((e, above_all k j js e h.0), h)
]

sort-Sorted : (ks : List Bytes) → Sorted (sort ks)
unfolding sort Sorted
sort-Sorted [] = tt
sort-Sorted (k ∷ ks) = insert-Sorted k (sort ks) (sort-Sorted ks)

dedup_from-All :
    (P : Bytes → Type 0) (k : Bytes) (ks : List Bytes) → P k → All P ks → All P (dedup_from k ks)
unfolding dedup_from
dedup_from-All P k [] p h = (p, tt)
dedup_from-All P k (j ∷ js) p h = elim (Bool-cases (equal k j)) [
  | inl e ↦ rw e (dedup_from-All P k js p h.1)
  | inr e ↦ rw e (p, dedup_from-All P j js h.0 h.1)
]

before_all :
    (k j : Bytes) (js : List Bytes)
    → less k j ≡ true
    → All (λ x. less x j ≡ false) js
    → All (λ x. less k x ≡ true) js
before_all k j [] e h = tt
before_all k j (x ∷ js) e h = (ground (arith, less_split k x j e, h.0), before_all k j js e h.1)

dedup_from-Strict :
    (k : Bytes) (ks : List Bytes)
    → All (λ j. less j k ≡ false) ks
    → Sorted ks
    → Strict (dedup_from k ks)
unfolding dedup_from Strict Sorted
dedup_from-Strict k [] b s = (tt, tt)
dedup_from-Strict k (j ∷ js) b s = elim (Bool-cases (equal k j)) [
  | inl e ↦ rw e (dedup_from-Strict k js b.1 s.1)
  | inr e ↦
      let first = less_total j k b.0 e in
      rw e (
        dedup_from-All (λ x. less k x ≡ true) j js first (before_all k j js first s.0),
        dedup_from-Strict j js s.0 s.1,
      )
]

dedup-Strict : (ks : List Bytes) → Sorted ks → Strict (dedup ks)
unfolding dedup Strict Sorted
dedup-Strict [] h = tt
dedup-Strict (k ∷ ks) h = dedup_from-Strict k ks h.0 h.1

pub dedup-sort-Strict : (ks : List Bytes) → Strict (dedup (sort ks))
unfolding dedup Strict
dedup-sort-Strict ks = dedup-Strict (sort ks) (sort-Sorted ks)

-- A list that is in order already stays.
insert_first : (k : Bytes) (ks : List Bytes) → All (λ j. less k j ≡ true) ks → insert k ks ≡ k ∷ ks
unfolding insert
insert_first k [] h = refl
insert_first k (j ∷ js) h = rw (less_asym k j h.0) refl

sort_in_order : (ks : List Bytes) → Strict ks → sort ks ≡ ks
unfolding sort Strict
sort_in_order [] h = refl
sort_in_order (k ∷ ks) h = rw (sort_in_order ks h.1) (insert_first k ks h.0)

differ : (k j : Bytes) → less k j ≡ true → equal k j ≡ false
differ k j h = elim (Bool-cases (equal k j)) [
  | inr e ↦ e
  | inl e ↦ absurd (ground (arith, ap (less k) ((equal_iff k j).0 e), less_irrefl k, h))
]

dedup_from_in_order :
    (k : Bytes) (ks : List Bytes)
    → All (λ j. less k j ≡ true) ks
    → Strict ks
    → dedup_from k ks ≡ k ∷ ks
unfolding dedup_from Strict
dedup_from_in_order k [] h s = refl
dedup_from_in_order k (j ∷ js) h s =
    rw (differ k j h.0) (ap (λ (x : List Bytes). k ∷ x) (dedup_from_in_order j js s.0 s.1))

pub dedup-sort_in_order : (ks : List Bytes) → Strict ks → dedup (sort ks) ≡ ks
unfolding dedup Strict
dedup-sort_in_order [] h = ap dedup (sort_in_order [] tt)
dedup-sort_in_order (k ∷ ks) h =
    ap dedup (sort_in_order (k ∷ ks) h) ∙ dedup_from_in_order k ks h.0 h.1

insert_has : (x k : Bytes) (ks : List Bytes) → (x ≡ k) ⊎ Memᴰ x ks → Memᴰ x (insert k ks)
unfolding insert
insert_has x k [] (inl e) = Memᴰ.head e
insert_has x k [] (inr m) = elim m [ ]
insert_has x k (j ∷ js) (inl e) = elim (Bool-cases (less j k)) [
  | inl t ↦ rw t (Memᴰ.tail (insert_has x k js (inl e)))
  | inr t ↦ rw t (Memᴰ.head e)
]
insert_has x k (j ∷ js) (inr m) = elim (Bool-cases (less j k)) [
  | inl t ↦ rw t (elim (Memᴰ.cases_cons m) [
    | inl e ↦ Memᴰ.head e
    | inr n ↦ Memᴰ.tail (insert_has x k js (inr n))
  ])
  | inr t ↦ rw t (Memᴰ.tail m)
]

sort_has : (x : Bytes) (ks : List Bytes) → Memᴰ x ks → Memᴰ x (sort ks)
unfolding sort
sort_has x [] m = m
sort_has x (k ∷ ks) m = elim (Memᴰ.cases_cons m) [
  | inl e ↦ insert_has x k (sort ks) (inl e)
  | inr n ↦ insert_has x k (sort ks) (inr (sort_has x ks n))
]

dedup_from_has : (x k : Bytes) (ks : List Bytes) → (x ≡ k) ⊎ Memᴰ x ks → Memᴰ x (dedup_from k ks)
unfolding dedup_from
dedup_from_has x k [] (inl e) = Memᴰ.head e
dedup_from_has x k [] (inr m) = elim m [ ]
dedup_from_has x k (j ∷ js) (inl e) = elim (Bool-cases (equal k j)) [
  | inl t ↦ rw t (dedup_from_has x k js (inl e))
  | inr t ↦ rw t (Memᴰ.head e)
]
dedup_from_has x k (j ∷ js) (inr m) = elim (Bool-cases (equal k j)) [
  | inl t ↦ rw t (elim (Memᴰ.cases_cons m) [
    | inl e ↦ dedup_from_has x k js (inl (e ∙ sym ((equal_iff k j).0 t)))
    | inr n ↦ dedup_from_has x k js (inr n)
  ])
  | inr t ↦ rw t (Memᴰ.tail (dedup_from_has x j js (Memᴰ.cases_cons m)))
]

dedup_has : (x : Bytes) (ks : List Bytes) → Memᴰ x ks → Memᴰ x (dedup ks)
unfolding dedup
dedup_has x [] m = m
dedup_has x (k ∷ ks) m = dedup_from_has x k ks (Memᴰ.cases_cons m)

sort-All : (P : Bytes → Type 0) (ks : List Bytes) → All P ks → All P (sort ks)
unfolding sort
sort-All P [] h = tt
sort-All P (k ∷ ks) h = insert-All P k (sort ks) h.0 (sort-All P ks h.1)

dedup-All : (P : Bytes → Type 0) (ks : List Bytes) → All P ks → All P (dedup ks)
unfolding dedup
dedup-All P [] h = tt
dedup-All P (k ∷ ks) h = dedup_from-All P k ks h.0 h.1

-- Every key is there still.
pub dedup-sort_has : (x : Bytes) (ks : List Bytes) → Memᴰ x ks → Memᴰ x (dedup (sort ks))
dedup-sort_has x ks m = dedup_has x (sort ks) (sort_has x ks m)

-- And no other.
pub dedup-sort-All : (P : Bytes → Type 0) (ks : List Bytes) → All P ks → All P (dedup (sort ks))
dedup-sort-All P ks h = dedup-All P (sort ks) (sort-All P ks h)

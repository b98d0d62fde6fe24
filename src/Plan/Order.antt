-- ===== src/Plan/Order.antt =====
-- The members that a filter and the sort of src/plan.rs keep, and the order of the sort.
use mathlib.Core.Path.{subst}
use moenotes_assets.Base.{
  ℕ, ◌≤◌, Bool, true, List, [], ◌∷◌, ◌≡◌, ◌⊎◌, inl, inr, refl, sym, ap, ◌∙◌, arith, leb, All,
  Bool-cases,
}
use moenotes_assets.Catalog.{Location, filter}
use moenotes_assets.Plan.{insert, sort}
use mathlib.Core.List.{Memᴰ}
use mathlib.Core.List.Memᴰ

module _ {ℓ} {A : Type ℓ} where
  pub filter_sound :
      (p : A → Bool) (x : A) (xs : List A) → Memᴰ x (filter p xs) → Memᴰ x xs × (p x ≡ true)
  filter_sound p x [] m = absurd (Memᴰ.not-nil m)
  filter_sound p x (y ∷ ys) m = elim (Bool-cases (p y)) [
    | inl t ↦ elim (Memᴰ.cases_cons (subst (Memᴰ x) (rw t refl) m)) [
      | inl e ↦ (Memᴰ.head e, ap p e ∙ t)
      | inr n ↦ let (k, h) = filter_sound p x ys n in (Memᴰ.tail k, h)
    ]
    | inr f ↦ let (k, h) = filter_sound p x ys (subst (Memᴰ x) (rw f refl) m) in (Memᴰ.tail k, h)
  ]

  pub filter_complete :
      (p : A → Bool) (x : A) (xs : List A) → Memᴰ x xs → p x ≡ true → Memᴰ x (filter p xs)
  filter_complete p x [] m h = absurd (Memᴰ.not-nil m)
  filter_complete p x (y ∷ ys) m h = elim (Memᴰ.cases_cons m) [
    | inl e ↦ let t : p y ≡ true = ap p (sym e) ∙ h in rw t (Memᴰ.head e)
    | inr n ↦
        let rest = filter_complete p x ys n h in
        elim (Bool-cases (p y)) [ inl t ↦ rw t (Memᴰ.tail rest) | inr f ↦ rw f rest ]
  ]

insert_sound : (x y : Location) (ys : List Location) → Memᴰ x (insert y ys) → (x ≡ y) ⊎ Memᴰ x ys
unfolding insert
insert_sound x y [] m = inl (Memᴰ.eq_of_singleton m)
insert_sound x y (z ∷ zs) m = elim (Bool-cases (leb y.id z.id)) [
  | inl t ↦ Memᴰ.cases_cons (subst (Memᴰ x) (rw t refl) m)
  | inr f ↦ elim (Memᴰ.cases_cons (subst (Memᴰ x) (rw f refl) m)) [
    | inl e ↦ inr (Memᴰ.head e)
    | inr n ↦ elim (insert_sound x y zs n) [ inl e ↦ inl e | inr k ↦ inr (Memᴰ.tail k) ]
  ]
]

insert_complete : (x y : Location) (ys : List Location) → (x ≡ y) ⊎ Memᴰ x ys → Memᴰ x (insert y ys)
unfolding insert
insert_complete x y [] (inl e) = Memᴰ.head e
insert_complete x y [] (inr n) = absurd (Memᴰ.not-nil n)
insert_complete x y (z ∷ zs) m = elim (Bool-cases (leb y.id z.id)) [
  | inl t ↦ rw t (elim m [ inl e ↦ Memᴰ.head e | inr n ↦ Memᴰ.tail n ])
  | inr f ↦ rw f (elim m [
    | inl e ↦ Memᴰ.tail (insert_complete x y zs (inl e))
    | inr n ↦ elim (Memᴰ.cases_cons n) [
      | inl e ↦ Memᴰ.head e
      | inr k ↦ Memᴰ.tail (insert_complete x y zs (inr k))
    ]
  ])
]

pub sort_sound : (x : Location) (xs : List Location) → Memᴰ x (sort xs) → Memᴰ x xs
unfolding sort
sort_sound x [] m = m
sort_sound x (y ∷ ys) m = elim (insert_sound x y (sort ys) m) [
  | inl e ↦ Memᴰ.head e
  | inr n ↦ Memᴰ.tail (sort_sound x ys n)
]

pub sort_complete : (x : Location) (xs : List Location) → Memᴰ x xs → Memᴰ x (sort xs)
unfolding sort
sort_complete x [] m = m
sort_complete x (y ∷ ys) m =
    insert_complete x y (sort ys)
      (elim (Memᴰ.cases_cons m) [ inl e ↦ inl e | inr n ↦ inr (sort_complete x ys n) ])

-- In ascending order of the ids
abbrev pub IsAscending : List Location → Type 0
IsAscending [] = Unit
IsAscending (x ∷ xs) = All (λ (y : Location). x.id ≤ y.id) xs × IsAscending xs

insert-All :
    (n : ℕ) (x : Location) (xs : List Location)
    → n ≤ x.id
    → All (λ (y : Location). n ≤ y.id) xs
    → All (λ (y : Location). n ≤ y.id) (insert x xs)
unfolding insert
insert-All n x [] h a = (h, tt)
insert-All n x (y ∷ ys) h a = elim (Bool-cases (leb x.id y.id)) [
  | inl t ↦ rw t (h, a)
  | inr f ↦ rw f (a.0, insert-All n x ys h a.1)
]

below-All :
    (m n : ℕ) (xs : List Location)
    → m ≤ n
    → All (λ (y : Location). n ≤ y.id) xs
    → All (λ (y : Location). m ≤ y.id) xs
below-All m n [] h a = tt
below-All m n (x ∷ xs) h a = (omega (arith, a.0), below-All m n xs h a.1)

insert-IsAscending :
    (x : Location) (xs : List Location) → IsAscending xs → IsAscending (insert x xs)
unfolding insert
insert-IsAscending x [] a = (tt, tt)
insert-IsAscending x (y ∷ ys) a = elim (Bool-cases (leb x.id y.id)) [
  | inl t ↦ let le : x.id ≤ y.id = ground arith in rw t ((le, below-All x.id y.id ys le a.0), a)
  | inr f ↦
      let le : y.id ≤ x.id = ground arith in
      rw f (insert-All y.id x ys le a.0, insert-IsAscending x ys a.1)
]

pub sort-IsAscending : (xs : List Location) → IsAscending (sort xs)
unfolding sort
sort-IsAscending [] = tt
sort-IsAscending (x ∷ xs) = insert-IsAscending x (sort xs) (sort-IsAscending xs)

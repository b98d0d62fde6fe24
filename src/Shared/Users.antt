-- ===== src/Shared/Users.antt =====
-- The store of src/shared.rs: an operation without users is cancelled or about to be, and one with
-- users is the registered one of its key.
use mathlib.Core.Option.{some_inj, none-ne-some}
use mathlib.Core.Path.{subst}
use moenotes_assets.Base.{
  ℕ, zero, suc, ◌+◌, ◌≤◌, ◌<◌, true, false, none, some, List, [], ◌∷◌, ◌++◌, ◌≡◌, ◌⊎◌, inl, inr,
  refl, sym, ap, ◌∙◌, arith, length, get_elem?, Bool-cases,
}
use moenotes_assets.Base.Bytes.{equal_iff, Bytes, equal}
use moenotes_assets.Shared.{Operation, Registry, World, find, update, alive, retain, empty, erase}

module _ {ℓ} {A : Type ℓ} where
  pub get-update :
      (xs : List A) (i j : ℕ) (a b : A)
      → get_elem? (update i a xs) j ≡ some b
      → ((i ≡ j) × (a ≡ b)) ⊎ (get_elem? xs j ≡ some b)
  unfolding update
  get-update [] zero j a b h = inr h
  get-update [] (suc i) j a b h = inr h
  get-update (x ∷ xs) zero zero a b h = inl (refl, some_inj.0 h)
  get-update (x ∷ xs) zero (suc j) a b h = inr h
  get-update (x ∷ xs) (suc i) zero a b h = inr h
  get-update (x ∷ xs) (suc i) (suc j) a b h = elim (get-update xs i j a b h) [
    | inl (e, f) ↦ inl (ap suc e, f)
    | inr g ↦ inr g
  ]

  pub get-snoc :
      (xs : List A) (x : A) (j : ℕ) (b : A)
      → get_elem? (xs ++ x ∷ []) j ≡ some b
      → ((j ≡ length xs) × (x ≡ b)) ⊎ (get_elem? xs j ≡ some b)
  get-snoc [] x zero b h = inl (refl, some_inj.0 h)
  get-snoc [] x (suc j) b h = inr h
  get-snoc (y ∷ xs) x zero b h = inr h
  get-snoc (y ∷ xs) x (suc j) b h = elim (get-snoc xs x j b h) [
    | inl (e, f) ↦ inl (ap suc e, f)
    | inr g ↦ inr g
  ]

module _ {T : Type 0} where
  -- What holds of one operation, after at most `bound` steps.
  pub record IsOrderly (bound : ℕ) (o : Operation T) : Type 0 where
    pub quiet : (o.cancelled ≡ true) ⊎ (o.owed ≡ true) → o.users ≡ 0
    pub doomed : o.users ≡ 0 → (o.cancelled ≡ true) ⊎ (o.owed ≡ true)
    pub bounded : o.users ≤ bound
    pub produced : o.result ≡ none → o.producing ≡ true

  pub record IsSound (bound : ℕ) (w : World T) : Type 0 where
    pub orderly : (i : ℕ) (o : Operation T) → get_elem? w.operations i ≡ some o → IsOrderly bound o
    pub registered :
        (i : ℕ) (o : Operation T)
        → get_elem? w.operations i ≡ some o
        → 0 < o.users
        → find o.key w.registry ≡ some i

  pub empty-IsSound : IsSound 0 empty
  unfolding empty
  empty-IsSound = record {
    orderly = λ i o h. absurd (none-ne-some _ h);
    registered = λ i o h u. absurd (none-ne-some _ h);
  }

  pub weaken : (n : ℕ) (o : Operation T) → IsOrderly n o → IsOrderly (n + 1) o
  weaken n o h = record {
    quiet = h.quiet;
    doomed = h.doomed;
    bounded = omega (arith, h.bounded);
    produced = h.produced;
  }

  -- A step that changes one operation, which keeps its key and gets no users out of none.
  pub update-IsSound :
      (n : ℕ) (w : World T) (i : ℕ) (o p : Operation T)
      → get_elem? w.operations i ≡ some o
      → p.key ≡ o.key
      → (0 < p.users → 0 < o.users)
      → IsOrderly (n + 1) p
      → IsSound n w
      → IsSound (n + 1) (record w { operations = update i p w.operations })
  update-IsSound n w i o p g k u good s = record {
    orderly = λ j q h. elim (get-update w.operations i j p q h) [
      | inl (e, f) ↦ subst (IsOrderly (n + 1)) f good
      | inr old ↦ weaken n q (s.orderly j q old)
    ];
    registered = λ j q h v. elim (get-update w.operations i j p q h) [
      | inl (e, f) ↦
          let busy = s.registered i o g (u (subst (λ (x : Operation T). 0 < x.users) (sym f) v)) in
          ap (λ (x : Operation T). find x.key w.registry) (sym f)
          ∙ ap (λ (x : Bytes). find x w.registry) k
          ∙ busy
          ∙ ap some e
      | inr old ↦ s.registered j q old v
    ];
  }

  pub alive_of_users :
      (os : List (Operation T)) (i : ℕ) (o : Operation T)
      → get_elem? os i ≡ some o
      → 0 < o.users
      → alive os i ≡ true
  unfolding alive
  alive_of_users os i o g u = rw (alive, g) (ground arith)

  pub find-retain :
      (os : List (Operation T)) (reg : Registry) (k : Bytes) (i : ℕ)
      → alive os i ≡ true
      → find k reg ≡ some i
      → find k (retain os reg) ≡ some i
  unfolding find retain
  find-retain os [] k i a h = h
  find-retain os ((j, n) ∷ reg) k i a h = elim (Bool-cases (equal j k)) [
    | inl e ↦
        let same : n ≡ i = some_inj.0 (rw e at h) in
        let there : alive os n ≡ true = rw same a in rw there (rw (e, same) refl)
    | inr e ↦
        let rest = find-retain os reg k i a (rw e at h) in
        elim (Bool-cases (alive os n)) [ inl t ↦ rw t (rw e rest) | inr f ↦ rw f rest ]
  ]

pub find-erase :
    (key k : Bytes) (reg : Registry) → equal key k ≡ false → find k (erase key reg) ≡ find k reg
unfolding find erase
find-erase key k [] d = refl
find-erase key k ((j, n) ∷ reg) d = elim (Bool-cases (equal j key)) [
  | inl e ↦
      let same = (equal_iff j key).0 e in
      let off : equal j k ≡ false = subst (λ (x : Bytes). equal x k ≡ false) (sym same) d in
      rw e (rw off (find-erase key k reg d))
  | inr e ↦
      let rest = find-erase key k reg d in
      rw e (elim (Bool-cases (equal j k)) [ inl t ↦ rw t refl | inr f ↦ rw f rest ])
]

-- ===== src/Shared/Single.antt =====
-- Every sequence of steps of src/shared.rs keeps one operation with users for each key.
use moenotes_assets.Base.{
  ℕ, ◌+◌, ◌^◌, ◌<◌, true, false, ◌&&◌, none, some, ◌≡◌, inl, inr, refl, sym, ap, ◌∙◌, arith, ltb,
  get_elem?, Bool-cases, Option-cases, lt→ltb,
}
use moenotes_assets.Base.Bytes.{equal_iff, Bytes, equal}
use mathlib.Core.Option.{some_inj, none-ne-some}
use mathlib.Core.Path.{subst}
use moenotes_assets.Base.{and_split}
use moenotes_assets.Shared.{
  Operation, World, find, alive, retain, joinable, existing, created, insert_new,
}
use moenotes_assets.Shared.Users.{
  find-erase, IsOrderly, IsSound, alive_of_users, find-retain, get-snoc, weaken,
}

module _ {T : Type 0} where
  pub existing-some :
      (w : World T) (key : Bytes) {i : ℕ} {o : Operation T}
      → existing w key ≡ some (i, o)
      → (get_elem? w.operations i ≡ some o) × (find key w.registry ≡ some i) × (joinable o ≡ true)
  unfolding existing
  existing-some w key {i} {o} h = elim (Option-cases (find key w.registry)) [
    | inl n ↦ absurd (none-ne-some _ (rw (existing, n) at h))
    | inr (j, f) ↦ elim (Option-cases (get_elem? w.operations j)) [
      | inl n ↦ absurd (none-ne-some _ (rw (existing, f, n) at h))
      | inr (p, g) ↦ elim (Bool-cases (alive w.operations j && joinable p)) [
        | inl t ↦
            let same = some_inj.0 (rw (existing, f, g, t) at h) in
            let (a, good) = and_split (alive w.operations j) (joinable p) t in
            let place : j ≡ i = ap (λ x. x.0) same in
            let it : p ≡ o = ap (λ x. x.1) same in
            (
              ap (get_elem? w.operations) (sym place) ∙ g ∙ ap some it,
              f ∙ ap some place,
              subst (λ (x : Operation T). joinable x ≡ true) it good,
            )
        | inr e ↦ absurd (none-ne-some _ (rw (existing, f, g, e) at h))
      ]
    ]
  ]

  -- An operation with users is found, below the limit of the count.
  pub existing_of_users :
      (n : ℕ) (w : World T) (i : ℕ) (o : Operation T)
      → n + 1 < 2 ^ 64
      → IsOrderly n o
      → get_elem? w.operations i ≡ some o
      → find o.key w.registry ≡ some i
      → 0 < o.users
      → existing w o.key ≡ some (i, o)
  unfolding existing joinable
  existing_of_users n w i o b q g f u =
      let a = alive_of_users w.operations i o g u in
      let live : o.cancelled ≡ false = elim (Bool-cases o.cancelled) [
        | inl c ↦ absurd (omega (arith, q.quiet (inl c)))
        | inr c ↦ c
      ] in
      let room : ltb (o.users + 1) (2 ^ 64) ≡ true = lt→ltb _ _ (omega (arith, q.bounded)) in
      let some_user : ltb 0 o.users ≡ true = lt→ltb 0 _ u in
      rw (existing, f, g, a, live, some_user, room) refl

  pub retained-IsSound :
      (n : ℕ) (w : World T)
      → IsSound n w
      → IsSound n (record w { registry = retain w.operations w.registry })
  retained-IsSound n w s = record {
    orderly = s.orderly;
    registered = λ i o g u.
        find-retain w.operations w.registry o.key i (alive_of_users w.operations i o g u)
          (s.registered i o g u);
  }

  created-IsOrderly : (n : ℕ) (key : Bytes) → IsOrderly (n + 1) (created {T = T} key)
  unfolding created
  created-IsOrderly n key = record {
    quiet = λ h. absurd (ground arith);
    doomed = λ h. absurd (ground arith);
    bounded = omega arith;
    produced = λ h. refl;
  }

  -- A new operation is made only where no operation of its key has users.
  pub insert_new-IsSound :
      (n : ℕ) (w : World T) (key : Bytes)
      → n + 1 < 2 ^ 64
      → existing w key ≡ none
      → IsSound n w
      → IsSound (n + 1) (insert_new key w)
  unfolding insert_new find created
  insert_new-IsSound n w key b none_found s = record {
    orderly = λ i o g. elim (get-snoc w.operations (created key) i o g) [
      | inl (e, f) ↦ subst (IsOrderly (n + 1)) f (created-IsOrderly n key)
      | inr old ↦ weaken n o (s.orderly i o old)
    ];
    registered = λ i o g u. elim (get-snoc w.operations (created key) i o g) [
      | inl (e, f) ↦
          let named : key ≡ o.key = ap (λ (x : Operation T). x.key) f in
          rw ((equal_iff key o.key).1 named) (ap some (sym e))
      | inr old ↦ elim (Bool-cases (equal key o.key)) [
        | inl same ↦
            let busy = s.registered i o old u in
            let there = existing_of_users n w i o b (s.orderly i o old) old busy u in
            absurd (none-ne-some _ (rw (sym ((equal_iff key o.key).0 same), none_found) at there))
        | inr other ↦ rw other (find-erase key o.key w.registry other ∙ s.registered i o old u)
      ]
    ];
  }

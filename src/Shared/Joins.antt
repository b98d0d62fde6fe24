-- ===== src/Shared/Joins.antt =====
-- What a join of src/shared.rs does to the counts of waiters.
use moenotes_assets.Base.{
  ℕ, zero, suc, ◌+◌, ◌^◌, ◌≤◌, ◌<◌, true, none, some, List, [], ◌∷◌, ◌++◌, ◌≡◌, inl, inr, refl, sym,
  ap, ◌∙◌, arith, ◌==◌, if◌then◌else◌, length, get_elem?, Bool-cases, Option-cases,
}
use moenotes_assets.Base.Bytes.{equal_iff, Bytes, equal}
use mathlib.Core.Option.{none-ne-some}
use moenotes_assets.Base.{dec_lt}
use moenotes_assets.Shared.{
  Operation, World, update, retain, joinable, existing, created, insert_new, join_key, erase,
}
use moenotes_assets.Shared.Users.{IsSound}
use moenotes_assets.Shared.Single.{existing-some, retained-IsSound, existing_of_users}
use moenotes_assets.Shared.Waiters.{
  Action, add, apply, started, share, waiters, IsNamed, find-IsNamed, retain-IsNamed, erase-IsNamed,
  keep-IsNamed, update-keeps, snoc-keeps, snoc-last, waiters-snoc, waiters-update, share-le-waiters,
  waiters-pos,
}

length-snoc : {A : Type 0} (xs : List A) (x : A) → length (xs ++ x ∷ []) ≡ length xs + 1
length-snoc [] x = refl
length-snoc (y ∷ xs) x = omega (arith, length-snoc xs x)

length-update : {A : Type 0} (i : ℕ) (a : A) (xs : List A) → length (update i a xs) ≡ length xs
unfolding update
length-update i a [] = refl
length-update zero a (x ∷ xs) = refl
length-update (suc i) a (x ∷ xs) = omega (arith, length-update i a xs)

new_share :
    (T : Type 0) (key k : Bytes) (n : ℕ)
    → n + share k (created {T = T} key) ≡ (if equal key k then n + 1 else n)
unfolding created
new_share T key k n = ground arith

module _ {T : Type 0} where
  insert_new-IsNamed :
      (w : World T) (key : Bytes)
      → IsNamed w.operations w.registry
      → IsNamed (insert_new key w).operations (insert_new key w).registry
  unfolding insert_new IsNamed created
  insert_new-IsNamed w key h =
      let old = erase-IsNamed w.operations key w.registry h in
      let o = created key in
      (
        (o, snoc-last w.operations o, refl),
        keep-IsNamed w.operations (w.operations ++ o ∷ []) (erase key w.registry)
            (snoc-keeps w.operations o) old,
      )

  changed-IsNamed :
      (w : World T) (i : ℕ) (o p : Operation T)
      → get_elem? w.operations i ≡ some o
      → p.key ≡ o.key
      → IsNamed w.operations w.registry
      → IsNamed (update i p w.operations) w.registry
  changed-IsNamed w i o p g e =
      keep-IsNamed w.operations (update i p w.operations) w.registry
        (update-keeps w.operations i o p g e)

  -- What one step has to keep and to do, for the proofs.
  pub record Refines (w v : World T) (a : Action) : Type 0 where
    pub named : IsNamed v.operations v.registry
    pub counted : (k : Bytes) → waiters v.operations k ≡ apply a k (waiters w.operations k)
    pub launched : length v.operations ≡ length w.operations + started a (waiters w.operations)

  insert_new-Refines :
      (w : World T) (key : Bytes)
      → waiters w.operations key ≡ 0
      → IsNamed w.operations w.registry
      → Refines w (insert_new key w) (add key)
  unfolding insert_new apply started
  insert_new-Refines w key z h = record {
    named = insert_new-IsNamed w key h;
    counted =
        λ k. waiters-snoc w.operations (created key) k ∙ new_share T key k (waiters w.operations k);
    launched = rw z (length-snoc w.operations (created key));
  }

  pub changed-Refines :
      (w : World T) (i : ℕ) (o p : Operation T) (a : Action)
      → get_elem? w.operations i ≡ some o
      → p.key ≡ o.key
      → ((k : Bytes)
          → waiters w.operations k + share k p ≡ apply a k (waiters w.operations k) + share k o)
      → started a (waiters w.operations) ≡ 0
      → IsNamed w.operations w.registry
      → Refines w (record w { operations = update i p w.operations }) a
  changed-Refines w i o p a g e sums z h = record {
    named = changed-IsNamed w i o p g e h;
    counted = λ k. omega (arith, waiters-update w.operations i o p k g, sums k);
    launched = omega (arith, length-update i p w.operations, z);
  }

  -- The count of a key of which no operation can be joined is zero.
  waiters-existing :
      (n : ℕ) (w : World T) (key : Bytes)
      → n + 1 < 2 ^ 64
      → IsSound n w
      → existing w key ≡ none
      → waiters w.operations key ≡ 0
  waiters-existing n w key b s e = elim (dec_lt 0 (waiters w.operations key)) [
    | yes h ↦
        let (i, o, g, k, u) = waiters-pos w.operations key h in
        let there = existing_of_users n w i o b (s.orderly i o g) g (s.registered i o g u) u in
        absurd (none-ne-some _ (sym e ∙ ap (existing w) (sym k) ∙ there))
    | no h ↦ omega arith
  ]

  joined_users : (o : Operation T) → joinable o ≡ true → 0 < o.users
  unfolding joinable
  joined_users o j = ground arith

  full_share :
      (key : Bytes) (o : Operation T) (n : ℕ)
      → o.key ≡ key
      → 0 < o.users
      → share key o ≤ n
      → ◌≡◌ {A = ℕ} (if n == 0 then 1 else 0) 0
  full_share key o n same u b = ground (arith, (equal_iff o.key key).1 same)

  join_share :
      (key : Bytes) (o : Operation T) (count : Bytes → ℕ)
      → o.key ≡ key
      → (k : Bytes)
      → count k + share k (record o { users = o.users + 1 })
        ≡ apply (add key) k (count k) + share k o
  unfolding apply
  join_share key o count same k =
      let agree : equal o.key k ≡ equal key k = ap (λ (x : Bytes). equal x k) same in
      elim (Bool-cases (equal key k)) [
        | inl e ↦ rw (agree, e) (omega arith)
        | inr e ↦ rw (agree, e) refl
      ]

  pub join_key-Refines :
      (n : ℕ) (w : World T) (key : Bytes)
      → n + 1 < 2 ^ 64
      → IsSound n w
      → IsNamed w.operations w.registry
      → Refines w (join_key key w) (add key)
  unfolding join_key apply started
  join_key-Refines n w key b s h =
      let v = record w { registry = retain w.operations w.registry } in
      let kept = retained-IsSound n w s in
      let called = retain-IsNamed w.operations w.operations w.registry h in
      elim (Option-cases (existing v key)) [
        | inl e ↦
            let r = insert_new-Refines v key (waiters-existing n v key b kept e) called in
            rw (join_key, e)
              (record { named = r.named; counted = r.counted; launched = r.launched })
        | inr ((i, o), e) ↦
            let (g, f, j) = existing-some v key e in
            let same = find-IsNamed w.operations v.registry key i o called f g in
            let u = joined_users o j in
            let busy = share-le-waiters w.operations i o key g in
            let p = record o { users = o.users + 1 } in
            let none_started : started (add key) (waiters w.operations) ≡ 0 =
              full_share key o _ same u busy in
            let r =
              changed-Refines v i o p (add key) g refl
                (join_share key o (waiters w.operations) same) none_started called in
            rw (join_key, e)
              (record { named = r.named; counted = r.counted; launched = r.launched })
      ]

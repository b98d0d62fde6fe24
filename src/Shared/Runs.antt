-- ===== src/Shared/Runs.antt =====
-- Every sequence of steps of src/shared.rs keeps the store sound.
use moenotes_assets.Base.{
  ℕ, suc, ◌+◌, ◌-◌, ◌^◌, ◌<◌, true, false, ◌||◌, none, some, List, [], ◌∷◌, ◌≡◌, ◌⊎◌, inl, inr,
  refl, sym, ap, ◌∙◌, arith, ltb, ◌==◌, length, get_elem?, Bool-cases, Option-cases,
}
use moenotes_assets.Base.Outcome.{Result}
use moenotes_assets.Base.Bytes.{Bytes}
use mathlib.Core.Option.{some_inj, none-ne-some}
use mathlib.Core.Path.{subst}
use moenotes_assets.Shared.{
  Operation, World, Step, join, leave, cancel, finish, find, retain, joinable, existing, join_key,
  step, steps, empty,
}
use moenotes_assets.Shared.Users.{IsOrderly, IsSound, empty-IsSound, update-IsSound}
use moenotes_assets.Shared.Single.{existing-some, retained-IsSound, insert_new-IsSound}

module _ {T : Type 0} where
  joined-IsOrderly :
      (n : ℕ) (o : Operation T)
      → joinable o ≡ true
      → IsOrderly n o
      → IsOrderly (n + 1) (record o { users = o.users + 1 })
  unfolding joinable
  joined-IsOrderly n o j h = record {
    quiet = λ e. elim e [
      | inl c ↦ absurd (ground (arith, c, j))
      | inr w ↦ absurd (ground (arith, h.quiet (inr w), j))
    ];
    doomed = λ e. absurd (omega arith);
    bounded = omega (arith, h.bounded);
    produced = h.produced;
  }

  left-IsOrderly :
      (n : ℕ) (o : Operation T)
      → ltb 0 o.users ≡ true
      → IsOrderly n o
      → IsOrderly (n + 1) (record o { users = o.users - 1; owed = o.users == 1 || o.owed })
  left-IsOrderly n o u h = record {
    quiet = λ e. elim e [
      | inl c ↦ absurd (ground (arith, h.quiet (inl c)))
      | inr w ↦ elim (Bool-cases o.owed) [
        | inl q ↦ absurd (ground (arith, h.quiet (inr q)))
        | inr q ↦ ground arith
      ]
    ];
    doomed = λ e. inr (ground arith);
    bounded = omega (arith, h.bounded);
    produced = h.produced;
  }

  stopped-IsOrderly :
      (n : ℕ) (o : Operation T)
      → o.owed ≡ true
      → IsOrderly n o
      → IsOrderly (n + 1) (record o { owed = false; cancelled = true })
  stopped-IsOrderly n o w h = record {
    quiet = λ e. h.quiet (inr w);
    doomed = λ e. inl refl;
    bounded = omega (arith, h.bounded);
    produced = h.produced;
  }

  ended-IsOrderly :
      (n : ℕ) (o : Operation T) (r : Result T)
      → IsOrderly n o
      → IsOrderly (n + 1) (record o { producing = false; result = some r })
  ended-IsOrderly n o r h = record {
    quiet = h.quiet;
    doomed = h.doomed;
    bounded = omega (arith, h.bounded);
    produced = λ e. absurd (none-ne-some _ (sym e));
  }

  joined_users : (o : Operation T) → joinable o ≡ true → 0 < o.users
  unfolding joinable
  joined_users o j = ground arith

  pub join_key-IsSound :
      (n : ℕ) (w : World T) (key : Bytes)
      → n + 1 < 2 ^ 64
      → IsSound n w
      → IsSound (n + 1) (join_key key w)
  unfolding join_key
  join_key-IsSound n w key b s =
      let v = record w { registry = retain w.operations w.registry } in
      let kept = retained-IsSound n w s in
      elim (Option-cases (existing v key)) [
        | inl e ↦ rw (join_key, e) (insert_new-IsSound n v key b e kept)
        | inr ((i, o), e) ↦
            let (g, f, j) = existing-some v key e in
            let good = joined-IsOrderly n o j (s.orderly i o g) in
            let p = record o { users = o.users + 1 } in
            rw (join_key, e) (update-IsSound n v i o p g refl (λ u. joined_users o j) good kept)
      ]

  pub step-IsSound :
      (n : ℕ) (s : Step T) (w : World T) {v : World T}
      → n + 1 < 2 ^ 64
      → IsSound n w
      → step s w ≡ some v
      → IsSound (n + 1) v
  unfolding step
  step-IsSound n (join key) w b h e =
      subst (IsSound (n + 1)) (some_inj.0 e) (join_key-IsSound n w key b h)
  step-IsSound n (leave i) w b h e = elim (Option-cases (get_elem? w.operations i)) [
    | inl g ↦ absurd (none-ne-some _ (rw (step, g) at e))
    | inr (o, g) ↦ elim (Bool-cases (ltb 0 o.users)) [
      | inl u ↦
          let p = record o { users = o.users - 1; owed = o.users == 1 || o.owed } in
          let good = left-IsOrderly n o u (h.orderly i o g) in
          subst (IsSound (n + 1)) (some_inj.0 (rw (step, g, u) at e))
            (update-IsSound n w i o p g refl (λ _. ground arith) good h)
      | inr u ↦ absurd (none-ne-some _ (rw (step, g, u) at e))
    ]
  ]
  step-IsSound n (cancel i) w b h e = elim (Option-cases (get_elem? w.operations i)) [
    | inl g ↦ absurd (none-ne-some _ (rw (step, g) at e))
    | inr (o, g) ↦ elim (Bool-cases o.owed) [
      | inl u ↦
          let p = record o { owed = false; cancelled = true } in
          let good = stopped-IsOrderly n o u (h.orderly i o g) in
          subst (IsSound (n + 1)) (some_inj.0 (rw (step, g, u) at e))
            (update-IsSound n w i o p g refl (λ q. q) good h)
      | inr u ↦ absurd (none-ne-some _ (rw (step, g, u) at e))
    ]
  ]
  step-IsSound n (finish i r) w b h e = elim (Option-cases (get_elem? w.operations i)) [
    | inl g ↦ absurd (none-ne-some _ (rw (step, g) at e))
    | inr (o, g) ↦ elim (Bool-cases o.producing) [
      | inl u ↦
          let p = record o { producing = false; result = some r } in
          let good = ended-IsOrderly n o r (h.orderly i o g) in
          subst (IsSound (n + 1)) (some_inj.0 (rw (step, g, u) at e))
            (update-IsSound n w i o p g refl (λ q. q) good h)
      | inr u ↦ absurd (none-ne-some _ (rw (step, g, u) at e))
    ]
  ]

  recount : {n m : ℕ} (v : World T) → n ≡ m → IsSound n v → IsSound m v
  recount v e = subst (λ (k : ℕ). IsSound k v) e

  steps-IsSound :
      (n : ℕ) (ss : List (Step T)) (w : World T) {v : World T}
      → n + length ss + 1 < 2 ^ 64
      → IsSound n w
      → steps ss w ≡ some v
      → IsSound (n + length ss) v
  unfolding steps
  steps-IsSound n [] w {v} b h e =
      let same : n ≡ n + 0 = omega arith in recount v same (subst (IsSound n) (some_inj.0 e) h)
  steps-IsSound n (s ∷ ss) w {v} b h e = elim (Option-cases (step s w)) [
    | inl g ↦ absurd (none-ne-some _ (rw (steps, g) at e))
    | inr (u, g) ↦
        let next =
          steps-IsSound (n + 1) ss u (omega arith) (step-IsSound n s w (omega arith) h g)
            (rw (steps, g) at e) in
        let count : n + 1 + length ss ≡ n + suc (length ss) = omega arith in recount v count next
  ]

  pub reached-IsSound :
      (ss : List (Step T)) {w : World T}
      → length ss + 1 < 2 ^ 64
      → steps ss empty ≡ some w
      → IsSound (length ss) w
  reached-IsSound ss {w} b e =
      let count : 0 + length ss ≡ length ss = omega arith in
      recount w count (steps-IsSound 0 ss empty (omega arith) empty-IsSound e)

  -- However the steps of the threads follow one another, fewer than 2^64 - 1 of them, two operations
  -- of one key that both have waiters are the same operation.
  pub single_flight :
      (ss : List (Step T)) {w : World T} (i j : ℕ) (o p : Operation T)
      → length ss + 1 < 2 ^ 64
      → steps ss empty ≡ some w
      → get_elem? w.operations i ≡ some o
      → get_elem? w.operations j ≡ some p
      → o.key ≡ p.key
      → 0 < o.users
      → 0 < p.users
      → i ≡ j
  single_flight ss {w} i j o p b e g h k u v =
      let s = reached-IsSound ss b e in
      some_inj.0 (
        sym (s.registered i o g u) ∙ ap (λ (x : Bytes). find x w.registry) k ∙ s.registered j p h v)

  held :
      {n : ℕ} (o : Operation T)
      → IsOrderly n o
      → 0 < o.users
      → (o.cancelled ≡ false) × (o.owed ≡ false)
  held o q u = (
    elim (Bool-cases o.cancelled) [ inl c ↦ absurd (omega (arith, q.quiet (inl c))) | inr c ↦ c ],
    elim (Bool-cases o.owed) [ inl c ↦ absurd (omega (arith, q.quiet (inr c))) | inr c ↦ c ],
  )

  -- After fewer than 2^64 - 1 steps, an operation with a waiter is not cancelled; one without is
  -- cancelled, or the waiter that left last is about to cancel it; and where no result is there, the
  -- producer has still to send it.
  pub waiters_hold :
      (ss : List (Step T)) {w : World T} (i : ℕ) (o : Operation T)
      → length ss + 1 < 2 ^ 64
      → steps ss empty ≡ some w
      → get_elem? w.operations i ≡ some o
      → (0 < o.users → (o.cancelled ≡ false) × (o.owed ≡ false))
        × (o.users ≡ 0 → (o.cancelled ≡ true) ⊎ (o.owed ≡ true))
        × (o.result ≡ none → o.producing ≡ true)
  waiters_hold ss i o b e g =
      let q = (reached-IsSound ss b e).orderly i o g in (λ u. held o q u, q.doomed, q.produced)

-- ===== src/Shared/Refines.antt =====
-- Each step of src/shared.rs is one on the counts of waiters.
use moenotes_assets.Base.{
  ℕ, ◌+◌, ◌-◌, ◌^◌, ◌≤◌, ◌<◌, true, false, ◌||◌, some, List, [], ◌∷◌, ◌≡◌, inl, inr, refl, arith,
  ltb, ◌==◌, length, get_elem?, Bool-cases, Option-cases, ltb→lt,
}
use moenotes_assets.Base.Bytes.{Bytes, equal}
use mathlib.Core.Option.{some_inj, none-ne-some}
use mathlib.Core.Path.{subst}
use moenotes_assets.Shared.{Operation, World, Step, join, leave, cancel, finish, step, steps, empty}
use moenotes_assets.Shared.Users.{IsSound, empty-IsSound}
use moenotes_assets.Shared.Runs.{reached-IsSound, step-IsSound}
use moenotes_assets.Shared.Waiters.{
  add, remove, idle, apply, started, share, waiters, action, IsNamed, share-le-waiters,
}
use moenotes_assets.Shared.Joins.{Refines, changed-Refines, join_key-Refines}

empty-IsNamed : (T : Type 0) → IsNamed {T = T} (empty {T = T}).operations (empty {T = T}).registry
unfolding empty IsNamed
empty-IsNamed T = tt

module _ {T : Type 0} where
  leave_share :
      (o : Operation T) (count : ℕ) (k : Bytes)
      → 0 < o.users
      → share k o ≤ count
      → count + share k (record o { users = o.users - 1; owed = o.users == 1 || o.owed })
        ≡ apply (remove o.key) k count + share k o
  unfolding apply
  leave_share o count k u b = elim (Bool-cases (equal o.key k)) [
    | inl e ↦ let fits : o.users ≤ count = rw e at b in rw e (omega arith)
    | inr e ↦ rw e refl
  ]

  step-Refines :
      (n : ℕ) (s : Step T) (w : World T) {v : World T}
      → n + 1 < 2 ^ 64
      → IsSound n w
      → IsNamed w.operations w.registry
      → step s w ≡ some v
      → Refines w v (action w s)
  unfolding step action apply started
  step-Refines n (join key) w b h m e =
      subst (λ (x : World T). Refines w x (add key)) (some_inj.0 e) (join_key-Refines n w key b h m)
  step-Refines n (leave i) w b h m e = elim (Option-cases (get_elem? w.operations i)) [
    | inl g ↦ absurd (none-ne-some _ (rw (step, g) at e))
    | inr (o, g) ↦ elim (Bool-cases (ltb 0 o.users)) [
      | inl u ↦
          let p = record o { users = o.users - 1; owed = o.users == 1 || o.owed } in
          let some_user : 0 < o.users = ltb→lt 0 o.users u in
          let sums = λ (k : Bytes).
            leave_share o (waiters w.operations k) k some_user
              (share-le-waiters w.operations i o k g) in
          let r = changed-Refines w i o p (remove o.key) g refl sums refl m in
          rw (action, g)
            (subst (λ (x : World T). Refines w x (remove o.key)) (some_inj.0 (rw (step, g, u) at e))
              r)
      | inr u ↦ absurd (none-ne-some _ (rw (step, g, u) at e))
    ]
  ]
  step-Refines n (cancel i) w b h m e = elim (Option-cases (get_elem? w.operations i)) [
    | inl g ↦ absurd (none-ne-some _ (rw (step, g) at e))
    | inr (o, g) ↦ elim (Bool-cases o.owed) [
      | inl u ↦
          let p = record o { owed = false; cancelled = true } in
          let r = changed-Refines w i o p idle g refl (λ k. refl) refl m in
          subst (λ (x : World T). Refines w x idle) (some_inj.0 (rw (step, g, u) at e)) r
      | inr u ↦ absurd (none-ne-some _ (rw (step, g, u) at e))
    ]
  ]
  step-Refines n (finish i a) w b h m e = elim (Option-cases (get_elem? w.operations i)) [
    | inl g ↦ absurd (none-ne-some _ (rw (step, g) at e))
    | inr (o, g) ↦ elim (Bool-cases o.producing) [
      | inl u ↦
          let p = record o { producing = false; result = some a } in
          let r = changed-Refines w i o p idle g refl (λ k. refl) refl m in
          subst (λ (x : World T). Refines w x idle) (some_inj.0 (rw (step, g, u) at e)) r
      | inr u ↦ absurd (none-ne-some _ (rw (step, g, u) at e))
    ]
  ]

  steps-IsNamed :
      (n : ℕ) (ss : List (Step T)) (w : World T) {v : World T}
      → n + length ss + 1 < 2 ^ 64
      → IsSound n w
      → IsNamed w.operations w.registry
      → steps ss w ≡ some v
      → IsNamed v.operations v.registry
  unfolding steps
  steps-IsNamed n [] w b h m e =
      subst (λ (x : World T). IsNamed x.operations x.registry) (some_inj.0 e) m
  steps-IsNamed n (s ∷ ss) w b h m e = elim (Option-cases (step s w)) [
    | inl g ↦ absurd (none-ne-some _ (rw (steps, g) at e))
    | inr (u, g) ↦
        steps-IsNamed (n + 1) ss u (omega arith) (step-IsSound n s w (omega arith) h g)
          (step-Refines n s w (omega arith) h m g).named (rw (steps, g) at e)
  ]

  -- After fewer than 2^64 - 1 steps, one more step does to the number of waiters of each key what the
  -- abstract action says: a join adds one waiter to its own key and to no other, the drop of a waiter
  -- takes one from the key of its operation, cancellation and the end of a producer change none; and
  -- a new operation, with its producer, starts exactly for a join of a key without waiters.
  pub steps_refine :
      (ss : List (Step T)) (s : Step T) {w v : World T}
      → length ss + 1 < 2 ^ 64
      → steps ss empty ≡ some w
      → step s w ≡ some v
      → ((k : Bytes) → waiters v.operations k ≡ apply (action w s) k (waiters w.operations k))
        × (length v.operations ≡ length w.operations + started (action w s) (waiters w.operations))
  steps_refine ss s {w} b e f =
      let named = steps-IsNamed 0 ss empty (omega arith) empty-IsSound (empty-IsNamed T) e in
      let r = step-Refines (length ss) s w b (reached-IsSound ss b e) named f in
      (r.counted, r.launched)

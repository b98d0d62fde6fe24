-- ===== src/Shared/Waiters.antt =====
-- src/shared.rs as a count of waiters for each key, which forgets the operations and the registry.
use moenotes_assets.Base.{
  ℕ, zero, suc, ◌+◌, ◌-◌, ◌≤◌, ◌<◌, none, some, List, [], ◌∷◌, ◌++◌, ◌≡◌, inl, inr, refl, sym, ap,
  ◌∙◌, arith, ◌==◌, if◌then◌else◌, length, get_elem?, Bool-cases,
}
use moenotes_assets.Base.Bytes.{equal_iff, Bytes, equal}
use mathlib.Core.Option.{some_inj, none-ne-some}
use moenotes_assets.Base.{dec_lt}
use moenotes_assets.Shared.{
  Operation, Registry, World, Step, join, leave, cancel, finish, find, update, alive, retain, erase,
}

-- What a step does to the counts.
pub data Action : Type 0 where
  add : Bytes → Action
  remove : Bytes → Action
  idle : Action

unfoldable pub apply : Action → Bytes → ℕ → ℕ
apply (add key) k n = if equal key k then n + 1 else n
apply (remove key) k n = if equal key k then n - 1 else n
apply idle k n = n

-- A producer starts for a key without waiters.
unfoldable pub started : Action → (Bytes → ℕ) → ℕ
started (add key) count = if count key == 0 then 1 else 0
started (remove key) count = 0
started idle count = 0

module _ {T : Type 0} where
  abbrev pub share : Bytes → Operation T → ℕ
  share k o = if equal o.key k then o.users else 0

  unfoldable pub waiters : List (Operation T) → Bytes → ℕ
  waiters [] k = 0
  waiters (o ∷ os) k = share k o + waiters os k

  unfoldable pub action : World T → Step T → Action
  action w (join key) = add key
  action w (leave i) = elim (get_elem? w.operations i) [ none ↦ idle | some o ↦ remove o.key ]
  action w (cancel i) = idle
  action w (finish i r) = idle

  -- Each entry of the registry names an operation of its key.
  unfoldable pub IsNamed : List (Operation T) → Registry → Type 0
  IsNamed os [] = Unit {0}
  IsNamed os ((k, i) ∷ rest) =
      ((o : Operation T) × (get_elem? os i ≡ some o) × (o.key ≡ k)) × IsNamed os rest

  pub find-IsNamed :
      (os : List (Operation T)) (reg : Registry) (key : Bytes) (i : ℕ) (o : Operation T)
      → IsNamed os reg
      → find key reg ≡ some i
      → get_elem? os i ≡ some o
      → o.key ≡ key
  unfolding find IsNamed
  find-IsNamed os [] key i o h f g = absurd (none-ne-some _ f)
  find-IsNamed os ((k, j) ∷ reg) key i o h f g = elim (Bool-cases (equal k key)) [
    | inl e ↦
        let ((p, at_j, named), _) = h in
        let place : j ≡ i = some_inj.0 (rw e at f) in
        let same : o ≡ p = some_inj.0 (sym g ∙ ap (get_elem? os) (sym place) ∙ at_j) in
        ap (λ (x : Operation T). x.key) same ∙ named ∙ (equal_iff k key).0 e
    | inr e ↦ find-IsNamed os reg key i o h.1 (rw e at f) g
  ]

  pub retain-IsNamed :
      (xs os : List (Operation T)) (reg : Registry) → IsNamed os reg → IsNamed os (retain xs reg)
  unfolding retain IsNamed
  retain-IsNamed xs os [] h = h
  retain-IsNamed xs os ((k, i) ∷ reg) h = elim (Bool-cases (alive xs i)) [
    | inl e ↦ rw e (h.0, retain-IsNamed xs os reg h.1)
    | inr e ↦ rw e (retain-IsNamed xs os reg h.1)
  ]

  pub erase-IsNamed :
      (os : List (Operation T)) (key : Bytes) (reg : Registry)
      → IsNamed os reg
      → IsNamed os (erase key reg)
  unfolding erase IsNamed
  erase-IsNamed os key [] h = h
  erase-IsNamed os key ((k, i) ∷ reg) h = elim (Bool-cases (equal k key)) [
    | inl e ↦ rw e (erase-IsNamed os key reg h.1)
    | inr e ↦ rw e (h.0, erase-IsNamed os key reg h.1)
  ]

  -- Operations may be added and changed, where keys stay.
  pub keep-IsNamed :
      (os ps : List (Operation T)) (reg : Registry)
      → ((i : ℕ) (o : Operation T)
          → get_elem? os i ≡ some o
          → (p : Operation T) × (get_elem? ps i ≡ some p) × (p.key ≡ o.key))
      → IsNamed os reg
      → IsNamed ps reg
  unfolding IsNamed
  keep-IsNamed os ps [] keep h = h
  keep-IsNamed os ps ((k, i) ∷ reg) keep h =
      let ((o, g, named), rest) = h in
      let (p, q, same) = keep i o g in ((p, q, same ∙ named), keep-IsNamed os ps reg keep rest)

  pub update-keeps :
      (os : List (Operation T)) (i : ℕ) (o p : Operation T)
      → get_elem? os i ≡ some o
      → p.key ≡ o.key
      → (j : ℕ) (q : Operation T) → get_elem? os j ≡ some q
      → (r : Operation T) × (get_elem? (update i p os) j ≡ some r) × (r.key ≡ q.key)
  unfolding update
  update-keeps [] i o p g e j q h = absurd (none-ne-some _ h)
  update-keeps (x ∷ os) zero o p g e zero q h =
      (p, refl, e ∙ ap (λ (y : Operation T). y.key) (sym (some_inj.0 g) ∙ some_inj.0 h))
  update-keeps (x ∷ os) zero o p g e (suc j) q h = (q, h, refl)
  update-keeps (x ∷ os) (suc i) o p g e zero q h = (q, h, refl)
  update-keeps (x ∷ os) (suc i) o p g e (suc j) q h = update-keeps os i o p g e j q h

  pub snoc-keeps :
      (os : List (Operation T)) (x : Operation T) (j : ℕ) (q : Operation T)
      → get_elem? os j ≡ some q
      → (r : Operation T) × (get_elem? (os ++ x ∷ []) j ≡ some r) × (r.key ≡ q.key)
  snoc-keeps [] x j q h = absurd (none-ne-some _ h)
  snoc-keeps (y ∷ os) x zero q h = (q, h, refl)
  snoc-keeps (y ∷ os) x (suc j) q h = snoc-keeps os x j q h

  pub snoc-last :
      (os : List (Operation T)) (x : Operation T) → get_elem? (os ++ x ∷ []) (length os) ≡ some x
  snoc-last [] x = refl
  snoc-last (y ∷ os) x = snoc-last os x

  pub waiters-snoc :
      (os : List (Operation T)) (x : Operation T) (k : Bytes)
      → waiters (os ++ x ∷ []) k ≡ waiters os k + share k x
  unfolding waiters
  waiters-snoc [] x k = omega arith
  waiters-snoc (y ∷ os) x k = omega (arith, waiters-snoc os x k)

  pub waiters-update :
      (os : List (Operation T)) (i : ℕ) (o p : Operation T) (k : Bytes)
      → get_elem? os i ≡ some o
      → waiters (update i p os) k + share k o ≡ waiters os k + share k p
  unfolding waiters update
  waiters-update [] i o p k g = absurd (none-ne-some _ g)
  waiters-update (x ∷ os) zero o p k g =
      let same : share k x ≡ share k o = ap (share k) (some_inj.0 g) in omega arith
  waiters-update (x ∷ os) (suc i) o p k g = omega (arith, waiters-update os i o p k g)

  pub share-le-waiters :
      (os : List (Operation T)) (i : ℕ) (o : Operation T) (k : Bytes)
      → get_elem? os i ≡ some o
      → share k o ≤ waiters os k
  unfolding waiters
  share-le-waiters [] i o k g = absurd (none-ne-some _ g)
  share-le-waiters (x ∷ os) zero o k g =
      let same : share k x ≡ share k o = ap (share k) (some_inj.0 g) in omega arith
  share-le-waiters (x ∷ os) (suc i) o k g = omega (arith, share-le-waiters os i o k g)

  -- Where a key has waiters, some operation of the key has.
  pub waiters-pos :
      (os : List (Operation T)) (k : Bytes)
      → 0 < waiters os k
      → (i : ℕ) × (o : Operation T) × (get_elem? os i ≡ some o) × (o.key ≡ k) × (0 < o.users)
  unfolding waiters
  waiters-pos [] k h = absurd (omega arith)
  waiters-pos (x ∷ os) k h = elim (dec_lt 0 (waiters os k)) [
    | yes more ↦ let (i, o, g, e, u) = waiters-pos os k more in (suc i, o, g, e, u)
    | no none_left ↦ elim (Bool-cases (equal x.key k)) [
      | inl e ↦ (0, x, refl, (equal_iff x.key k).0 e, ground arith)
      | inr e ↦ absurd (ground arith)
    ]
  ]

-- ===== src/Budget/Sum.antt =====
-- `Budget` of src/service.rs counts what lives.
use mathlib.Core.Path.{subst}
use moenotes_assets.Base.{
  ℕ, zero, suc, ◌+◌, ◌-◌, ◌%◌, ◌^◌, ◌≤◌, ◌<◌, some, List, [], ◌∷◌, ◌≡◌, inl, inr, refl, ◌∙◌, arith,
  leb, Option-cases, leb→le,
}
use moenotes_assets.Base.Outcome.{ok, context, >>=-eq-ok, ensure-eq-ok, Result-cases, ok_injective}
use moenotes_assets.Base.Bytes.{checked_add}
use moenotes_assets.Budget.{
  Budget, Held, Use, acquire, drop_at, reserve, release, remove_at, apply, apply_all, unused,
}

unfoldable pub sum : List ℕ → ℕ
sum [] = 0
sum (x ∷ xs) = x + sum xs

pub record IsCounted (max : ℕ) (h : Held) : Type 0 where
  pub same_max : h.budget.max ≡ max
  pub exact : h.budget.used ≡ sum h.live
  pub within_max : h.budget.used ≤ max

remove_at-sum :
    (i : ℕ) (xs : List ℕ) {n : ℕ} {rest : List ℕ}
    → remove_at i xs ≡ some (n, rest)
    → n + sum rest ≡ sum xs
unfolding remove_at sum
remove_at-sum i [] h = absurd (ground arith)
remove_at-sum zero (x ∷ xs) {n} {rest} h =
    let a : x ≡ n = ground arith in let b : xs ≡ rest = ground arith in rw (a, b) refl
remove_at-sum (suc i) (x ∷ xs) {n} {rest} h = elim (Option-cases (remove_at i xs)) [
  | inl e ↦ absurd (ground arith)
  | inr ((y, more), e) ↦
      let a : y ≡ n = ground arith in
      let b : (x ∷ more) ≡ rest = ground arith in
      let r = remove_at-sum i xs e in rw (← a, ← b) (omega arith)
]

reserve-ok :
    (n : ℕ) (b : Budget) {t : Budget}
    → reserve n b ≡ ok t
    → (t.max ≡ b.max) × (t.used ≡ b.used + n) × (t.used ≤ b.max)
unfolding reserve
reserve-ok n b h =
    let (total, c, h₁) = >>=-eq-ok (context (checked_add b.used n) _) _ h in
    let (few, h₂) = ensure-eq-ok (leb total b.max) _ _ h₁ in
    let sum_is : total ≡ b.used + n = ground arith in
    let le : total ≤ b.max = leb→le total b.max few in
    let same = ok_injective h₂ in
    subst (λ (x : Budget). (x.max ≡ b.max) × (x.used ≡ b.used + n) × (x.used ≤ b.max)) same
      (refl, sum_is, le)

release_exact : (used n : ℕ) → n ≤ used → used < 2 ^ 64 → (used + (2 ^ 64 - n)) % 2 ^ 64 ≡ used - n
release_exact used n h w = ground arith

apply-IsCounted :
    (max : ℕ) (u : Use) (h : Held) → max < 2 ^ 64 → IsCounted max h → IsCounted max (apply u h)
unfolding apply reserve release sum
apply-IsCounted max (acquire n) h w c = elim (Result-cases (reserve n h.budget)) [
  | inl (b, e) ↦
      let got : (b.max ≡ h.budget.max) × (b.used ≡ h.budget.used + n) × (b.used ≤ h.budget.max) =
        reserve-ok n h.budget e in
      rw (apply, e)
        (record {
          same_max = got.0 ∙ c.same_max;
          exact = omega (arith, got.2, c.exact);
          within_max = omega (arith, got.2, c.same_max);
        })
  | inr (e, f) ↦ rw (apply, f) c
]
apply-IsCounted max (drop_at i) h w c = elim (Option-cases (remove_at i h.live)) [
  | inl e ↦ rw (apply, e) c
  | inr ((n, rest), e) ↦
      let parts = remove_at-sum i h.live e in
      let counted = c.exact in
      let below = c.within_max in
      let left = release_exact h.budget.used n (omega arith) (omega arith) in
      rw (apply, e)
        (record {
          same_max = c.same_max;
          exact = left ∙ omega arith;
          within_max = rw left (omega arith);
        })
]

-- From an unused budget of less than 2 ^ 64 bytes, after any sequence of reservations and drops,
-- the count is exactly the sum of the reservations that live, and within the maximum.
pub apply_all-IsCounted :
    (max : ℕ) (us : List Use) → max < 2 ^ 64 → IsCounted max (apply_all us (unused max))
unfolding unused sum apply_all
apply_all-IsCounted max us w =
    all_of us (unused max) (record { same_max = refl; exact = refl; within_max = omega arith })
  where
    all_of : (vs : List Use) (h : Held) → IsCounted max h → IsCounted max (apply_all vs h)
    all_of [] h c = c
    all_of (v ∷ vs) h c = all_of vs (apply v h) (apply-IsCounted max v h w c)

-- ===== src/Tests/Budgets.antt =====
-- Reservations of a small budget.
use moenotes_assets.Base.{List, [], ◌∷◌, ◌≡◌, refl, arith}
use moenotes_assets.Budget.{
  Use, acquire, drop_at, release, reserve, remove_at, apply, apply_all, unused,
}
use moenotes_assets.Budget.Sum.{IsCounted, apply_all-IsCounted}

-- Of 10 bytes: 6 are reserved, 5 are refused, the 6 are given back, and 5 are reserved.
abbrev uses : List Use
uses = acquire 6 ∷ acquire 5 ∷ drop_at 0 ∷ acquire 5 ∷ []

uses_live : (apply_all uses (unused 10)).live ≡ 5 ∷ []
unfolding apply_all apply unused reserve remove_at release
uses_live = refl

apply_all-IsCounted_example : IsCounted 10 (apply_all uses (unused 10))
apply_all-IsCounted_example = apply_all-IsCounted 10 uses (omega arith)

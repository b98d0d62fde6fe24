-- ===== src/Service/Order.antt =====
-- The order of ids of src/service.rs.
use moenotes_assets.Base.{
  true, false, List, [], ◌∷◌, ◌≡◌, ◌≢◌, inl, inr, refl, sym, ap, ◌∙◌, arith, All, Bool-cases,
}
use moenotes_assets.Base.Bytes.{equal_iff, Bytes, equal}
use moenotes_assets.Service.{less, Task}

pub less_irrefl : (a : Bytes) → less a a ≡ false
unfolding less
less_irrefl [] = refl
less_irrefl (x ∷ a) = ground (arith, less_irrefl a)

less_nil : (a : Bytes) → less a [] ≢ true
unfolding less
less_nil [] h = cc
less_nil (x ∷ a) h = cc

pub less_trans : (a b c : Bytes) → less a b ≡ true → less b c ≡ true → less a c ≡ true
unfolding less
less_trans a b [] h k = absurd (less_nil b k)
less_trans a [] (z ∷ c) h k = absurd (less_nil a h)
less_trans [] (y ∷ b) (z ∷ c) h k = refl
less_trans (x ∷ a) (y ∷ b) (z ∷ c) h k = ground (arith, less_trans a b c)

pub less-ne : (a b : Bytes) → less a b ≡ true → equal b a ≡ false
less-ne a b h = elim (Bool-cases (equal b a)) [
  | inr e ↦ e
  | inl e ↦
      let same : b ≡ a = (equal_iff b a).0 e in
      absurd (ground (arith, less_irrefl a, sym (ap (less a) same) ∙ h))
]

-- Rows after an id, each after the one before it.
unfoldable pub Ascending : Bytes → List Task → Type 0
Ascending previous [] = Unit {0}
Ascending previous (t ∷ ts) = (less previous t.id ≡ true) × Ascending t.id ts

-- Rows of which none is after an id.
abbrev pub Below : Bytes → List Task → Type 0
Below previous = All (λ t. less previous t.id ≡ false)

pub Ascending-later :
    (a b : Bytes) (ts : List Task) → less a b ≡ true → Ascending b ts → Ascending a ts
unfolding Ascending
Ascending-later a b [] h k = tt
Ascending-later a b (t ∷ ts) h k = (less_trans a b t.id h k.0, k.1)

pub Below-later : (a b : Bytes) (ts : List Task) → less a b ≡ true → Below a ts → Below b ts
Below-later a b [] h k = tt
Below-later a b (t ∷ ts) h k = (
  elim (Bool-cases (less b t.id)) [
    | inl e ↦ absurd (ground (arith, less_trans a b t.id h e, k.0))
    | inr e ↦ e
  ],
  Below-later a b ts h k.1,
)

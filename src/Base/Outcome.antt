-- ===== src/Base/Outcome.antt =====
-- `anyhow::Result`: an error is the text of its message. `ensure!`, `bail!` and `context` are
-- `ensure`, `err` and `context`; `?` is a bind.
use Prim.Native.String.{String}
use mathlib.Core.Path.{◌≡◌, refl, ap}
use mathlib.Core.Logic.{◌≢◌, ◌⊎◌, inl, inr}
use mathlib.Core.Bool.{Bool, true, false}
use mathlib.Core.Option.{Option, none, some}
use mathlib.Core.List.{List, [], ◌∷◌}

pub data Result {ℓ} (A : Type ℓ) : Type ℓ where
  ok : A → Result A
  err : String → Result A

abbrev pub is_ok {ℓ} : {A : Type ℓ} → Result A → Bool
is_ok (ok a) = true
is_ok (err e) = false

infixl 5 ◌>>=◌
infixl 5 ◌>>◌
-- `?`
abbrev pub ◌>>=◌ {ℓ m} : {T : Type ℓ} {U : Type m} → Result T → (T → Result U) → Result U
err message >>= next = err message
ok value >>= next = next value

abbrev pub ◌>>◌ {m} : {U : Type m} → Result (Unit {0}) → Result U → Result U
check >> next = check >>= λ done. next

abbrev pub ensure : Bool → String → Result (Unit {0})
ensure true e = ok tt
ensure false e = err e

abbrev pub context {ℓ} : {A : Type ℓ} → Option A → String → Result A
context (some a) e = ok a
context none e = err e

-- `.map(f).collect::<Result<Vec<_>>>()`: the first error ends it.
abbrev pub collect {ℓ κ} : {A : Type ℓ} {B : Type κ} → (A → Result B) → List A → Result (List B)
collect f [] = ok []
collect f (x ∷ xs) = do y ← f x; ys ← collect f xs; ok (y ∷ ys)

pub Result-cases {ℓ} :
    {A : Type ℓ} (r : Result A) → ((a : A) × (r ≡ ok a)) ⊎ ((e : String) × (r ≡ err e))
Result-cases (ok a) = inl (a, refl)
Result-cases (err e) = inr (e, refl)

pub >>=-eq-ok {ℓ m} :
    {T : Type ℓ} {U : Type m} (r : Result T) (next : T → Result U) {u : U}
    → (r >>= next) ≡ ok u
    → (t : T) × (r ≡ ok t) × (next t ≡ ok u)
>>=-eq-ok (err message) next h = cc
>>=-eq-ok (ok value) next h = (value, refl, h)

pub ensure-eq-ok {ℓ} :
    {B : Type ℓ} (t : Bool) (e : String) (k : Result B) {b : B}
    → (ensure t e >> k) ≡ ok b
    → (t ≡ true) × (k ≡ ok b)
ensure-eq-ok true e k h = (refl, h)
ensure-eq-ok false e k h = cc

abbrev or_else {ℓ} : {A : Type ℓ} → A → Result A → A
or_else d (ok a) = a
or_else d (err e) = d

pub ok_injective {ℓ} : {A : Type ℓ} {a b : A} → ◌≡◌ {A = Result A} (ok a) (ok b) → a ≡ b
ok_injective {a} h = ap (or_else a) h

pub ensure-ok : (t : Bool) (e : String) {u : Unit {0}} → ensure t e ≡ ok u → t ≡ true
ensure-ok true e h = refl
ensure-ok false e h = cc

pub err-ne-ok {ℓ} : {A : Type ℓ} {e : String} {a : A} → ◌≢◌ {A = Result A} (err e) (ok a)
err-ne-ok h = cc

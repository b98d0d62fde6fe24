-- ===== src/Base/Bytes.antt =====
-- Byte strings: range reads as `slice::get` makes them, fixed-width integers in both byte orders,
-- and equality. A Rust `String` is the list of its UTF-8 bytes.
use Prim.Native.Nat.{zero, suc, ◌/◌, ◌%◌, ℕ, zero, suc, ◌+◌, ◌-◌, ◌*◌, ◌≤◌, ◌<◌, ◌^◌}
use Prim.Native.Char.{code}
use Prim.Native.String.{String}
use mathlib.Core.Path.{◌≡◌}
use mathlib.Core.Logic.{◌↔◌}
use mathlib.Core.Bool.{Bool, true, false, ◌&&◌}
use mathlib.Core.Option.{Option, none, some}
use mathlib.Core.List.{List, [], ◌∷◌}
use native.Mathlib.Omega.{arith}
use moenotes_assets.Base.Tests.{leb, ltb, ◌==◌, if◌then◌else◌}
use moenotes_assets.Base.Lists.{length, take, drop, All, length-take, length-drop}

abbrev pub Bytes : Type 0
Bytes = List ℕ

abbrev pub IsBytes : Bytes → Type 0
IsBytes = All (λ b. b < 256)

-- The bytes of an ASCII literal.
abbrev pub codes : String → Bytes
codes String.[] = []
codes (String.◌∷◌ c s) = code c ∷ codes s

unfoldable pub equal : Bytes → Bytes → Bool
equal [] [] = true
equal (x ∷ xs) (y ∷ ys) = x == y && equal xs ys
equal _ _ = false

pub equal_iff : (xs ys : Bytes) → (equal xs ys ≡ true) ↔ (xs ≡ ys)
unfolding equal
equal_iff [] ys = ground arith
equal_iff (x ∷ xs) [] = ground arith
equal_iff (x ∷ xs) (y ∷ ys) = ground (equal_iff xs ys, arith)

unfoldable pub starts_with : Bytes → Bytes → Bool
starts_with xs [] = true
starts_with [] (y ∷ ys) = false
starts_with (x ∷ xs) (y ∷ ys) = x == y && starts_with xs ys

-- `b.get(p..q)`
unfoldable pub range : Bytes → ℕ → ℕ → Option Bytes
range b p q = if leb p q && leb q (length b) then some (take (q - p) (drop p b)) else none

-- `a.checked_add(b)` on `usize` and `u64`
abbrev pub checked_add : ℕ → ℕ → Option ℕ
checked_add a b = if ltb (a + b) (2 ^ 64) then some (a + b) else none

-- `from_be_bytes` and `from_le_bytes` of any width
unfoldable pub be_from : ℕ → Bytes → ℕ
be_from n [] = n
be_from n (b ∷ bs) = be_from (n * 256 + b) bs

abbrev pub be : Bytes → ℕ
be = be_from 0

-- `to_be_bytes`, of a number of `k` bytes
unfoldable pub be_bytes : ℕ → ℕ → Bytes
be_bytes zero n = []
be_bytes (suc k) n = n / 256 ^ k % 256 ∷ be_bytes k n

unfoldable pub le : Bytes → ℕ
le [] = 0
le (b ∷ bs) = b + 256 * le bs

-- A range that is read has the length asked for, and lies inside.
pub range-some :
    (b : Bytes) (p q : ℕ) {v : Bytes}
    → range b p q ≡ some v
    → (length v + p ≡ q) × (q ≤ length b) × (v ≡ take (q - p) (drop p b))
unfolding range
range-some b p q {v} h =
    let parts : (p ≤ q) × (q ≤ length b) × (v ≡ take (q - p) (drop p b)) = ground arith in
    let size : length (take (q - p) (drop p b)) ≡ q - p =
      omega (arith, length-take {0} (q - p) (drop p b), length-drop {0} p b) in
    (rw parts.2 (omega arith), parts.1, parts.2)

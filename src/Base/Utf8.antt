-- ===== src/Base/Utf8.antt =====
-- `std::str::from_utf8`: a string is the list of its bytes, and the check is one pass that knows
-- how many continuation bytes are wanted and the range of the next.
use moenotes_assets.Base.{
  ℕ, zero, suc, ◌<◌, Bool, true, false, Option, none, some, [], ◌∷◌, ◌≡◌, refl, arith, ltb, ◌==◌,
  within, if◌then◌else◌, All,
}
use moenotes_assets.Base.Outcome.{Result, ok, ensure, ◌>>◌}
use moenotes_assets.Base.Bytes.{Bytes}

-- The continuation bytes that a first byte wants, and the range of the next one.
abbrev lead : ℕ → Option (ℕ × ℕ × ℕ)
lead b =
    if ltb b 0x80
    then some (0, 0x80, 0xbf)
    else if within 0xc2 0xdf b
    then some (1, 0x80, 0xbf)
    else if b == 0xe0
    then some (2, 0xa0, 0xbf)
    else if b == 0xed
    then some (2, 0x80, 0x9f)
    else if within 0xe1 0xef b
    then some (2, 0x80, 0xbf)
    else if b == 0xf0
    then some (3, 0x90, 0xbf)
    else if within 0xf1 0xf3 b
    then some (3, 0x80, 0xbf)
    else if b == 0xf4
    then some (3, 0x80, 0x8f)
    else none

abbrev accept : ℕ × ℕ × ℕ → ℕ → Option (ℕ × ℕ × ℕ)
accept (zero, lo, hi) b = lead b
accept (suc n, lo, hi) b = if within lo hi b then some (n, 0x80, 0xbf) else none

unfoldable pub valid_from : ℕ × ℕ × ℕ → Bytes → Bool
valid_from (zero, lo, hi) [] = true
valid_from (suc n, lo, hi) [] = false
valid_from s (b ∷ bs) = elim (accept s b) [ none ↦ false | some t ↦ valid_from t bs ]

unfoldable pub is_utf8 : Bytes → Bool
unfolding valid_from
is_utf8 = valid_from (0, 0x80, 0xbf)

unfoldable pub from_utf8 : Bytes → Result Bytes
unfolding is_utf8
from_utf8 b = do ensure (is_utf8 b) "invalid utf-8 sequence"; ok b

-- ASCII is UTF-8.
pub is_utf8_of_ascii : (b : Bytes) → All (λ c. c < 128) b → is_utf8 b ≡ true
unfolding is_utf8
is_utf8_of_ascii [] h = refl
is_utf8_of_ascii (c ∷ b) h = ground (arith, is_utf8_of_ascii b h.1)

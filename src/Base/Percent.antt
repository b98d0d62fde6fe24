-- ===== src/Base/Percent.antt =====
-- Percent escapes with capital digits, as src/upload.rs and src/tree.rs write them, and their
-- reader; `split` and `join` at a separator.
use Prim.Native.Nat.{ℕ, ◌+◌, ◌-◌, ◌*◌, ◌/◌, ◌%◌, ◌<◌}
use mathlib.Core.Path.{◌≡◌, refl, sym, ap, ◌∙◌}
use mathlib.Core.Logic.{◌≢◌, inl, inr}
use mathlib.Core.Bool.{Bool, false, ◌||◌}
use mathlib.Core.Option.{Option, none, some}
use mathlib.Core.List.{List, [], ◌∷◌, ◌++◌}
use native.Mathlib.Omega.{arith}
use moenotes_assets.Base.Lists.{All}
use moenotes_assets.Base.Tests.{ltb, ◌==◌, within, if◌then◌else◌, Bool-cases, ==_iff}
use moenotes_assets.Base.Bytes.{Bytes, IsBytes}
use mathlib.Core.Option.{some_inj, none-ne-some}
use mathlib.Core.Option

unfoldable pub is_ascii_alphanumeric : ℕ → Bool
is_ascii_alphanumeric c = within b'0' b'9' c || within b'A' b'Z' c || within b'a' b'z' c

unfoldable pub is_ascii_hexdigit : ℕ → Bool
is_ascii_hexdigit c = within b'0' b'9' c || within b'a' b'f' c || within b'A' b'F' c

abbrev pub upper_digit : ℕ → ℕ
upper_digit n = if ltb n 10 then b'0' + n else b'A' + (n - 10)

-- `format!("%{b:02X}")`
abbrev pub percent : ℕ → Bytes
percent b = b'%' ∷ upper_digit (b / 16) ∷ upper_digit (b % 16) ∷ []

unfoldable pub escape : (ℕ → Bool) → Bytes → Bytes
escape safe [] = []
escape safe (b ∷ bs) = (if safe b then b ∷ [] else percent b) ++ escape safe bs

-- The value of a capital digit.
abbrev pub digit_of : ℕ → Option ℕ
digit_of c =
    if within b'0' b'9' c
    then some (c - b'0')
    else if within b'A' b'F' c
    then some (c - b'A' + 10)
    else none

abbrev byte_of : Option ℕ → Option ℕ → Option Bytes → Option Bytes
byte_of (some h) (some l) (some bs) = some ((h * 16 + l) ∷ bs)
byte_of _ _ _ = none

unfoldable pub unescape : Bytes → Option Bytes
unescape [] = some []
unescape (a ∷ []) = if a == b'%' then none else some (a ∷ [])
unescape (a ∷ b ∷ []) =
    let plain = Option.map (λ bs. a ∷ bs) (unescape (b ∷ [])) in if a == b'%' then none else plain
unescape (a ∷ b ∷ c ∷ rest) =
    let plain = Option.map (λ bs. a ∷ bs) (unescape (b ∷ c ∷ rest)) in
    let coded = byte_of (digit_of b) (digit_of c) (unescape rest) in
    if a == b'%' then coded else plain

abbrev pub push : ℕ → List Bytes → List Bytes
push c [] = (c ∷ []) ∷ []
push c (p ∷ ps) = (c ∷ p) ∷ ps

-- `str::split`
unfoldable pub split : ℕ → Bytes → List Bytes
split sep [] = [] ∷ []
split sep (c ∷ cs) = let rest = split sep cs in if c == sep then [] ∷ rest else push c rest

unfoldable pub join : ℕ → List Bytes → Bytes
join sep [] = []
join sep (p ∷ []) = p
join sep (p ∷ q ∷ ps) = p ++ sep ∷ join sep (q ∷ ps)

unescape_plain :
    (a : ℕ) (bs : Bytes)
    → (a == b'%') ≡ false
    → unescape (a ∷ bs) ≡ Option.map (λ cs. a ∷ cs) (unescape bs)
unfolding unescape
unescape_plain a [] n = rw n refl
unescape_plain a (b ∷ []) n = rw n refl
unescape_plain a (b ∷ c ∷ rest) n = rw n refl

digit_of-upper_digit : (n : ℕ) → n < 16 → digit_of (upper_digit n) ≡ some n
digit_of-upper_digit n h = ground arith

-- Escapes are read back, where `%` itself is escaped.
pub unescape-escape :
    (safe : ℕ → Bool) (bs : Bytes)
    → safe b'%' ≡ false
    → IsBytes bs
    → unescape (escape safe bs) ≡ some bs
unfolding escape unescape
unescape-escape safe [] n h = refl
unescape-escape safe (b ∷ bs) n (small, h) = elim (Bool-cases (safe b)) [
  | inl s ↦
      let other : (b == b'%') ≡ false = elim (Bool-cases (b == b'%')) [
        | inl e ↦ absurd (ground (arith, n, s, ap safe ((==_iff b b'%').0 e)))
        | inr e ↦ e
      ] in
      rw s (
        unescape_plain b (escape safe bs) other
        ∙ ap (Option.map (λ cs. b ∷ cs)) (unescape-escape safe bs n h))
  | inr s ↦
      let high = digit_of-upper_digit (b / 16) (omega arith) in
      let low = digit_of-upper_digit (b % 16) (omega arith) in
      rw (s, high, low, unescape-escape safe bs n h) (ap (λ (x : ℕ). some (x ∷ bs)) (omega arith))
]

-- A character that is not safe, nor one of an escape, is not there.
pub escape-lacks :
    (safe : ℕ → Bool) (c : ℕ) (bs : Bytes)
    → safe c ≡ false
    → c < b'0'
    → c ≢ b'%'
    → All (λ b. b ≢ c) (escape safe bs)
unfolding escape
escape-lacks safe c [] n l p = tt
escape-lacks safe c (b ∷ bs) n l p = elim (Bool-cases (safe b)) [
  | inl s ↦ rw s ((λ e. absurd (ground (arith, n, s, ap safe e))), escape-lacks safe c bs n l p)
  | inr s ↦ rw s (
    (λ e. p (sym e)),
    ((λ e. absurd (ground arith)), ((λ e. absurd (ground arith)), escape-lacks safe c bs n l p)),
  )
]

split-append :
    (sep : ℕ) (p rest : Bytes)
    → All (λ b. b ≢ sep) p
    → split sep (p ++ sep ∷ rest) ≡ p ∷ split sep rest
unfolding split
split-append sep [] rest h = rw ((==_iff sep sep).1 refl) refl
split-append sep (c ∷ p) rest (n, h) = elim (Bool-cases (c == sep)) [
  | inl e ↦ absurd (n ((==_iff c sep).0 e))
  | inr e ↦ rw (e, split-append sep p rest h) refl
]

split_one : (sep : ℕ) (p : Bytes) → All (λ b. b ≢ sep) p → split sep p ≡ p ∷ []
unfolding split
split_one sep [] h = refl
split_one sep (c ∷ p) (n, h) = elim (Bool-cases (c == sep)) [
  | inl e ↦ absurd (n ((==_iff c sep).0 e))
  | inr e ↦ rw (e, split_one sep p h) refl
]

pub split-join :
    (sep : ℕ) (p : Bytes) (ps : List Bytes)
    → All (All (λ b. b ≢ sep)) (p ∷ ps)
    → split sep (join sep (p ∷ ps)) ≡ p ∷ ps
unfolding join
split-join sep p [] h = split_one sep p h.0
split-join sep p (q ∷ ps) h =
    split-append sep p (join sep (q ∷ ps)) h.0
    ∙ ap (λ (x : List Bytes). p ∷ x) (split-join sep q ps h.1)

pub split-cons : (sep : ℕ) (s : Bytes) → (p : Bytes) × (ps : List Bytes) × (split sep s ≡ p ∷ ps)
unfolding split
split-cons sep [] = ([], [], refl)
split-cons sep (c ∷ s) =
    let (p, ps, e) = split-cons sep s in
    elim (Bool-cases (c == sep)) [
      | inl t ↦ ([], p ∷ ps, rw (t, e) refl)
      | inr t ↦ (c ∷ p, ps, rw (t, e) refl)
    ]

join-push :
    (sep c : ℕ) (p : Bytes) (ps : List Bytes) → join sep ((c ∷ p) ∷ ps) ≡ c ∷ join sep (p ∷ ps)
unfolding join
join-push sep c p [] = refl
join-push sep c p (q ∷ ps) = refl

pub join-split : (sep : ℕ) (s : Bytes) → join sep (split sep s) ≡ s
unfolding split join
join-split sep [] = refl
join-split sep (c ∷ s) =
    let (p, ps, e) = split-cons sep s in
    elim (Bool-cases (c == sep)) [
      | inl t ↦
          rw (t, e)
            (ap (λ (x : Bytes). sep ∷ x) (ap (join sep) (sym e) ∙ join-split sep s)
              ∙ ap (λ (x : ℕ). x ∷ s) (sym ((==_iff c sep).0 t)))
      | inr t ↦
          rw (t, e)
            (join-push sep c p ps
              ∙ ap (λ (x : Bytes). c ∷ x) (ap (join sep) (sym e) ∙ join-split sep s))
    ]

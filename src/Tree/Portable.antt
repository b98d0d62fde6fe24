-- ===== src/Tree/Portable.antt =====
-- A component of src/tree.rs is portable.
use moenotes_assets.Base.{
  ℕ, zero, suc, ◌+◌, ◌/◌, ◌%◌, ◌≤◌, ◌<◌, Bool, true, false, ◌||◌, [], ◌∷◌, ◌++◌, ◌≡◌, ◌≢◌, inl, inr,
  refl, sym, ap, ◌∙◌, arith, ltb, ◌==◌, length, take, Bool-cases, length-map, ltb→lt, length-append,
  length-take, All-append,
}
use moenotes_assets.Base.Bytes.{equal_iff, Bytes, IsBytes, codes, equal, starts_with}
use moenotes_assets.Base.Percent.{escape}
use moenotes_assets.Crypto.{Primitives, digest, hex, hex_digit}
use moenotes_assets.Tree.{
  is_plain, undot, ends_blank, escape_ends, stem, to_uppercase, numbered, reserved, unreserve,
  shorten, component,
}
use moenotes_assets.Tree.Names.{
  is_allowed, Allowed, IsPortable, IsName, escape-Allowed, undot-IsName, ends_blank-cons,
  escape_ends-IsName, ends_blank-escape_ends,
}

-- What a name has before it is shortened.
record IsLong (out : Bytes) : Type 0 where
  named : IsName out
  ended : ends_blank out ≡ false
  unreserved : reserved (to_uppercase (stem out)) ≡ false

reserved-underscore : (s : Bytes) → reserved (b'_' ∷ s) ≡ false
unfolding reserved numbered equal starts_with
reserved-underscore s = ground arith

unreserve-IsLong : (out : Bytes) → IsName out → ends_blank out ≡ false → IsLong (unreserve out)
unfolding unreserve is_allowed stem to_uppercase
unreserve-IsLong out h e = elim (Bool-cases (reserved (to_uppercase (stem out)))) [
  | inl t ↦ rw t (record {
    named = record { chars = (refl, h.chars); one = omega arith };
    ended = ends_blank-cons b'_' out h.one ∙ e;
    unreserved = reserved-underscore (to_uppercase (stem out));
  })
  | inr t ↦ rw t (record { named = h; ended = e; unreserved = t })
]

equal-length : (s t : Bytes) → equal s t ≡ true → length s ≡ length t
equal-length s t h = ap (λ (x : Bytes). length x) ((equal_iff s t).0 h)

reserved_short : (s : Bytes) → reserved s ≡ true → length s ≤ 4
unfolding reserved numbered
reserved_short s h = ground (
  arith,
  equal-length s (codes "CON"),
  equal-length s (codes "PRN"),
  equal-length s (codes "AUX"),
  equal-length s (codes "NUL"),
)

stem-take :
    (n : ℕ) (out rest : Bytes)
    → n < length out
    → length (stem (take n out ++ rest)) < n
    → stem (take n out ++ rest) ≡ stem out
unfolding stem
stem-take zero out rest l h = absurd (omega arith)
stem-take (suc n) [] rest l h = absurd (omega arith)
stem-take (suc n) (c ∷ out) rest l h = elim (Bool-cases (c == b'.')) [
  | inl t ↦ rw t refl
  | inr t ↦
      let less : length (c ∷ stem (take n out ++ rest)) < suc n = rw t at h in
      rw t (ap (λ (x : Bytes). c ∷ x) (stem-take n out rest (omega arith) (omega arith)))
]

take-Allowed : (n : ℕ) (s : Bytes) → Allowed s → Allowed (take n s)
take-Allowed zero s h = tt
take-Allowed (suc n) [] h = tt
take-Allowed (suc n) (c ∷ s) h = (h.0, take-Allowed n s h.1)

hex_digit-Allowed : (n : ℕ) → n < 16 → is_allowed (hex_digit n) ≡ true
unfolding is_allowed
hex_digit-Allowed n h = ground arith

hex-Allowed : (s : Bytes) → IsBytes s → Allowed (hex s)
unfolding hex
hex-Allowed [] h = tt
hex-Allowed (b ∷ s) (small, h) = (
  hex_digit-Allowed (b / 16) (omega arith),
  (hex_digit-Allowed (b % 16) (omega arith), hex-Allowed s h),
)

hex_unblank : (n : ℕ) → n < 16 → (hex_digit n == b'.' || hex_digit n == b' ') ≡ false
hex_unblank n h = ground arith

ends_blank-hex : (n : ℕ) (s : Bytes) → IsBytes s → ends_blank (take n (hex s)) ≡ false
unfolding ends_blank hex
ends_blank-hex zero s h = refl
ends_blank-hex (suc n) [] h = refl
ends_blank-hex (suc zero) (b ∷ s) (small, h) = hex_unblank (b / 16) (omega arith)
ends_blank-hex (suc (suc zero)) (b ∷ s) (small, h) = hex_unblank (b % 16) (omega arith)
ends_blank-hex (suc (suc (suc n))) (b ∷ []) (small, h) = hex_unblank (b % 16) (omega arith)
ends_blank-hex (suc (suc (suc n))) (b ∷ c ∷ s) (small, h) = ends_blank-hex (suc n) (c ∷ s) h

positive : (xs : Bytes) (y : ℕ) (ys : Bytes) → 0 < length (xs ++ y ∷ ys)
positive [] y ys = omega arith
positive (x ∷ xs) y ys = omega arith

tilde : (s : Bytes) → ends_blank s ≡ false → ends_blank (b'~' ∷ s) ≡ false
unfolding ends_blank
tilde [] h = refl
tilde (c ∷ s) h = h

tilde-Allowed : is_allowed b'~' ≡ true
unfolding is_allowed
tilde-Allowed = refl

length-to_uppercase : (s : Bytes) → length (to_uppercase s) ≡ length s
unfolding to_uppercase
length-to_uppercase s = length-map _ s

false-ne-true : ◌≢◌ {A = Bool} false true
false-ne-true h = cc

one_round : (n : ℕ) (out : Bytes) → ends_blank (escape_ends (n + 1) out) ≡ false
one_round n out = let e : n + 1 ≡ suc n = omega arith in rw e (ends_blank-escape_ends n out)

ends_blank-append :
    (xs : Bytes) (y : ℕ) (ys : Bytes) → ends_blank (xs ++ y ∷ ys) ≡ ends_blank (y ∷ ys)
unfolding ends_blank
ends_blank-append [] y ys = refl
ends_blank-append (x ∷ xs) y ys =
    ends_blank-cons x (xs ++ y ∷ ys) (positive xs y ys) ∙ ends_blank-append xs y ys

module _ (p : Primitives) (sha256-IsBytes : (s : Bytes) → IsBytes (p.sha256 s)) where
  ends_blank-tilde : (s : Bytes) → ends_blank (b'~' ∷ take 16 (digest p s)) ≡ false
  unfolding digest
  ends_blank-tilde s =
      tilde (take 16 (hex (p.sha256 s))) (ends_blank-hex 16 (p.sha256 s) (sha256-IsBytes s))

  shorten-IsPortable : (value out : Bytes) → IsLong out → IsPortable (shorten p value out)
  unfolding shorten digest
  shorten-IsPortable value out h = elim (Bool-cases (ltb 160 (length out))) [
    | inl t ↦
        let long : 160 < length out = ltb→lt 160 (length out) t in
        let tail = b'~' ∷ take 16 (digest p value) in
        let size : length (take 140 out ++ tail) ≡ length (take 140 out) + length tail =
          length-append (take 140 out) tail in
        let size_tail = length-take 16 (digest p value) in
        let size_out = length-take 140 out in
        rw t (record {
          some_name = omega arith;
          short = omega arith;
          allowed =
              All-append (λ c. is_allowed c ≡ true) (take 140 out) tail
                (take-Allowed 140 out h.named.chars)
                (
                  tilde-Allowed,
                  take-Allowed 16 (digest p value)
                      (hex-Allowed (p.sha256 value) (sha256-IsBytes value)),
                );
          ended =
              ends_blank-append (take 140 out) b'~' (take 16 (digest p value))
              ∙ ends_blank-tilde value;
          unreserved = elim (Bool-cases (reserved (to_uppercase (stem (take 140 out ++ tail))))) [
            | inr good ↦ good
            | inl bad ↦
                let few = reserved_short (to_uppercase (stem (take 140 out ++ tail))) bad in
                let upper = length-to_uppercase (stem (take 140 out ++ tail)) in
                let same = stem-take 140 out tail (omega arith) (omega arith) in
                absurd (
                  false-ne-true (
                    sym h.unreserved
                    ∙ ap (λ (x : Bytes). reserved (to_uppercase x)) (sym same)
                    ∙ bad))
          ];
        })
    | inr t ↦ rw t (record {
      some_name = h.named.one;
      short = ground arith;
      allowed = h.named.chars;
      ended = h.ended;
      unreserved = h.unreserved;
    })
  ]

  -- For every text of bytes, where SHA-256 gives bytes, a component is not empty, has at most 160
  -- characters, each a letter, a digit or one of `-_. ()[]%~`, does not end with a dot or a space
  -- (so it is neither "." nor ".."), and its part before the first dot is no device name in any case.
  pub component-IsPortable : (value : Bytes) → IsBytes value → IsPortable (component p value)
  unfolding component
  component-IsPortable value h =
      let out = undot (escape is_plain value) in
      let named = undot-IsName (escape is_plain value) (escape-Allowed value h) in
      shorten-IsPortable value (unreserve (escape_ends (length out + 1) out)) (
        unreserve-IsLong (escape_ends (length out + 1) out)
          (escape_ends-IsName (length out + 1) out named) (one_round (length out) out))

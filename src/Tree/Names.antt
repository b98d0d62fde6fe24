-- ===== src/Tree/Names.antt =====
-- What `component` of src/tree.rs gives for any text.
use moenotes_assets.Base.{
  ℕ, zero, suc, ◌/◌, ◌%◌, ◌≤◌, ◌<◌, Bool, true, false, ◌&&◌, ◌||◌, [], ◌∷◌, ◌≡◌, inl, inr, refl,
  ◌∙◌, arith, ◌==◌, length, All, Bool-cases,
}
use moenotes_assets.Base.Bytes.{Bytes, IsBytes}
use moenotes_assets.Base.Percent.{is_ascii_alphanumeric, escape, upper_digit}
use moenotes_assets.Tree.{
  mem, is_plain, undot, ends_blank, escape_end, escape_ends, stem, to_uppercase, reserved,
}

-- A letter, a digit or one of `-_. ()[]%~`.
unfoldable pub is_allowed : ℕ → Bool
unfolding is_plain is_ascii_alphanumeric mem
is_allowed c = is_plain c || c == b'%' || c == b'~'

abbrev pub Allowed : Bytes → Type 0
Allowed = All (λ c. is_allowed c ≡ true)

pub record IsPortable (name : Bytes) : Type 0 where
  pub some_name : 0 < length name
  pub short : length name ≤ 160
  pub allowed : Allowed name
  pub ended : ends_blank name ≡ false
  pub unreserved : reserved (to_uppercase (stem name)) ≡ false

digit-Allowed : (n : ℕ) → n < 16 → is_allowed (upper_digit n) ≡ true
unfolding is_allowed
digit-Allowed n h = ground arith

plain-Allowed : (b : ℕ) → is_plain b ≡ true → is_allowed b ≡ true
unfolding is_allowed
plain-Allowed b t = rw t refl

pub escape-Allowed : (s : Bytes) → IsBytes s → Allowed (escape is_plain s)
unfolding escape is_allowed
escape-Allowed [] h = tt
escape-Allowed (b ∷ s) (small, h) = elim (Bool-cases (is_plain b)) [
  | inl t ↦ rw t (plain-Allowed b t, escape-Allowed s h)
  | inr t ↦ rw t (
    refl,
    (
      digit-Allowed (b / 16) (omega arith),
      (digit-Allowed (b % 16) (omega arith), escape-Allowed s h),
    ),
  )
]

-- What the later steps keep: allowed characters, and at least one.
pub record IsName (out : Bytes) : Type 0 where
  pub chars : Allowed out
  pub one : 0 < length out

pub undot-IsName : (out : Bytes) → Allowed out → IsName (undot out)
unfolding undot is_allowed
undot-IsName [] h = record { chars = (refl, tt); one = omega arith }
undot-IsName (a ∷ []) h = elim (Bool-cases (a == b'.')) [
  | inl t ↦ rw t (record { chars = (refl, (refl, (refl, (refl, tt)))); one = omega arith })
  | inr t ↦ rw t (record { chars = h; one = omega arith })
]
undot-IsName (a ∷ b ∷ []) h = elim (Bool-cases (a == b'.' && b == b'.')) [
  | inl t ↦ rw t (record {
    chars = (refl, (refl, (refl, (refl, (refl, (refl, (refl, tt)))))));
    one = omega arith;
  })
  | inr t ↦ rw t (record { chars = h; one = omega arith })
]
undot-IsName (a ∷ b ∷ c ∷ rest) h = record { chars = h; one = omega arith }

escape_end-IsName : (out : Bytes) → IsName out → IsName (escape_end out)
unfolding escape_end is_allowed
escape_end-IsName [] h = h
escape_end-IsName (c ∷ []) h = elim (Bool-cases (c == b'.')) [
  | inl t ↦ rw t (record { chars = (refl, (refl, (refl, tt))); one = omega arith })
  | inr t ↦ rw t (record { chars = (refl, (refl, (refl, tt))); one = omega arith })
]
escape_end-IsName (c ∷ d ∷ cs) h =
    let rest = escape_end-IsName (d ∷ cs) (record { chars = h.chars.1; one = omega arith }) in
    record { chars = (h.chars.0, rest.chars); one = omega arith }

pub ends_blank-cons : (c : ℕ) (cs : Bytes) → 0 < length cs → ends_blank (c ∷ cs) ≡ ends_blank cs
unfolding ends_blank
ends_blank-cons c [] h = absurd (omega arith)
ends_blank-cons c (d ∷ cs) h = refl

escape_end-pos : (d : ℕ) (cs : Bytes) → 0 < length (escape_end (d ∷ cs))
unfolding escape_end
escape_end-pos d [] = elim (Bool-cases (d == b'.')) [
  | inl t ↦ rw t (omega arith)
  | inr t ↦ rw t (omega arith)
]
escape_end-pos d (c ∷ cs) = omega arith

ends_blank-escape_end : (out : Bytes) → ends_blank (escape_end out) ≡ false
unfolding ends_blank escape_end
ends_blank-escape_end [] = refl
ends_blank-escape_end (c ∷ []) = elim (Bool-cases (c == b'.')) [
  | inl t ↦ rw t refl
  | inr t ↦ rw t refl
]
ends_blank-escape_end (c ∷ d ∷ cs) =
    ends_blank-cons c (escape_end (d ∷ cs)) (escape_end-pos d cs) ∙ ends_blank-escape_end (d ∷ cs)

pub escape_ends-IsName : (f : ℕ) (out : Bytes) → IsName out → IsName (escape_ends f out)
unfolding escape_ends
escape_ends-IsName zero out h = h
escape_ends-IsName (suc f) out h = elim (Bool-cases (ends_blank out)) [
  | inl t ↦ rw t (escape_ends-IsName f (escape_end out) (escape_end-IsName out h))
  | inr t ↦ rw t h
]

settled : (f : ℕ) (out : Bytes) → ends_blank out ≡ false → ends_blank (escape_ends f out) ≡ false
unfolding escape_ends
settled zero out t = t
settled (suc f) out t = rw t t

-- One round is enough.
pub ends_blank-escape_ends : (f : ℕ) (out : Bytes) → ends_blank (escape_ends (suc f) out) ≡ false
unfolding escape_ends
ends_blank-escape_ends f out = elim (Bool-cases (ends_blank out)) [
  | inl t ↦ rw t (settled f (escape_end out) (ends_blank-escape_end out))
  | inr t ↦ rw t t
]

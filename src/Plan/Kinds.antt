-- ===== src/Plan/Kinds.antt =====
-- What src/plan.rs takes for a remote location, and for CRI media.
use moenotes_assets.Base.{
  Bool, true, false, not, ◌&&◌, ◌||◌, [], ◌∷◌, ◌++◌, ◌≡◌, ◌≢◌, ◌↔◌, ◌⊎◌, inl, inr, refl, sym, ap,
  ◌∙◌, arith, ◌==◌, ==_iff, Bool-cases, and_split,
}
use mathlib.Core.Path.{ap₂}
use moenotes_assets.Base.Bytes.{Bytes, codes, equal, equal_iff, starts_with}
use moenotes_assets.Catalog.{Location, cri}
use moenotes_assets.Plan.{remote, is_cri}

abbrev pub HasPrefix : Bytes → Bytes → Type 0
HasPrefix prefix s = (rest : Bytes) × (s ≡ prefix ++ rest)

starts_with-HasPrefix : (s prefix : Bytes) → starts_with s prefix ≡ true → HasPrefix prefix s
unfolding starts_with
starts_with-HasPrefix s [] h = (s, refl)
starts_with-HasPrefix [] (y ∷ ys) h = cc
starts_with-HasPrefix (x ∷ xs) (y ∷ ys) h =
    let (a, b) = and_split (x == y) _ h in
    let (rest, e) = starts_with-HasPrefix xs ys b in
    (rest, ap₂ (λ c cs. c ∷ cs) ((==_iff x y).0 a) e)

starts_with-append : (prefix rest : Bytes) → starts_with (prefix ++ rest) prefix ≡ true
unfolding starts_with
starts_with-append [] rest = refl
starts_with-append (x ∷ xs) rest = rw ((==_iff x x).1 refl) (starts_with-append xs rest)

prefix_iff : (s prefix : Bytes) → (starts_with s prefix ≡ true) ↔ HasPrefix prefix s
prefix_iff s prefix = (
  starts_with-HasPrefix s prefix,
  (λ h. ap (λ (x : Bytes). starts_with x prefix) h.1 ∙ starts_with-append prefix h.0),
)

left_true : (a b : Bool) → a ≡ true → (a || b) ≡ true
left_true a b h = ground arith

right_true : (a b : Bool) → b ≡ true → (a || b) ≡ true
right_true a b h = ground arith

either_iff :
    {P Q : Type 0} (a b : Bool) → (a ≡ true) ↔ P → (b ≡ true) ↔ Q → ((a || b) ≡ true) ↔ (P ⊎ Q)
either_iff a b p q = (
  (λ h. elim (Bool-cases a) [ inl e ↦ inl (p.0 e) | inr e ↦ inr (q.0 (rw e at h)) ]),
  (λ h. elim h [ inl x ↦ left_true a b (p.1 x) | inr y ↦ right_true a b (q.1 y) ]),
)

-- The internal id is an HTTP URL.
abbrev pub IsRemote : Location → Type 0
IsRemote l = HasPrefix (codes "https://") l.internal ⊎ HasPrefix (codes "http://") l.internal

pub remote_iff : (l : Location) → (remote l ≡ true) ↔ IsRemote l
unfolding remote
remote_iff l =
    either_iff (starts_with l.internal (codes "https://"))
      (starts_with l.internal (codes "http://")) (prefix_iff l.internal (codes "https://"))
      (prefix_iff l.internal (codes "http://"))

-- Media of CRI: of its provider, or of one of its types.
abbrev pub IsCri : Location → Type 0
IsCri l = (l.provider ≡ cri) ⊎ HasPrefix (codes "CriWare.") l.resource_type

is_cri_iff : (l : Location) → (is_cri l ≡ true) ↔ IsCri l
unfolding is_cri
is_cri_iff l =
    either_iff (equal l.provider cri) (starts_with l.resource_type (codes "CriWare."))
      (equal_iff l.provider cri) (prefix_iff l.resource_type (codes "CriWare."))

true-ne-false : ◌≢◌ {A = Bool} true false
true-ne-false h = cc

pub local_iff : (l : Location) → (remote l ≡ false) ↔ (IsRemote l → ⊥)
local_iff l = (
  (λ h r. true-ne-false (sym ((remote_iff l).1 r) ∙ h)),
  (λ h. elim (Bool-cases (remote l)) [ inl e ↦ absurd (h ((remote_iff l).0 e)) | inr e ↦ e ]),
)

-- CRI media that is not archived.
abbrev pub IsMedia : Location → Bool → Type 0
IsMedia l archive = IsCri l × (archive ≡ false)

pub media_true :
    (l : Location) (archive : Bool) → IsMedia l archive → (is_cri l && not archive) ≡ true
media_true l archive h = rw ((is_cri_iff l).1 h.0, h.1) refl

pub media_false :
    (l : Location) (archive : Bool) → (IsMedia l archive → ⊥) → (is_cri l && not archive) ≡ false
media_false l archive h = elim (Bool-cases (is_cri l && not archive)) [
  | inr e ↦ e
  | inl e ↦ let (a, b) = and_split (is_cri l) _ e in absurd (h ((is_cri_iff l).0 a, ground arith))
]

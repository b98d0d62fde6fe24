-- ===== src/Plan/Fonts.antt =====
-- When `Plan::build` of src/plan.rs takes a key for a font.
use mathlib.Core.List.{Memᴰ}
use mathlib.Core.List.Memᴰ
use moenotes_assets.Base.{
  ℕ, Bool, true, false, ◌||◌, some, List, [], ◌∷◌, ◌≡◌, ◌≢◌, ◌↔◌, ◌⊎◌, inl, inr, refl, arith,
  Bool-cases, Option-cases,
}
use moenotes_assets.Base.Bytes.{codes, equal, equal_iff}
use moenotes_assets.Catalog.{Location, Catalog, get}
use moenotes_assets.Plan.{is_font, names_font}

-- A font asset of TextMesh Pro, or a font of Unity.
abbrev pub IsFont : Location → Type 0
IsFont l =
    (l.resource_type ≡ codes "TMPro.TMP_FontAsset") ⊎ (l.resource_type ≡ codes "UnityEngine.Font")

-- One of the locations with these ids is a font.
pub record HasFont (c : Catalog) (ids : List ℕ) : Type 0 where
  pub id : ℕ
  pub font : Location
  pub listed : Memᴰ id ids
  pub found : get id c.locations ≡ some font
  pub is_one : IsFont font

either_true : (x y : Bool) → y ≡ true → (x || y) ≡ true
either_true x y h = ground arith

is_font_iff : (l : Location) → (is_font l ≡ true) ↔ IsFont l
unfolding is_font
is_font_iff l =
    let a = equal_iff l.resource_type (codes "TMPro.TMP_FontAsset") in
    let b = equal_iff l.resource_type (codes "UnityEngine.Font") in
    (
      (λ h. elim (Bool-cases (equal l.resource_type (codes "TMPro.TMP_FontAsset"))) [
        | inl e ↦ inl (a.0 e)
        | inr e ↦ inr (b.0 (rw e at h))
      ]),
      (λ h. elim h [ inl e ↦ rw (a.1 e) refl | inr e ↦ either_true _ _ (b.1 e) ]),
    )

false-ne-true : ◌≢◌ {A = Bool} false true
false-ne-true h = cc

weaken : (c : Catalog) (id : ℕ) (ids : List ℕ) → HasFont c ids → HasFont c (id ∷ ids)
weaken c id ids h = record {
  id = h.id;
  font = h.font;
  listed = Memᴰ.tail h.listed;
  found = h.found;
  is_one = h.is_one;
}

names_font-HasFont : (c : Catalog) (ids : List ℕ) → names_font c ids ≡ true → HasFont c ids
unfolding names_font
names_font-HasFont c [] h = absurd (false-ne-true h)
names_font-HasFont c (id ∷ ids) h = elim (Option-cases (get id c.locations)) [
  | inl e ↦ weaken c id ids (names_font-HasFont c ids (rw (names_font, e) at h))
  | inr (l, e) ↦ elim (Bool-cases (is_font l)) [
    | inl f ↦ record {
      id = id;
      font = l;
      listed = Memᴰ.head refl;
      found = e;
      is_one = (is_font_iff l).0 f;
    }
    | inr f ↦ weaken c id ids (names_font-HasFont c ids (rw (names_font, e, f) at h))
  ]
]

names_font_at :
    (c : Catalog) (id : ℕ) (ids : List ℕ) (l : Location)
    → Memᴰ id ids
    → get id c.locations ≡ some l
    → is_font l ≡ true
    → names_font c ids ≡ true
unfolding names_font
names_font_at c id [] l m e f = absurd (Memᴰ.not-nil m)
names_font_at c id (x ∷ ids) l m e f = elim (Memᴰ.cases_cons m) [
  | inl same ↦ rw (names_font, ← same, e, f) refl
  | inr n ↦ either_true _ _ (names_font_at c id ids l n e f)
]

-- The rule for fonts: one of the locations that the key names is a font.
pub names_font_iff : (c : Catalog) (ids : List ℕ) → (names_font c ids ≡ true) ↔ HasFont c ids
names_font_iff c ids = (
  names_font-HasFont c ids,
  (λ h. names_font_at c h.id ids h.font h.listed h.found ((is_font_iff h.font).1 h.is_one)),
)

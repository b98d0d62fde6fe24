-- ===== src/Catalog/Parse/Rounds.antt =====
-- The loop of `Catalog::parse` in src/catalog.rs over what is pending.
use mathlib.Core.Path.{subst}
use moenotes_assets.Base.{
  ℕ, zero, suc, ◌+◌, true, some, List, [], ◌∷◌, ◌≡◌, ◌⊎◌, inl, inr, refl, sym, ap, ◌∙◌, arith, leb,
  ltb, ◌==◌, length, Bool-cases, Option-cases, ℕ_discrete,
}
use moenotes_assets.Base.Outcome.{ok, >>=-eq-ok, ensure-eq-ok, ok_injective, Result-cases}
use moenotes_assets.Base.Bytes.{Bytes}
use mathlib.Core.Option.{some_inj, none-ne-some}
use mathlib.Core.List.{Memᴰ}
use mathlib.Core.List.Memᴰ
use moenotes_assets.Catalog.{Location, Locations, get, is_some}
use moenotes_assets.Catalog.Reader.{location}
use moenotes_assets.Catalog.Parse.{
  Found, add, extend, missing, enter, locations_loop, size_of, materialization,
}

abbrev pub Located : Locations → ℕ → Type 0
Located ls i = (l : Location) × (get i ls ≡ some l)

add_new : (n : ℕ) (set : List ℕ) → Memᴰ n (add n set)
unfolding add
add_new n [] = Memᴰ.head refl
add_new n (x ∷ xs) = elim (Bool-cases (ltb n x)) [
  | inl t ↦ rw t (Memᴰ.head refl)
  | inr f ↦ elim (Bool-cases (n == x)) [
    | inl e ↦ rw (f, e) (Memᴰ.head (ground arith))
    | inr e ↦ rw (f, e) (Memᴰ.tail (add_new n xs))
  ]
]

add_old : (m n : ℕ) (set : List ℕ) → Memᴰ m set → Memᴰ m (add n set)
unfolding add
add_old m n [] h = absurd (Memᴰ.not-nil h)
add_old m n (x ∷ xs) h = elim (Bool-cases (ltb n x)) [
  | inl t ↦ rw t (Memᴰ.tail h)
  | inr f ↦ elim (Bool-cases (n == x)) [
    | inl e ↦ rw (f, e) h
    | inr e ↦
        rw (f, e)
          (elim (Memᴰ.cases_cons h) [ inl q ↦ Memᴰ.head q | inr t ↦ Memᴰ.tail (add_old m n xs t) ])
  ]
]

pub extend_old : (m : ℕ) (ns set : List ℕ) → Memᴰ m set → Memᴰ m (extend ns set)
unfolding extend
extend_old m [] set h = h
extend_old m (n ∷ ns) set h = extend_old m ns (add n set) (add_old m n set h)

pub extend_new : (m : ℕ) (ns set : List ℕ) → Memᴰ m ns → Memᴰ m (extend ns set)
unfolding extend
extend_new m [] set h = absurd (Memᴰ.not-nil h)
extend_new m (n ∷ ns) set h = elim (Memᴰ.cases_cons h) [
  | inl e ↦ extend_old m ns (add n set) (subst (λ (x : ℕ). Memᴰ m (add x set)) e (add_new m set))
  | inr t ↦ extend_new m ns (add n set) t
]

missing-or :
    (ls : Locations) (ds : List ℕ) (d : ℕ) → Memᴰ d ds → Located ls d ⊎ Memᴰ d (missing ls ds)
missing-or ls [] d h = absurd (Memᴰ.not-nil h)
missing-or ls (x ∷ ds) d h = elim (Memᴰ.cases_cons h) [
  | inl e ↦ elim (Option-cases (get x ls)) [
    | inl n ↦ inr (rw n (Memᴰ.head e))
    | inr (l, g) ↦ inl (l, ap (λ i. get i ls) e ∙ g)
  ]
  | inr t ↦ elim (missing-or ls ds d t) [
    | inl l ↦ inl l
    | inr m ↦
        inr (elim (Bool-cases (is_some (get x ls))) [ inl s ↦ rw s m | inr s ↦ rw s (Memᴰ.tail m) ])
  ]
]

get_more : (ls : Locations) (i : ℕ) (l : Location) (x : ℕ) → Located ls x → Located ((i, l) ∷ ls) x
unfolding get
get_more ls i l x (y, g) = elim (Bool-cases (i == x)) [
  | inl e ↦ (l, rw e refl)
  | inr e ↦ (y, rw e g)
]

get_cases :
    (ls : Locations) (i : ℕ) (l : Location) (x : ℕ) (y : Location)
    → get x ((i, l) ∷ ls) ≡ some y
    → ((i ≡ x) × (l ≡ y)) ⊎ (get x ls ≡ some y)
unfolding get
get_cases ls i l x y h = elim (ℕ_discrete i x) [
  | yes e ↦ inl (e, ground arith)
  | no ne ↦ inr (ground arith)
]

-- Every dependency of a location is located, or pending.
abbrev pub Follows : List ℕ → Locations → Type 0
Follows pending ls =
    (i : ℕ) (l : Location)
    → get i ls ≡ some l
    → (d : ℕ) → Memᴰ d l.dependencies
    → Located ls d ⊎ Memᴰ d pending

-- What was located or pending still is.
abbrev pub Covers : List ℕ → Locations → List ℕ → Locations → Type 0
Covers pending ls pending' ls' =
    (x : ℕ) → Located ls x ⊎ Memᴰ x pending → Located ls' x ⊎ Memᴰ x pending'

new-Covers :
    (id : ℕ) (pending more : List ℕ) (ls : Locations) (l : Location)
    → Covers (id ∷ pending) ls (extend more pending) ((id, l) ∷ ls)
unfolding get
new-Covers id pending more ls l x (inl g) = inl (get_more ls id l x g)
new-Covers id pending more ls l x (inr m) = elim (Memᴰ.cases_cons m) [
  | inl e ↦ let same : (id == x) ≡ true = ground arith in inl (l, rw same refl)
  | inr t ↦ inr (extend_old x more pending t)
]

new-Follows :
    (id : ℕ) (pending : List ℕ) (ls : Locations) (l : Location)
    → Follows (id ∷ pending) ls
    → Follows (extend (missing ls l.dependencies) pending) ((id, l) ∷ ls)
new-Follows id pending ls l f i y g d m =
    let covers = new-Covers id pending (missing ls l.dependencies) ls l in
    elim (get_cases ls id l i y g) [
      | inl (e, same) ↦
          elim (missing-or ls l.dependencies d
            (subst (λ (z : Location). Memᴰ d z.dependencies) (sym same) m)) [
              | inl there ↦ covers d (inl there)
              | inr lacks ↦ inr (extend_new d (missing ls l.dependencies) pending lacks)
            ]
      | inr old ↦ covers d (f i y old d m)
    ]

old-Covers :
    (id : ℕ) (pending : List ℕ) (ls : Locations)
    → Located ls id
    → Covers (id ∷ pending) ls pending ls
old-Covers id pending ls here x (inl g) = inl g
old-Covers id pending ls here x (inr m) = elim (Memᴰ.cases_cons m) [
  | inl e ↦ inl (subst (Located ls) (sym e) here)
  | inr t ↦ inr t
]

-- One round keeps both.
pub record IsKept (pending : List ℕ) (s : Found) (pending' : List ℕ) (t : Found) : Type 0 where
  pub follows : Follows pending s.locations → Follows pending' t.locations
  pub covers : Covers pending s.locations pending' t.locations

entered-IsKept :
    (id : ℕ) (pending : List ℕ) (s t : Found) (l : Location)
    → t.pending ≡ extend (missing s.locations l.dependencies) pending
    → t.locations ≡ (id, l) ∷ s.locations
    → IsKept (id ∷ pending) s t.pending t
entered-IsKept id pending s t l p ls = record {
  follows = λ f. rw (p, ls) (new-Follows id pending s.locations l f);
  covers = rw (p, ls) (new-Covers id pending (missing s.locations l.dependencies) s.locations l);
}

enter-IsKept :
    (d : Bytes) (id : ℕ) (pending : List ℕ) (s : Found) {t : Found}
    → enter d id pending s ≡ ok t
    → IsKept (id ∷ pending) s t.pending t
unfolding enter
enter-IsKept d id pending s h = elim (Bool-cases (is_some (get id s.locations))) [
  | inl there ↦
      let same = ok_injective {a = record s { pending = pending }} (rw (enter, there) at h) in
      let here : Located s.locations id = elim (Option-cases (get id s.locations)) [
        | inl n ↦ absurd (ground arith)
        | inr found ↦ found
      ] in
      let covers = old-Covers id pending s.locations here in
      subst (λ (x : Found). IsKept (id ∷ pending) s x.pending x) same
        (record { follows = λ f i l g e m. covers e (f i l g e m); covers = covers })
  | inr lacks ↦
      let (room, h₁) =
        ensure-eq-ok (ltb (length s.locations) 200_000) _ _ (rw (enter, lacks) at h) in
      let ((l, r), found, h₂) = >>=-eq-ok (location d id s.reader) _ h₁ in
      let (budget, h₃) = ensure-eq-ok (leb (s.materialized + size_of l) materialization) _ _ h₂ in
      let (limit, h₄) = ensure-eq-ok (leb (s.edges + length l.dependencies) 1_000_000) _ _ h₃ in
      let same = ok_injective h₄ in
      subst (λ (x : Found). IsKept (id ∷ pending) s x.pending x) same
        (entered-IsKept id pending s _ l refl refl)
]

pub loop-IsKept :
    (fuel : ℕ) (d : Bytes) (pending : List ℕ) (s : Found) {t : Found}
    → locations_loop fuel d pending s ≡ some (ok t)
    → IsKept pending s [] t
unfolding locations_loop
loop-IsKept fuel d [] s {t} h =
    let same : s ≡ t = ok_injective (some_inj.0 h) in
    subst (λ (x : Found). IsKept [] s [] x) same (record { follows = λ f. f; covers = λ x m. m })
loop-IsKept zero d (id ∷ pending) s h = absurd (none-ne-some _ h)
loop-IsKept (suc fuel) d (id ∷ pending) s {t} h = elim (Result-cases (enter d id pending s)) [
  | inr (e, v) ↦ absurd (ground arith)
  | inl (u, v) ↦
      let rest : locations_loop fuel d u.pending u ≡ some (ok t) = rw (locations_loop, v) at h in
      let first = enter-IsKept d id pending s v in
      let then' = loop-IsKept fuel d u.pending u rest in
      record {
        follows = λ f. then'.follows (first.follows f);
        covers = λ x m. then'.covers x (first.covers x m);
      }
]

-- ===== src/Catalog/Progress.antt =====
-- The rounds of `closure_from` in src/catalog.rs: what holds of the stack, of what was seen and of
-- the result.
use mathlib.Core.Path.{subst}
use moenotes_assets.Base.{
  ℕ, true, false, some, List, [], ◌∷◌, ◌++◌, ◌≡◌, ◌⊎◌, inl, inr, refl, sym, ap, ◌∙◌, arith,
  Bool-cases, ℕ_discrete,
}
use moenotes_assets.Base.Outcome.{ok}
use moenotes_assets.Catalog.{
  Location, Locations, get, contains, is_some, pushed, supported, collected, visit,
}
use moenotes_assets.Catalog.Closure.{visit-ok}
use mathlib.Core.List.{Memᴰ}
use mathlib.Core.List.Memᴰ

-- `to` is `from` or a direct or indirect dependency of it.
pub data Reaches (ls : Locations) (from : ℕ) : ℕ → Type 0 where
  start : Reaches ls from from
  onward :
      {i d : ℕ} {l : Location}
      → Reaches ls from i
      → get i ls ≡ some l
      → Memᴰ d l.dependencies
      → Reaches ls from d

mem_of_contains : (n : ℕ) (xs : List ℕ) → contains n xs ≡ true → Memᴰ n xs
unfolding contains
mem_of_contains n [] h = absurd (ground arith)
mem_of_contains n (x ∷ xs) h = elim (ℕ_discrete n x) [
  | yes e ↦ Memᴰ.head e
  | no ne ↦ Memᴰ.tail (mem_of_contains n xs (ground arith))
]

pushed_sound : (i : ℕ) (ds todo : List ℕ) → Memᴰ i (pushed ds todo) → Memᴰ i ds ⊎ Memᴰ i todo
unfolding pushed
pushed_sound i [] todo m = inr m
pushed_sound i (d ∷ ds) todo m = elim (pushed_sound i ds (d ∷ todo) m) [
  | inl a ↦ inl (Memᴰ.tail a)
  | inr b ↦ elim (Memᴰ.cases_cons b) [ inl e ↦ inl (Memᴰ.head e) | inr t ↦ inr t ]
]

pushed_old : (i : ℕ) (ds todo : List ℕ) → Memᴰ i todo → Memᴰ i (pushed ds todo)
unfolding pushed
pushed_old i [] todo m = m
pushed_old i (d ∷ ds) todo m = pushed_old i ds (d ∷ todo) (Memᴰ.tail m)

pushed_new : (i : ℕ) (ds todo : List ℕ) → Memᴰ i ds → Memᴰ i (pushed ds todo)
unfolding pushed
pushed_new i [] todo m = absurd (Memᴰ.not-nil m)
pushed_new i (d ∷ ds) todo m = elim (Memᴰ.cases_cons m) [
  | inl e ↦ pushed_old i ds (d ∷ todo) (Memᴰ.head e)
  | inr t ↦ pushed_new i ds (d ∷ todo) t
]

module _ (ls : Locations) (from : ℕ) where
  abbrev pub Sound : Location → Type 0
  Sound l =
      (i : ℕ) × Reaches ls from i
      × (get i ls ≡ some l)
      × (is_some l.options ≡ true)
      × (supported l ≡ true)

  -- A location that was seen: its dependencies are seen or to be done.
  abbrev pub Entered : List ℕ → List ℕ → List Location → ℕ → Type 0
  Entered todo seen out i =
      (l : Location) × (get i ls ≡ some l)
      × (is_some l.options ≡ true → Memᴰ l out)
      × ((d : ℕ) → Memᴰ d l.dependencies → Memᴰ d seen ⊎ Memᴰ d todo)

  pub record IsProgress (todo seen : List ℕ) (out : List Location) : Type 0 where
    pub planned : (i : ℕ) → Memᴰ i todo → Reaches ls from i
    pub found : (l : Location) → Memᴰ l out → Sound l
    pub entered : (i : ℕ) → Memᴰ i seen → Entered todo seen out i
    pub origin : Memᴰ from seen ⊎ Memᴰ from todo

  collected-ok :
      (l : Location) (out more : List Location)
      → collected l out ≡ ok more
      → ((is_some l.options ≡ true) × (supported l ≡ true) × (more ≡ out ++ l ∷ []))
        ⊎ ((is_some l.options ≡ false) × (more ≡ out))
  unfolding collected
  collected-ok l out more h = elim (Bool-cases (is_some l.options)) [
    | inl t ↦ inl (t, ground arith, ground arith)
    | inr f ↦ inr (f, ground arith)
  ]

  skipped :
      (id : ℕ) (todo seen : List ℕ)
      → Memᴰ id seen
      → (d : ℕ) → Memᴰ d seen ⊎ Memᴰ d (id ∷ todo)
      → Memᴰ d seen ⊎ Memᴰ d todo
  skipped id todo seen old d (inl m) = inl m
  skipped id todo seen old d (inr m) = elim (Memᴰ.cases_cons m) [
    | inl e ↦ inl (Memᴰ.cast e old)
    | inr t ↦ inr t
  ]

  moved :
      (id : ℕ) (ds todo seen : List ℕ) (d : ℕ)
      → Memᴰ d seen ⊎ Memᴰ d (id ∷ todo)
      → Memᴰ d (id ∷ seen) ⊎ Memᴰ d (pushed ds todo)
  moved id ds todo seen d (inl m) = inl (Memᴰ.tail m)
  moved id ds todo seen d (inr m) = elim (Memᴰ.cases_cons m) [
    | inl e ↦ inl (Memᴰ.head e)
    | inr t ↦ inr (pushed_old d ds todo t)
  ]

  -- What `collected` does to the members.
  record IsExtension (l : Location) (out more : List Location) : Type 0 where
    new :
        (x : Location)
        → Memᴰ x more
        → Memᴰ x out ⊎ ((x ≡ l) × (is_some l.options ≡ true) × (supported l ≡ true))
    kept : (x : Location) → Memᴰ x out → Memᴰ x more
    listed : is_some l.options ≡ true → Memᴰ l more

  collected-IsExtension :
      (l : Location) (out more : List Location) → collected l out ≡ ok more → IsExtension l out more
  collected-IsExtension l out more c = elim (collected-ok l out more c) [
    | inl (o, s, e) ↦ rw e (record {
      new = λ x m. elim (Memᴰ.append_cases out m) [
        | inl old ↦ inl old
        | inr one ↦ inr (Memᴰ.eq_of_singleton one, o, s)
      ];
      kept = λ x m. Memᴰ.append_left (l ∷ []) m;
      listed = λ o'. Memᴰ.append_right out (Memᴰ.head refl);
    })
    | inr (n, e) ↦ rw e (record { new = λ x m. inl m; kept = λ x m. m; listed = λ o. absurd (cc) })
  ]

  entered-IsProgress :
      (id : ℕ) (l : Location) (todo seen : List ℕ) (out more : List Location)
      → IsProgress (id ∷ todo) seen out
      → get id ls ≡ some l
      → IsExtension l out more
      → IsProgress (pushed l.dependencies todo) (id ∷ seen) more
  entered-IsProgress id l todo seen out more p g x =
      let here = p.planned id (Memᴰ.head refl) in
      let known = moved id l.dependencies todo seen in
      record {
        planned = λ i m. elim (pushed_sound i l.dependencies todo m) [
          | inl n ↦ onward here g n
          | inr o ↦ p.planned i (Memᴰ.tail o)
        ];
        found = λ y m. elim (x.new y m) [
          | inl old ↦ p.found y old
          | inr (e, o, s) ↦ subst Sound (sym e) (id, here, g, o, s)
        ];
        entered = λ i m. elim (Memᴰ.cases_cons m) [
          | inl e ↦ (
            l,
            ap (λ n. get n ls) e ∙ g,
            x.listed,
            λ d n. inr (pushed_new d l.dependencies todo n),
          )
          | inr t ↦
              let (y, gy, o, ds) = p.entered i t in
              (y, gy, λ s. x.kept y (o s), λ d n. known d (ds d n))
        ];
        origin = known from p.origin;
      }

  pub visit-IsProgress :
      (id : ℕ) (todo seen : List ℕ) (out : List Location) {todo' seen' : List ℕ}
      {out' : List Location}
      → IsProgress (id ∷ todo) seen out
      → visit ls id todo seen out ≡ ok (todo', seen', out')
      → IsProgress todo' seen' out'
  visit-IsProgress id todo seen out {todo'} {seen'} {out'} p v =
      elim (visit-ok ls id todo seen out v) [
        | inl (t, a, b, c) ↦
            let old = mem_of_contains id seen t in
            let known : (d : ℕ) → Memᴰ d seen ⊎ Memᴰ d (id ∷ todo) → Memᴰ d seen ⊎ Memᴰ d todo =
              skipped id todo seen old in
            rw (a, b, c)
              (record {
                planned = λ i m. p.planned i (Memᴰ.tail m);
                found = p.found;
                entered =
                    λ i m. let (l, g, o, ds) = p.entered i m in (l, g, o, λ d n. known d (ds d n));
                origin = known from p.origin;
              })
        | inr (l, f, g, c, a, b) ↦
            rw (a, b)
              (entered-IsProgress id l todo seen out out' p g (collected-IsExtension l out out' c))
      ]

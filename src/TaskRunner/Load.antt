-- ===== src/TaskRunner/Load.antt =====
-- The keys that a runner of src/task_runner.rs carries: in its results, at work and to come.
use mathlib.Core.Option.{some_inj, none-ne-some}
use mathlib.Core.Path.{subst}
use moenotes_assets.Base.{
  ℕ, zero, suc, ◌+◌, Bool, true, false, ◌||◌, some, List, [], ◌∷◌, ◌++◌, map, ◌≡◌, ◌⊎◌, inl, inr,
  refl, sym, ap, ◌∙◌, arith, Option-cases, Option,
}
use moenotes_assets.Base.Bytes.{Bytes}
use moenotes_assets.TaskRunner.{
  ItemResult, Outcome, Event, Runner, cancel, joined, returned, interrupted, terminated,
  failed_item, start, fill, item, persistence_failed, record_item, remove_at, step, finish, loop,
  begin,
}

-- The weights of the members, summed up
unfoldable pub weigh : (Bytes → ℕ) → List Bytes → ℕ
weigh w [] = 0
weigh w (k ∷ ks) = w k + weigh w ks

abbrev pub keys_of : List ItemResult → List Bytes
keys_of = map (λ (r : ItemResult). r.key)

List-cases {ℓ} : {A : Type ℓ} (xs : List A) → (xs ≡ []) ⊎ ((x : A) × (ys : List A) × (xs ≡ x ∷ ys))
List-cases [] = inl refl
List-cases (x ∷ xs) = inr (x, xs, refl)

module _ (w : Bytes → ℕ) where
  weigh-append : (xs ys : List Bytes) → weigh w (xs ++ ys) ≡ weigh w xs + weigh w ys
  unfolding weigh
  weigh-append [] ys = omega arith
  weigh-append (x ∷ xs) ys = omega (arith, weigh-append xs ys)

  keys_of-append :
      (rs : List ItemResult) (r : ItemResult)
      → weigh w (keys_of (rs ++ r ∷ [])) ≡ weigh w (keys_of rs) + w r.key
  unfolding weigh
  keys_of-append [] r = omega arith
  keys_of-append (x ∷ rs) r = omega (arith, keys_of-append rs r)

  keys_of-failed :
      (rs : List ItemResult) (ks : List Bytes)
      → weigh w (keys_of (rs ++ map (λ key. failed_item key "cancelled") ks))
        ≡ weigh w (keys_of rs) + weigh w ks
  unfolding weigh failed_item
  keys_of-failed [] [] = omega arith
  keys_of-failed [] (k ∷ ks) = omega (arith, keys_of-failed [] ks)
  keys_of-failed (r ∷ rs) ks = omega (arith, keys_of-failed rs ks)

  start-weigh :
      (cancels : ℕ → Bool) (concurrency n : ℕ) (token : Bool) (pending active : List Bytes)
      → weigh w (start cancels concurrency n token pending active).0
          + weigh w (start cancels concurrency n token pending active).1.0
        ≡ weigh w pending + weigh w active
  unfolding start weigh
  start-weigh cancels c n t [] active = refl
  start-weigh cancels c n t (key ∷ pending) active =
      let rest = start-weigh cancels c (n + 1) (t || cancels n) pending (active ++ key ∷ []) in
      let more = weigh-append active (key ∷ []) in ground arith

  remove_at-weigh :
      (n : ℕ) (ks rest : List Bytes) {key : Bytes}
      → remove_at n ks ≡ some (key, rest)
      → w key + weigh w rest ≡ weigh w ks
  unfolding remove_at weigh
  remove_at-weigh n [] rest h = absurd (ground arith)
  remove_at-weigh zero (k ∷ ks) rest {key} h =
      let a : k ≡ key = ground arith in let b : ks ≡ rest = ground arith in rw (a, b) refl
  remove_at-weigh (suc n) (k ∷ ks) rest {key} h = elim (Option-cases (remove_at n ks)) [
    | inl e ↦ absurd (ground arith)
    | inr ((x, more), e) ↦
        let a : x ≡ key = ground arith in
        let b : (k ∷ more) ≡ rest = ground arith in
        let r = remove_at-weigh n ks more e in rw (← a, ← b) (omega arith)
  ]

  -- What a runner has in its results, at work and to come
  unfoldable pub load : Runner → ℕ
  load s = weigh w (keys_of s.results) + (weigh w s.active + weigh w s.pending)

  fill-load : (c : ℕ) (s : Runner) → load (fill c s) ≡ load s
  unfolding fill load
  fill-load c s = let e = start-weigh s.cancels c 0 s.token s.pending s.active in omega arith

  record_item-load :
      (r : ItemResult) (saved : Bool) (s : Runner) → load (record_item r saved s) ≡ load s + w r.key
  unfolding record_item load persistence_failed
  record_item-load r saved s = let e = keys_of-append s.results r in ground arith

  module _ (execute : Bytes → ℕ → ItemResult)
      (named : (key : Bytes) (n : ℕ) → (execute key n).key ≡ key) where
    item-key :
        (token : Bool) (key : Bytes) (o : Outcome) {r : ItemResult}
        → item execute token key o ≡ some r
        → r.key ≡ key
    unfolding item failed_item
    item-key token key (returned n) {r} h =
        let e : execute key n ≡ r = ground arith in
        ap (λ (x : ItemResult). x.key) (sym e) ∙ named key n
    item-key true key interrupted h = ground arith
    item-key false key interrupted h = absurd (ground arith)
    item-key token key terminated h = ground arith

    step-load : (e : Event) (s : Runner) {t : Runner} → step execute e s ≡ some t → load t ≡ load s
    unfolding step load
    step-load cancel s h = subst (λ (x : Runner). load x ≡ load s) (some_inj.0 h) refl
    step-load (joined n o saved cancels) s {t} h = elim (Option-cases (remove_at n s.active)) [
      | inl e ↦ absurd (ground arith)
      | inr ((key, rest), e) ↦ elim (Option-cases (item execute s.token key o)) [
        | inl f ↦ absurd (ground arith)
        | inr (r, f) ↦
            let q = record_item r saved (record s { active = rest }) in
            let same : some (record q { cancels = cancels }) ≡ some t = rw (step, e, f) at h in
            let grown = record_item-load r saved (record s { active = rest }) in
            let weight = ap w (item-key s.token key o f) in
            let parts = remove_at-weigh n s.active rest e in
            subst (λ (x : Runner). load x ≡ load s) (some_inj.0 same) (omega arith)
      ]
    ]

    finish-load : (s : Runner) → weigh w (keys_of (finish s).results) + weigh w s.active ≡ load s
    unfolding finish load
    finish-load s = let e = keys_of-failed s.results s.pending in omega arith

    -- The loop ends as soon as nothing is at work; else it takes an event.
    pub loop-cases :
        (c : ℕ) (e : Event) (es : List Event) (s : Runner) {t : Runner}
        → loop execute c (e ∷ es) s ≡ some t
        → (((fill c s).active ≡ []) × (finish (fill c s) ≡ t))
          ⊎ ((u : Runner) × (step execute e (fill c s) ≡ some u) × (loop execute c es u ≡ some t))
    unfolding loop
    loop-cases c e es s h = elim (List-cases (fill c s).active) [
      | inl a ↦ inl (a, some_inj.0 (rw (loop, a) at h))
      | inr (key, rest, a) ↦ elim (Option-cases (step execute e (fill c s))) [
        | inl n ↦ absurd (none-ne-some _ (rw (loop, a, n) at h))
        | inr (u, n) ↦ inr (u, n, rw (loop, a, n) at h)
      ]
    ]

    pub loop-last :
        (c : ℕ) (s : Runner) {t : Runner}
        → loop execute c [] s ≡ some t
        → ((fill c s).active ≡ []) × (finish (fill c s) ≡ t)
    unfolding loop
    loop-last c s h = elim (List-cases (fill c s).active) [
      | inl a ↦ (a, some_inj.0 (rw (loop, a) at h))
      | inr (key, rest, a) ↦ absurd (none-ne-some _ (rw (loop, a) at h))
    ]

    ended-load :
        (c : ℕ) (s : Runner) {t : Runner}
        → (fill c s).active ≡ []
        → finish (fill c s) ≡ t
        → weigh w (keys_of t.results) ≡ load s
    unfolding weigh
    ended-load c s a e =
        let all = finish-load (fill c s) in
        let none_left : weigh w (fill c s).active ≡ 0 = ap (weigh w) a in
        subst (λ (x : Runner). weigh w (keys_of x.results) ≡ load s) e
          (omega (arith, fill-load c s))

    pub loop-load :
        (c : ℕ) (es : List Event) (s : Runner) {t : Runner}
        → loop execute c es s ≡ some t
        → weigh w (keys_of t.results) ≡ load s
    loop-load c [] s h = let (a, e) = loop-last c s h in ended-load c s a e
    loop-load c (e ∷ es) s h = elim (loop-cases c e es s h) [
      | inl (a, f) ↦ ended-load c s a f
      | inr (u, n, rest) ↦ loop-load c es u rest ∙ step-load e (fill c s) n ∙ fill-load c s
    ]

  pub begin-load :
      (error : Option Bytes) (token : Bool) (cancels : ℕ → Bool) (keys : List Bytes)
      → load (begin error token cancels keys) ≡ weigh w keys
  unfolding load begin weigh
  begin-load error token cancels keys = omega arith

-- ===== src/Worker/Bank.antt =====
-- What a wave bank that src/worker.rs accepts is like.
use moenotes_assets.Base.{
  ℕ, zero, suc, ◌+◌, ◌≤◌, ◌<◌, Bool, true, false, not, ◌&&◌, List, [], ◌∷◌, ◌≡◌, ◌≢◌, ◌⊎◌, inl, inr,
  sym, arith, leb, ltb, ◌==◌, length, All, Bool-cases, ==_iff, ltb→lt,
}
use moenotes_assets.Base.Outcome.{ok, >>=-eq-ok, ensure-eq-ok, err-ne-ok}
use moenotes_assets.Base.Bytes.{Bytes, le}
use mathlib.Core.Path.{subst}
use mathlib.Core.List.{Memᴰ}
use mathlib.Core.List.Memᴰ
use moenotes_assets.Base.Outcome.{ok_injective}
use moenotes_assets.Base.{leb→le, and_split}
use moenotes_assets.SplitAcb.{ℤ, pos, negsuc}
use moenotes_assets.Worker.{slice}
use moenotes_assets.Worker.Waves.{
  has, ids_from, aligned, offsets_from, known, count_of, offset_size_of, id_size_of, alignment_of,
  offsets_at, table_end, check_awb_references,
}

-- The ids and the waves that the table names.
unfoldable pub ids_at : Bytes → ℕ → ℕ → ℕ → List ℕ
ids_at b size p zero = []
ids_at b size p (suc n) = le (slice b p size) ∷ ids_at b size (p + size) n

unfoldable pub waves_at : Bytes → ℕ → ℕ → ℕ → ℕ → List (ℕ × ℕ)
waves_at b alignment size p zero = []
waves_at b alignment size p (suc n) =
    (aligned alignment (le (slice b p size)), le (slice b (p + size) size))
    ∷ waves_at b alignment size (p + size) n

-- Waves between two places, one after the other, of a start and an end each.
unfoldable pub AreOrdered : ℕ → ℕ → List (ℕ × ℕ) → Type 0
AreOrdered from to [] = from ≤ to
AreOrdered from to ((start, end) ∷ rest) = (from ≤ start) × (start ≤ end) × AreOrdered end to rest

unfoldable pub NoneTwice : List ℕ → Type 0
NoneTwice [] = Unit {0}
NoneTwice (x ∷ xs) = All (λ y. y ≢ x) xs × NoneTwice xs

false-ne-true : ◌≢◌ {A = Bool} false true
false-ne-true h = cc

has-Memᴰ : (x : ℕ) (xs : List ℕ) → has x xs ≡ true → Memᴰ x xs
unfolding has
has-Memᴰ x [] h = absurd (false-ne-true h)
has-Memᴰ x (y ∷ xs) h = elim (Bool-cases (x == y)) [
  | inl e ↦ Memᴰ.head ((==_iff x y).0 e)
  | inr e ↦ Memᴰ.tail (has-Memᴰ x xs (rw e at h))
]

has-not : (x : ℕ) (xs : List ℕ) → not (has x xs) ≡ true → All (λ y. y ≢ x) xs
unfolding has
has-not x [] h = tt
has-not x (y ∷ xs) h = elim (Bool-cases (x == y)) [
  | inl e ↦ absurd (false-ne-true (rw e at h))
  | inr e ↦ ((λ same. absurd (ground (arith, e))), has-not x xs (rw e at h))
]

record AreRead (ids seen final : List ℕ) : Type 0 where
  once : NoneTwice ids
  apart : All (λ x. All (λ y. y ≢ x) seen) ids
  from_table : (x : ℕ) → Memᴰ x final → Memᴰ x seen ⊎ Memᴰ x ids

heads_apart :
    (k : ℕ) (seen ids : List ℕ)
    → All (λ x. All (λ y. y ≢ x) (k ∷ seen)) ids
    → All (λ x. All (λ y. y ≢ x) seen) ids × All (λ y. y ≢ k) ids
heads_apart k seen [] h = (tt, tt)
heads_apart k seen (x ∷ ids) h =
    let (a, b) = heads_apart k seen ids h.1 in ((h.0.1, a), ((λ e. h.0.0 (sym e)), b))

named :
    (x id : ℕ) (seen ids : List ℕ)
    → Memᴰ x (id ∷ seen) ⊎ Memᴰ x ids
    → Memᴰ x seen ⊎ Memᴰ x (id ∷ ids)
named x id seen ids (inr m) = inr (Memᴰ.tail m)
named x id seen ids (inl m) = elim (Memᴰ.cases_cons m) [ inl e ↦ inr (Memᴰ.head e) | inr n ↦ inl n ]

ids_from-AreRead :
    (b : Bytes) (size p n : ℕ) (seen : List ℕ) {final : List ℕ}
    → ids_from b size p n seen ≡ ok final
    → AreRead (ids_at b size p n) seen final
unfolding ids_from ids_at NoneTwice
ids_from-AreRead b size p zero seen {final} h = record {
  once = tt;
  apart = tt;
  from_table = λ x m. inl (subst (Memᴰ x) (sym (ok_injective h)) m);
}
ids_from-AreRead b size p (suc n) seen {final} h =
    let id = le (slice b p size) in
    let (fresh, more) = ensure-eq-ok (not (has id seen)) _ _ h in
    let r = ids_from-AreRead b size (p + size) n (id ∷ seen) more in
    let (apart, others) = heads_apart id seen (ids_at b size (p + size) n) r.apart in
    record {
      once = (others, r.once);
      apart = (has-not id seen fresh, apart);
      from_table = λ x m. named x id seen (ids_at b size (p + size) n) (r.from_table x m);
    }

aligned-ge : (alignment n : ℕ) → 0 < alignment → n ≤ aligned alignment n
aligned-ge alignment n h = grind arith

-- The first offset is checked with the waves that follow it.
offsets_from-AreOrdered :
    (b : Bytes) (alignment size p n previous : ℕ)
    → 0 < alignment
    → offsets_from b alignment size p n previous ≡ ok tt
    → (previous ≤ le (slice b p size))
      × AreOrdered (le (slice b p size)) (length b) (waves_at b alignment size p n)
unfolding offsets_from waves_at AreOrdered
offsets_from-AreOrdered b alignment size p zero previous a h =
    let (good, h₁) =
      ensure-eq-ok (leb previous (le (slice b p size)) && leb (le (slice b p size)) (length b)) _ _
        h in
    let (x, y) = and_split (leb previous (le (slice b p size))) _ good in
    (leb→le previous (le (slice b p size)) x, leb→le (le (slice b p size)) (length b) y)
offsets_from-AreOrdered b alignment size p (suc n) previous a h =
    let (good, h₁) =
      ensure-eq-ok (leb previous (le (slice b p size)) && leb (le (slice b p size)) (length b)) _ _
        h in
    let (x, y) = and_split (leb previous (le (slice b p size))) _ good in
    let (z, h₂) = ensure-eq-ok (leb (aligned alignment (le (slice b p size))) (length b)) _ _ h₁ in
    let (after, ordered) =
      offsets_from-AreOrdered b alignment size (p + size) n
        (aligned alignment (le (slice b p size))) a h₂ in
    (
      leb→le previous (le (slice b p size)) x,
      (aligned-ge alignment (le (slice b p size)) a, after, ordered),
    )

-- A track names a wave of the table.
abbrev pub Names : List ℕ → ℤ → Type 0
Names ids (pos n) = Memᴰ n ids
Names ids (negsuc n) = ⊥

known-All :
    (ids final : List ℕ) (tracks : List ℤ)
    → ((x : ℕ) → Memᴰ x final → Memᴰ x ids)
    → known final tracks ≡ ok tt
    → All (Names ids) tracks
unfolding known
known-All ids final [] f h = tt
known-All ids final (pos n ∷ tracks) f h =
    let (there, more) = ensure-eq-ok (has n final) _ _ h in
    (f n (has-Memᴰ n final there), known-All ids final tracks f more)
known-All ids final (negsuc n ∷ tracks) f h = absurd (err-ne-ok h)

lowered :
    (low from to : ℕ) (waves : List (ℕ × ℕ))
    → low ≤ from
    → AreOrdered from to waves
    → AreOrdered low to waves
unfolding AreOrdered
lowered low from to [] h a = omega (arith, a)
lowered low from to ((start, end) ∷ waves) h (a, b, rest) = (omega arith, b, rest)

unseen : {ids : List ℕ} (x : ℕ) → Memᴰ x [] ⊎ Memᴰ x ids → Memᴰ x ids
unseen x (inl m) = elim m [ ]
unseen x (inr m) = m

-- In a wave bank that is accepted the table lies within the data, no two waves have the same id, the
-- waves lie between the end of the table and the end of the data, one after the other and each with its
-- start at or before its end, and every track names a wave of the table.
pub check_awb_references-IsBank :
    (b : Bytes) (tracks : List ℤ)
    → check_awb_references b tracks ≡ ok tt
    → (table_end b ≤ length b)
      × NoneTwice (ids_at b (id_size_of b) 16 (count_of b))
      × AreOrdered
          (table_end b)
          (length b)
          (waves_at b (alignment_of b) (offset_size_of b) (offsets_at b) (count_of b))
      × All (Names (ids_at b (id_size_of b) 16 (count_of b))) tracks
unfolding check_awb_references
check_awb_references-IsBank b tracks h =
    let (_, h₁) = ensure-eq-ok _ _ _ h in
    let (header, h₂) = ensure-eq-ok _ _ _ h₁ in
    let (fits, h₃) = ensure-eq-ok (leb (table_end b) (length b)) _ _ h₂ in
    let (final, read, h₄) = >>=-eq-ok (ids_from b (id_size_of b) 16 (count_of b) []) _ h₃ in
    let (_, offsets, h₅) =
      >>=-eq-ok
        (offsets_from b (alignment_of b) (offset_size_of b) (offsets_at b) (count_of b)
          (table_end b))
        _ h₄ in
    let (_, positive) = and_split _ (ltb 0 (alignment_of b)) header in
    let r = ids_from-AreRead b (id_size_of b) 16 (count_of b) [] read in
    let (after, ordered) =
      offsets_from-AreOrdered b (alignment_of b) (offset_size_of b) (offsets_at b) (count_of b)
        (table_end b) (ltb→lt 0 (alignment_of b) positive) offsets in
    (
      leb→le (table_end b) (length b) fits,
      r.once,
      lowered (table_end b) (le (slice b (offsets_at b) (offset_size_of b))) (length b) _ after
          ordered,
      known-All _ final tracks (λ x m. unseen x (r.from_table x m)) h₅,
    )

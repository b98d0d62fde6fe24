-- ===== src/Catalog/Parse/Closed.antt =====
-- `Catalog::parse` of src/catalog.rs leaves no dangling reference.
use moenotes_assets.Catalog.Parse.Rounds.{Located, extend_old, extend_new, Follows, loop-IsKept}
use mathlib.Core.Path.{subst}
use moenotes_assets.Base.{
  ℕ, ◌+◌, ◌*◌, ◌^◌, not, ◌&&◌, Option, none, some, List, [], ◌∷◌, ◌≡◌, ◌⊎◌, inl, inr, refl, ap,
  arith, leb, ◌==◌, if◌then◌else◌, length,
}
use moenotes_assets.Base.Outcome.{
  Result, ok, err, collect, >>=-eq-ok, ensure-eq-ok, ok_injective, Result-cases,
}
use moenotes_assets.Base.Bytes.{Bytes}
use mathlib.Core.Option.{some_inj, none-ne-some}
use mathlib.Core.List.{Memᴰ}
use mathlib.Core.List.Memᴰ
use moenotes_assets.Catalog.{Location, Locations, Catalog, get, is_some, ids_of}
use moenotes_assets.Catalog.Reader.{location, Reader, u32, array, take_at}
use moenotes_assets.Catalog.Reader
use moenotes_assets.Catalog.Parse.{
  Found, Keys, locations_loop, keys_of, locate, catalog_of, parse, key_entry, key_entries, keep,
}

-- Every location that a key names is located, or pending.
abbrev Names : (ℕ → Type 0) → List (Bytes × List ℕ) → Type 0
Names there keys =
    (k : Bytes) (ids : List ℕ) → Memᴰ (k, ids) keys → (id : ℕ) → Memᴰ id ids → there id

keep-Names :
    (k : Option Bytes) (ids : List ℕ) (s : Keys) {t : Keys}
    → ((id : ℕ) → Memᴰ id ids → Memᴰ id s.pending)
    → Names (λ id. Memᴰ id s.pending) s.keys
    → keep k ids s ≡ ok t
    → Names (λ id. Memᴰ id t.pending) t.keys
unfolding keep
keep-Names none ids s there old h =
    subst (λ (x : Keys). Names (λ id. Memᴰ id x.pending) x.keys) (ok_injective h) old
keep-Names (some k) ids s there old h =
    let (budget, h₁) = ensure-eq-ok (leb (s.materialized + (length k + length ids * 4)) _) _ _ h in
    let (new, h₂) = ensure-eq-ok (not (is_some (ids_of k s.keys))) _ _ h₁ in
    subst (λ (x : Keys). Names (λ id. Memᴰ id x.pending) x.keys) (ok_injective h₂)
      (λ k' ids' m id n. elim (Memᴰ.append_cases s.keys m) [
        | inl before ↦ old k' ids' before id n
        | inr last ↦ there id (subst (Memᴰ id) (ap (λ e. e.1) (Memᴰ.eq_of_singleton last)) n)
      ])

key_entry-Names :
    (d : Bytes) (a : ℕ) (s : Keys) {t : Keys}
    → Names (λ id. Memᴰ id s.pending) s.keys
    → key_entry d a s ≡ ok t
    → Names (λ id. Memᴰ id t.pending) t.keys
unfolding key_entry
key_entry-Names d a s old h =
    let (at, e₁, h₁) = >>=-eq-ok (u32 d (a + 4)) _ h in
    let (entries, e₂, h₂) = >>=-eq-ok (array d at 4) _ h₁ in
    let (ids, e₃, h₃) = >>=-eq-ok (collect (u32 d) entries) _ h₂ in
    let (budget, h₄) = ensure-eq-ok (leb (s.references + length ids) 1_000_000) _ _ h₃ in
    let (o, e₅, h₅) = >>=-eq-ok (u32 d a) _ h₄ in
    let ((k, r), e₆, h₆) = >>=-eq-ok (Reader.key d o s.reader) _ h₅ in
    keep-Names k ids _ (λ id m. extend_new id ids s.pending m)
      (λ k' ids' m id n. extend_old id ids s.pending (old k' ids' m id n)) h₆

key_entries-Names :
    (d : Bytes) (as' : List ℕ) (s : Keys) {t : Keys}
    → Names (λ id. Memᴰ id s.pending) s.keys
    → key_entries d as' s ≡ ok t
    → Names (λ id. Memᴰ id t.pending) t.keys
unfolding key_entries
key_entries-Names d [] s old h =
    subst (λ (x : Keys). Names (λ id. Memᴰ id x.pending) x.keys) (ok_injective h) old
key_entries-Names d (a ∷ as') s old h =
    let (u, e, h₁) = >>=-eq-ok (key_entry d a s) _ h in
    key_entries-Names d as' u (key_entry-Names d a s old e) h₁

keys_of-Names : (d : Bytes) {k : Keys} → keys_of d ≡ ok k → Names (λ id. Memᴰ id k.pending) k.keys
unfolding keys_of
keys_of-Names d h =
    let (size, h₁) = ensure-eq-ok (leb (length d) (32 * 2 ^ 20)) _ _ h in
    let (magic, e₂, h₂) = >>=-eq-ok (u32 d 0) _ h₁ in
    let (version, e₃, h₃) = >>=-eq-ok (if magic == 0x0de38942 then u32 d 4 else ok 0) _ h₂ in
    let (format, h₄) = ensure-eq-ok (magic == 0x0de38942 && version == 2) _ _ h₃ in
    let (header, e₅, h₅) = >>=-eq-ok (take_at d 0 32) _ h₄ in
    let (at, e₆, h₆) = >>=-eq-ok (u32 d 8) _ h₅ in
    let (entries, e₇, h₇) = >>=-eq-ok (array d at 8) _ h₆ in
    key_entries-Names d entries _ (λ k ids m. absurd (Memᴰ.not-nil m)) h₇

-- No key and no dependency dangles.
pub record IsClosed (c : Catalog) : Type 0 where
  pub keys_located : Names (Located c.locations) c.keys
  pub dependencies_located :
      (i : ℕ) (l : Location)
      → get i c.locations ≡ some l
      → (d : ℕ) → Memᴰ d l.dependencies
      → Located c.locations d

catalog-IsClosed :
    (k : Keys) (s t : Found) (fuel : ℕ) (d : Bytes)
    → Names (λ id. Memᴰ id k.pending) k.keys
    → s.locations ≡ []
    → locations_loop fuel d k.pending s ≡ some (ok t)
    → IsClosed (record { keys = k.keys; locations = t.locations })
unfolding get
catalog-IsClosed k s t fuel d names start h =
    let kept = loop-IsKept fuel d k.pending s h in
    let none' : Follows k.pending s.locations = rw start (λ i l g. absurd (none-ne-some _ g)) in
    let here = there_only t.locations in
    record {
      keys_located = λ key ids m id n. here id (kept.covers id (inr (names key ids m id n)));
      dependencies_located = λ i l g e m. here e (kept.follows none' i l g e m);
    }
  where
    there_only : (ls : Locations) (id : ℕ) → Located ls id ⊎ Memᴰ id [] → Located ls id
    there_only ls id (inl l) = l
    there_only ls id (inr m) = absurd (Memᴰ.not-nil m)

catalog_of-ok :
    (k : Keys) (o : Option (Result Found)) {c : Catalog}
    → catalog_of k o ≡ some (ok c)
    → (t : Found) × (o ≡ some (ok t)) × (record { keys = k.keys; locations = t.locations } ≡ c)
catalog_of-ok k none h = absurd (none-ne-some _ h)
catalog_of-ok k (some (err e)) h = absurd (ground arith)
catalog_of-ok k (some (ok t)) h = (t, refl, ok_injective (some_inj.0 h))

-- In a catalog that `parse` returns, every location that a key names and every dependency of a
-- location is a location of the catalog.
pub parse-IsClosed : (d : Bytes) {c : Catalog} → parse d ≡ some (ok c) → IsClosed c
unfolding parse locate
parse-IsClosed d {c} h = elim (Result-cases (keys_of d)) [
  | inr (e, v) ↦ absurd (ground arith)
  | inl (k, v) ↦
      let (t, e, same) = catalog_of-ok k (locate d k) (rw (parse, v) at h) in
      subst IsClosed same
        (catalog-IsClosed k _ t (length k.pending + 1_000_000) d (keys_of-Names d v) refl e)
]

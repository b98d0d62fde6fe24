-- ===== src/Tree/Destination.antt =====
-- `safe_destination` of src/tree.rs: what it accepts lies below the root and passes no symbolic
-- link, and it accepts the names that `component` makes.
use moenotes_assets.Base.{
  ℕ, zero, suc, ◌≤◌, ◌<◌, Bool, true, false, not, ◌||◌, List, [], ◌∷◌, ◌++◌, map, ◌≡◌, ◌≢◌, inl,
  inr, refl, sym, ap, ◌∙◌, arith, ◌==◌, length, take, all, any, All, Bool-cases, append_assoc,
  append-nil, le→leb,
}
use moenotes_assets.Base.Outcome.{ok, ensure-eq-ok}
use moenotes_assets.Base.Bytes.{equal_iff, Bytes, IsBytes, codes, equal, starts_with}
use moenotes_assets.Base.Outcome.{ok_injective}
use moenotes_assets.Base.{leb→le, and_split}
use moenotes_assets.Base.Percent.{split, join, split-join, split-cons, is_ascii_alphanumeric}
use moenotes_assets.Crypto.{Primitives}
use moenotes_assets.Tree.{
  proper, safe_text, descend, safe_destination, ends_blank, component, is_plain, mem,
}
use moenotes_assets.Tree.Names.{is_allowed, Allowed, IsPortable}
use moenotes_assets.Tree.Portable.{component-IsPortable}

pub record IsBelow (links : List Bytes → Bool) (root parts path : List Bytes) : Type 0 where
  pub is_root_and : path ≡ root ++ parts
  pub no_link : (n : ℕ) → 0 < n → n ≤ length parts → links (root ++ take n parts) ≡ false

snoc-append : {A : Type 0} (xs : List A) (y : A) (ys : List A) → (xs ++ y ∷ []) ++ ys ≡ xs ++ y ∷ ys
snoc-append xs y ys = simp append_assoc

not-true : (b : Bool) → not b ≡ true → b ≡ false
not-true b h = ground arith

steps_free :
    (links : List Bytes → Bool) (root : List Bytes) (part : Bytes) (parts : List Bytes)
    → links (root ++ part ∷ []) ≡ false
    → ((n : ℕ) → 0 < n → n ≤ length parts → links ((root ++ part ∷ []) ++ take n parts) ≡ false)
    → (n : ℕ) → 0 < n
    → n ≤ length (part ∷ parts)
    → links (root ++ take n (part ∷ parts)) ≡ false
steps_free links root part parts first rest zero a b = absurd (omega arith)
steps_free links root part parts first rest (suc zero) a b = first
steps_free links root part parts first rest (suc (suc n)) a b =
    ap links (sym (snoc-append root part (take (suc n) parts)))
    ∙ rest (suc n) (omega arith) (omega arith)

unequal : (s t : Bytes) → not (equal s t) ≡ true → s ≢ t
unequal s t h e = absurd (ground (arith, (equal_iff s t).1 e))

parts_sound :
    (parts : List Bytes)
    → all proper parts ≡ true
    → All (λ part. (part ≢ []) × (part ≢ codes ".") × (part ≢ codes "..")) parts
parts_sound [] h = tt
parts_sound (part ∷ parts) h =
    let (one, rest) = and_split (proper part) (all proper parts) h in
    let (ab, c) = and_split _ _ one in
    let (a, b) = and_split _ _ ab in
    (
      (unequal part [] a, unequal part (codes ".") b, unequal part (codes "..") c),
      parts_sound parts rest,
    )

descend-IsBelow :
    (links : List Bytes → Bool) (root parts : List Bytes) {path : List Bytes}
    → descend links root parts ≡ ok path
    → IsBelow links root parts path
unfolding descend
descend-IsBelow links root [] {path} h = record {
  is_root_and = sym (ok_injective h) ∙ sym (append-nil root);
  no_link = λ n a b. absurd (omega arith);
}
descend-IsBelow links root (part ∷ parts) {path} h =
    let (free, more) = ensure-eq-ok (not (links (root ++ part ∷ []))) _ _ h in
    let rest = descend-IsBelow links (root ++ part ∷ []) parts more in
    record {
      is_root_and = rest.is_root_and ∙ snoc-append root part parts;
      no_link = λ n a b. steps_free links root part parts (not-true _ free) rest.no_link n a b;
    }

cons_pos : (xs : List Bytes) {y : Bytes} {ys : List Bytes} → xs ≡ y ∷ ys → 0 < length xs
cons_pos xs e = rw e (omega arith)

-- A path that `safe_destination` gives is the root followed by the parts of the name, at least one:
-- each of them is not empty, "." or "..", and no place on the way from below the root to the path is
-- a symbolic link.
pub safe_destination-IsBelow :
    (links : List Bytes → Bool) (root : List Bytes) (relative : Bytes) {path : List Bytes}
    → safe_destination links root relative ≡ ok path
    → IsBelow links root (split b'/' relative) path
      × (0 < length (split b'/' relative))
      × (length relative ≤ 1024)
      × All (λ part. (part ≢ []) × (part ≢ codes ".") × (part ≢ codes "..")) (split b'/' relative)
unfolding safe_destination safe_text
safe_destination-IsBelow links root relative h =
    let (good, found) = ensure-eq-ok (safe_text relative) _ _ h in
    let (a, _) = and_split _ _ good in
    let (b, parts) = and_split _ _ a in
    let (short, _) = and_split _ _ b in
    let (p, ps, e) = split-cons b'/' relative in
    (
      descend-IsBelow links root (split b'/' relative) found,
      cons_pos (split b'/' relative) e,
      leb→le _ _ short,
      parts_sound (split b'/' relative) parts,
    )

descend_free :
    (links : List Bytes → Bool) (root parts : List Bytes)
    → ((n : ℕ) → links (root ++ take (suc n) parts) ≡ false)
    → descend links root parts ≡ ok (root ++ parts)
unfolding descend
descend_free links root [] h = ap ok (sym (append-nil root))
descend_free links root (part ∷ parts) h =
    let rest =
      descend_free links (root ++ part ∷ []) parts
        (λ n. ap links (snoc-append root part (take (suc n) parts)) ∙ h (suc n)) in
    rw (h 0) (rest ∙ ap ok (snoc-append root part parts))

-- A character that a portable name does not have.
foreign : (c : ℕ) → is_allowed c ≡ false → (s : Bytes) → Allowed s → All (λ b. b ≢ c) s
foreign c n [] h = tt
foreign c n (b ∷ s) (t, h) =
    ((λ e. absurd (ground (arith, n, t, ap is_allowed e))), foreign c n s h)

abbrev bad : ℕ → Bool
bad c = c == 92 || c == b':' || c == 0

bad_allowed : (c : ℕ) → is_allowed c ≡ true → bad c ≡ false
unfolding is_allowed is_plain is_ascii_alphanumeric mem
bad_allowed c h = ground arith

any-Allowed : (s : Bytes) → Allowed s → any bad s ≡ false
any-Allowed [] h = refl
any-Allowed (c ∷ s) (t, h) = rw (bad_allowed c t, any-Allowed s h) refl

any-append : (s t : Bytes) → any bad s ≡ false → any bad t ≡ false → any bad (s ++ t) ≡ false
any-append [] t h k = k
any-append (c ∷ s) t h k = elim (Bool-cases (bad c)) [
  | inl e ↦ absurd (ground arith)
  | inr e ↦ rw e (any-append s t (rw e at h) k)
]

any-join :
    (p : Bytes) (ps : List Bytes) → All Allowed (p ∷ ps) → any bad (join b'/' (p ∷ ps)) ≡ false
unfolding join
any-join p [] h = any-Allowed p h.0
any-join p (q ∷ ps) h =
    any-append p (b'/' ∷ join b'/' (q ∷ ps)) (any-Allowed p h.0) (any-join q ps h.1)

proper-IsPortable : (p : Bytes) → IsPortable p → proper p ≡ true
unfolding ends_blank equal
proper-IsPortable [] h = absurd (omega (arith, h.some_name))
proper-IsPortable (a ∷ []) h = ground (arith, h.ended)
proper-IsPortable (a ∷ b ∷ []) h = ground (arith, h.ended)
proper-IsPortable (a ∷ b ∷ c ∷ p) h = ground arith

all-proper : (ps : List Bytes) → All IsPortable ps → all proper ps ≡ true
all-proper [] h = refl
all-proper (p ∷ ps) h = rw (proper-IsPortable p h.0, all-proper ps h.1) refl

names-Allowed : (ps : List Bytes) → All IsPortable ps → All Allowed ps
names-Allowed [] h = tt
names-Allowed (p ∷ ps) h = (h.0.allowed, names-Allowed ps h.1)

slash_foreign : is_allowed b'/' ≡ false
unfolding is_allowed is_plain is_ascii_alphanumeric mem
slash_foreign = refl

no_slash : (ps : List Bytes) → All IsPortable ps → All (All (λ b. b ≢ b'/')) ps
no_slash [] h = tt
no_slash (p ∷ ps) h = (foreign b'/' slash_foreign p h.0.allowed, no_slash ps h.1)

first_differs : (c : ℕ) (p : Bytes) → Allowed (c ∷ p) → (c == b'/') ≡ false
first_differs c p h = let n = (foreign b'/' slash_foreign (c ∷ p) h).0 in ground arith

starts_with-join :
    (p : Bytes) (ps : List Bytes)
    → IsPortable p
    → starts_with (join b'/' (p ∷ ps)) (codes "/") ≡ false
unfolding join starts_with
starts_with-join [] ps h = absurd (omega (arith, h.some_name))
starts_with-join (c ∷ p) [] h = rw (first_differs c p h.allowed) refl
starts_with-join (c ∷ p) (q ∷ rest) h = rw (first_differs c p h.allowed) refl

components-IsPortable :
    (p : Primitives)
    → ((s : Bytes) → IsBytes (p.sha256 s))
    → (values : List Bytes) → All IsBytes values
    → All IsPortable (map (component p) values)
components-IsPortable p hash [] h = tt
components-IsPortable p hash (v ∷ values) h =
    (component-IsPortable p hash v h.0, components-IsPortable p hash values h.1)

-- The names of the parts of a key, joined, are accepted if they have at most 1024 characters in all
-- and none of the places is a symbolic link; the path has one place for each part, its component.
pub safe_destination-component :
    (p : Primitives) (links : List Bytes → Bool) (root : List Bytes) (v : Bytes)
    (values : List Bytes)
    → ((s : Bytes) → IsBytes (p.sha256 s))
    → All IsBytes (v ∷ values)
    → length (join b'/' (map (component p) (v ∷ values))) ≤ 1024
    → ((n : ℕ) → links (root ++ take (suc n) (map (component p) (v ∷ values))) ≡ false)
    → safe_destination links root (join b'/' (map (component p) (v ∷ values)))
      ≡ ok (root ++ map (component p) (v ∷ values))
unfolding safe_destination safe_text
safe_destination-component p links root v values hash h short free =
    let names = components-IsPortable p hash (v ∷ values) h in
    let parts =
      split-join b'/' (component p v) (map (component p) values)
        (no_slash (map (component p) (v ∷ values)) names) in
    let clean =
      any-join (component p v) (map (component p) values)
        (names-Allowed (map (component p) (v ∷ values)) names) in
    let relative = starts_with-join (component p v) (map (component p) values) names.0 in
    let fits = le→leb (length (join b'/' (map (component p) (v ∷ values)))) 1024 short in
    rw (parts, fits, clean, relative, all-proper (map (component p) (v ∷ values)) names)
      (descend_free links root (map (component p) (v ∷ values)) free)

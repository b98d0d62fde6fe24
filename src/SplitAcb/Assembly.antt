-- ===== src/SplitAcb/Assembly.antt =====
-- What `read` of src/split_acb.rs reconstructs.
use moenotes_assets.Base.Bytes.{Bytes, starts_with, codes}
use moenotes_assets.Base.Outcome.{>>=-eq-ok, ok, ensure-eq-ok, Result}
use moenotes_assets.Base.{
  ◌≡◌, ◌≢◌, ◌≤◌, refl, ◌+◌, ◌++◌, ◌<◌, arith, map, ◌^◌, append-nil, ◌-◌, List, ◌∷◌, ℕ, [], length,
  length-append, length-map, bit_xor, ◌∙◌, true, ap, append_assoc, ◌==◌, sym,
}
use mathlib.Core.List.{flatten}
use moenotes_assets.SplitAcb.{
  Json, Studio, ObjectReference, append, assemble, validate, references, read, read_chunk, masked,
  fits, table_size,
}
use moenotes_assets.Base.Xor.{bit_xor_undo}
use mathlib.Core.Path.{ap₂, subst}

masked-masked : (p : Bytes) → masked (masked p) ≡ p
masked-masked [] = refl
masked-masked (x ∷ p) = ap₂ ◌∷◌ (bit_xor_undo x 0x5a) (masked-masked p)

masked-ne-nil : (p : Bytes) → p ≢ [] → masked p ≢ []
masked-ne-nil [] ne e = absurd (ne refl)
masked-ne-nil (x ∷ p) ne e = cc

-- The header that `validate` asks for.
pub record IsAcb (bytes : Bytes) : Type 0 where
  pub at_least : 32 ≤ length bytes
  pub magic : starts_with bytes (codes "@UTF") ≡ true
  pub table_from : 32 ≤ table_size bytes
  pub table_to : table_size bytes ≤ length bytes

validate-IsAcb : (bytes : Bytes) {u : Unit {0}} → validate bytes ≡ ok u → IsAcb bytes
unfolding validate
validate-IsAcb bytes h = ground arith

append-ok :
    (out chunk : Bytes) (limit : ℕ)
    → chunk ≢ []
    → length out + length chunk ≤ limit
    → limit < 2 ^ 64
    → append out chunk limit ≡ ok (out ++ masked chunk)
unfolding append
append-ok out [] limit ne h w = absurd (ne refl)
append-ok out (x ∷ chunk) limit ne h w = ground arith

append-eq-ok :
    (out chunk : Bytes) (limit : ℕ) {more : Bytes}
    → append out chunk limit ≡ ok more
    → (chunk ≢ []) × (length out + length chunk ≤ limit) × (more ≡ out ++ masked chunk)
unfolding append
append-eq-ok out [] limit h = absurd (ground arith)
append-eq-ok out (x ∷ chunk) limit h = (λ e. cc, ground arith, ground arith)

result-injective :
    {a a' b b' : Bytes} {n n' : ℕ}
    → ◌≡◌ {A = Result (Bytes × Bytes × ℕ)} (ok (a, b, n)) (ok (a', b', n'))
    → (a ≡ a') × (b ≡ b') × (n ≡ n')
result-injective h = ground arith

module _ (j : Json) (s : Studio j) where
  open s use {Object}

  -- The references name text assets whose bytes are the parts, none empty, each masked by 0x5a.
  abbrev pub Holds : Object → List ObjectReference → List Bytes → Type 0
  Holds object [] [] = Unit
  Holds object (r ∷ refs) (p ∷ parts) =
      ((room : ℕ) → length p ≤ room → read_chunk j s object r room ≡ ok (masked p))
      × (p ≢ [])
      × Holds object refs parts
  Holds object _ _ = ⊥

  -- The references were read, in order, as the raw chunks, none empty.
  abbrev pub WereRead : Object → List ObjectReference → List Bytes → Type 0
  WereRead object [] [] = Unit
  WereRead object (r ∷ refs) (raw ∷ raws) =
      ((room : ℕ) × (read_chunk j s object r room ≡ ok raw))
      × (raw ≢ [])
      × WereRead object refs raws
  WereRead object _ _ = ⊥

  assemble-Holds :
      (object : Object) (refs : List ObjectReference) (parts : List Bytes) (bytes : Bytes)
      (limit : ℕ)
      → Holds object refs parts
      → length bytes + length (flatten parts) ≤ limit
      → limit < 2 ^ 64
      → assemble j s object refs bytes limit ≡ ok (bytes ++ flatten parts)
  unfolding assemble flatten
  assemble-Holds object [] [] bytes limit h l w = rw append-nil
  assemble-Holds object [] (p ∷ parts) bytes limit h l w = absurd h
  assemble-Holds object (r ∷ refs) [] bytes limit h l w = absurd h
  assemble-Holds object (r ∷ refs) (p ∷ parts) bytes limit (reads, ne, h) l w =
      let sizes : length bytes + (length p + length (flatten parts)) ≤ limit =
        omega (arith, length-append p (flatten parts)) in
      let small : length (masked p) ≡ length p = length-map (λ v. bit_xor v 0x5a) p in
      rw
        (
          reads (limit - length bytes) (omega arith),
          append-ok bytes (masked p) limit (masked-ne-nil p ne) (omega arith) w,
          masked-masked p,
        )
        (assemble-Holds object refs parts (bytes ++ p) limit h
            (rw (length-append bytes p) (omega arith)) w
          ∙ ap ok (append_assoc bytes p (flatten parts)))

  assemble-WereRead :
      (object : Object) (refs : List ObjectReference) (bytes : Bytes) (limit : ℕ) {out : Bytes}
      → length bytes ≤ limit
      → assemble j s object refs bytes limit ≡ ok out
      → (raws : List Bytes) × WereRead object refs raws
        × (out ≡ bytes ++ flatten (map masked raws))
        × (length out ≤ limit)
  unfolding assemble flatten
  assemble-WereRead object [] bytes limit {out} l h =
      let same : bytes ≡ out = ground arith in ([], tt, rw (append-nil, same), rw (← same) l)
  assemble-WereRead object (r ∷ refs) bytes limit l h =
      let (raw, c, rest) = >>=-eq-ok (read_chunk j s object r (limit - length bytes)) _ h in
      let (more, a, rest') = >>=-eq-ok (append bytes raw limit) _ rest in
      let grown = append-eq-ok bytes raw limit a in
      let size : length more ≤ limit =
        rw (grown.2, length-append bytes (masked raw), length-map) grown.1 in
      let (raws, were, is, fits) = assemble-WereRead object refs more limit size rest' in
      (
        raw ∷ raws,
        ((limit - length bytes, c), grown.0, were),
        is
            ∙ ap (λ (x : Bytes). x ++ flatten (map masked raws)) grown.2
            ∙ append_assoc bytes (masked raw) (flatten (map masked raws)),
        fits,
      )

  -- The song read back: where the wrapper's references hold the parts of a byte string, none
  -- empty, each masked by 0x5a, and the whole is within the limit and passes `validate`, `read`
  -- returns exactly that byte string, with the name and the number of references.
  pub read-Holds :
      (object : Object) (limit : ℕ) (tree : j.Value) (name : Bytes) (refs : List ObjectReference)
      (parts : List Bytes)
      → s.class_id object ≡ 114
      → s.read_json object ≡ ok tree
      → references j tree ≡ ok (name, refs)
      → Holds object refs parts
      → length (flatten parts) ≤ limit
      → limit < 2 ^ 64
      → validate (flatten parts) ≡ ok tt
      → read j s object limit ≡ ok (flatten parts, name, length refs)
  unfolding read
  read-Holds object limit tree name refs parts class json names h l w valid =
      rw (class, json, names, assemble-Holds object refs parts [] limit h (omega arith) w, valid)

  -- Whatever `read` returns is the concatenation, in the order of the wrapper's references, of the
  -- chunks that were read, none of them empty, each masked by 0x5a; it is within the limit, starts
  -- with "@UTF" and has at least 32 bytes, and the table size in its header is from 32 to its
  -- length. The number returned is that of the references.
  pub read_sound :
      (object : Object) (limit : ℕ) {bytes name : Bytes} {n : ℕ}
      → read j s object limit ≡ ok (bytes, name, n)
      → (tree : j.Value) × (refs : List ObjectReference) × (raws : List Bytes) × (references j tree
          ≡ ok (name, refs))
        × WereRead object refs raws
        × (bytes ≡ flatten (map masked raws))
        × (n ≡ length refs)
        × (length bytes ≤ limit)
        × IsAcb bytes
  unfolding read
  read_sound object limit h =
      let (class, h₁) = ensure-eq-ok (s.class_id object == 114) _ _ h in
      let (tree, json, h₂) = >>=-eq-ok (s.read_json object) _ h₁ in
      let ((name', refs), names, h₃) = >>=-eq-ok (references j tree) _ h₂ in
      let (out, a, h₄) = >>=-eq-ok (assemble j s object refs [] limit) _ h₃ in
      let (u, v, h₅) = >>=-eq-ok (validate out) _ h₄ in
      let (raws, were, is, fits) = assemble-WereRead object refs [] limit (omega arith) a in
      let (same, same_name, same_n) = result-injective h₅ in
      (
        tree,
        refs,
        raws,
        names ∙ ap (λ (m : Bytes). ok (m, refs)) same_name,
        were,
        sym same ∙ is,
        sym same_n,
        subst (λ (b : Bytes). length b ≤ limit) same fits,
        subst IsAcb same (validate-IsAcb out v),
      )

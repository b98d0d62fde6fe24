-- ===== src/Upload/Readback.antt =====
-- The verification of src/upload.rs succeeds exactly for the whole object.
use moenotes_assets.Base.{
  ℕ, ◌+◌, ◌%◌, ◌^◌, ◌≤◌, ◌<◌, true, ◌&&◌, Option, none, some, List, [], ◌∷◌, ◌++◌, ◌≡◌, ◌↔◌, inl,
  inr, refl, sym, ap, ◌∙◌, arith, leb, ◌==◌, length, All, Option-cases, append-nil, ==_iff,
  length-append, append_assoc, le→leb,
}
use moenotes_assets.Base.Outcome.{err-ne-ok, ok, >>=-eq-ok, ensure-eq-ok, ensure-ok}
use moenotes_assets.Base.Bytes.{equal_iff, Bytes, equal}
use mathlib.Core.Option.{some_inj, none-ne-some}
use moenotes_assets.Base.Outcome.{ok_injective}
use moenotes_assets.Base.{leb→le, and_split}
use moenotes_assets.Crypto.{Primitives, digest}
use moenotes_assets.Tree.{Object}
use moenotes_assets.Upload.{Item, chunk, broken, Response, readback, verify}

-- The body of a response that does not break.
unfoldable pub whole : List Item → Option Bytes
whole [] = some []
whole (broken ∷ rest) = none
whole (chunk b ∷ rest) = elim (whole rest) [ none ↦ none | some bs ↦ some (b ++ bs) ]

-- A slice has fewer than 2^63 bytes.
abbrev pub IsSlice : Item → Type 0
IsSlice (chunk b) = length b < 2 ^ 63
IsSlice broken = Unit {0}

fits_word : (a b size : ℕ) → a ≤ size → size < 2 ^ 63 → b < 2 ^ 63 → (a + b) % 2 ^ 64 ≡ a + b
fits_word a b size h k l = omega arith

readback-whole :
    (size : ℕ) (sofar : Bytes) (items : List Item) {c : ℕ} {total : Bytes}
    → size < 2 ^ 63
    → All IsSlice items
    → length sofar ≤ size
    → readback size (length sofar) sofar items ≡ ok (c, total)
    → (rest : Bytes) × (whole items ≡ some rest) × (total ≡ sofar ++ rest) × (c ≡ length total)
unfolding readback whole
readback-whole size sofar [] {c} {total} b s l h =
    let same = ok_injective h in
    let all_same : sofar ≡ total = ap (λ x. x.1) same in
    (
      [],
      refl,
      sym all_same ∙ sym (append-nil sofar),
      sym (ap (λ x. x.0) same) ∙ ap (λ (x : Bytes). length x) all_same,
    )
readback-whole size sofar (broken ∷ items) b s l h = absurd (err-ne-ok h)
readback-whole size sofar (chunk d ∷ items) b s l h =
    let (fits, more) = ensure-eq-ok (leb ((length sofar + length d) % 2 ^ 64) size) _ _ h in
    let room = leb→le ((length sofar + length d) % 2 ^ 64) size fits in
    let count : (length sofar + length d) % 2 ^ 64 ≡ length (sofar ++ d) =
      fits_word (length sofar) (length d) size l b s.0 ∙ sym (length-append sofar d) in
    let (rest, e, t, n) =
      readback-whole size (sofar ++ d) items b s.1 (omega arith) (rw count at more) in
    (d ++ rest, rw e refl, t ∙ append_assoc sofar d rest, n)

whole-readback :
    (size : ℕ) (sofar : Bytes) (items : List Item) {rest : Bytes}
    → size < 2 ^ 63
    → All IsSlice items
    → whole items ≡ some rest
    → length sofar + length rest ≤ size
    → readback size (length sofar) sofar items ≡ ok (length (sofar ++ rest), sofar ++ rest)
unfolding readback whole
whole-readback size sofar [] {rest} b s e l =
    let same : sofar ≡ sofar ++ rest =
      sym (append-nil sofar) ∙ ap (λ (x : Bytes). sofar ++ x) (some_inj.0 e) in
    ap (λ (x : Bytes). ok (length x, x)) same
whole-readback size sofar (broken ∷ items) b s e l = absurd (none-ne-some _ e)
whole-readback size sofar (chunk d ∷ items) {rest} b s e l = elim (Option-cases (whole items)) [
  | inl n ↦ absurd (none-ne-some _ (rw n at e))
  | inr (more, f) ↦
      let joined : d ++ more ≡ rest = some_inj.0 (rw f at e) in
      let size_joined : length rest ≡ length d + length more =
        ap (λ (x : Bytes). length x) (sym joined) ∙ length-append d more in
      let count : (length sofar + length d) % 2 ^ 64 ≡ length (sofar ++ d) =
        fits_word (length sofar) (length d) size (omega arith) b s.0
        ∙ sym (length-append sofar d) in
      let grown = length-append sofar d in
      let fits = le→leb (length (sofar ++ d)) size (omega arith) in
      let rest_of = whole-readback size (sofar ++ d) items {rest = more} b s.1 f (omega arith) in
      let regroup : (sofar ++ d) ++ more ≡ sofar ++ rest =
        append_assoc sofar d more ∙ ap (λ (x : Bytes). sofar ++ x) joined in
      rw (count, fits) (rest_of ∙ ap (λ (x : Bytes). ok (length x, x)) regroup)
]

-- The statement of a correct readback.
pub record IsReadback (p : Primitives) (o : Object) (answer : Option Response) : Type 0 where
  pub response : Response
  pub body : Bytes
  pub answered : answer ≡ some response
  pub success : response.status ≡ 200
  pub announced : (n : ℕ) → response.content_length ≡ some n → n ≡ o.bytes
  pub arrived : whole response.body ≡ some body
  pub size : length body ≡ o.bytes
  pub hash : digest p body ≡ o.sha256

announced_iff :
    (announced : Option ℕ) (size : ℕ)
    → (elim announced [ none ↦ true | some n ↦ n == size ] ≡ true)
      ↔ ((n : ℕ) → announced ≡ some n → n ≡ size)
announced_iff none size = ((λ h n e. absurd (none-ne-some _ e)), (λ h. refl))
announced_iff (some m) size =
    ((λ h n e. sym (some_inj.0 e) ∙ (==_iff m size).0 h), (λ h. (==_iff m size).1 (h m refl)))

module _ (p : Primitives) (o : Object) (response : Response) (small : o.bytes < 2 ^ 63)
    (slices : All IsSlice response.body) where
  verify-IsReadback : verify p o (some response) ≡ ok tt → IsReadback p o (some response)
  unfolding verify
  verify-IsReadback h =
      let l : 0 ≤ o.bytes = omega arith in
      let (status, h₁) = ensure-eq-ok (response.status == 200) _ _ h in
      let (announced, h₂) = ensure-eq-ok _ _ _ h₁ in
      let ((c, total), read, h₃) = >>=-eq-ok (readback o.bytes 0 [] response.body) _ h₂ in
      let (rest, e, t, n) = readback-whole o.bytes [] response.body small slices l read in
      let last = ensure-ok (c == o.bytes && equal (digest p total) o.sha256) _ h₃ in
      let (count, hash) = and_split (c == o.bytes) _ last in
      record {
        response = response;
        body = rest;
        answered = refl;
        success = (==_iff response.status 200).0 status;
        announced = (announced_iff response.content_length o.bytes).0 announced;
        arrived = e;
        size = ap (λ (x : Bytes). length x) (sym t) ∙ sym n ∙ (==_iff c o.bytes).0 count;
        hash = ap (digest p) (sym t) ∙ (equal_iff (digest p total) o.sha256).0 hash;
      }

  IsReadback-verify : IsReadback p o (some response) → verify p o (some response) ≡ ok tt
  unfolding verify
  IsReadback-verify i =
      let same : response ≡ i.response = some_inj.0 i.answered in
      let status =
        (==_iff response.status 200).1 (ap (λ (x : Response). x.status) same ∙ i.success) in
      let announced =
        (announced_iff response.content_length o.bytes).1
          (λ n e. i.announced n (ap (λ (x : Response). x.content_length) (sym same) ∙ e)) in
      let there = ap (λ (x : Response). whole x.body) same ∙ i.arrived in
      let size = i.size in
      let read =
        whole-readback o.bytes [] response.body {rest = i.body} small slices there (omega arith) in
      let count = (==_iff (length i.body) o.bytes).1 size in
      let hash = (equal_iff (digest p i.body) o.sha256).1 i.hash in
      rw (status, announced, read, count, hash) refl

  -- Where an object and each chunk of the response has fewer than 2^63 bytes: the verification
  -- succeeds exactly when the status is 200, the announced length is the object's or absent, the body
  -- comes to its end, and the whole body has the object's size and hash.
  pub verify_iff : (verify p o (some response) ≡ ok tt) ↔ IsReadback p o (some response)
  verify_iff = (verify-IsReadback, IsReadback-verify)

-- ===== src/Tree/Regular.antt =====
-- What `verify` of src/tree.rs shows of a file.
use moenotes_assets.Base.{
  ℕ, Bool, true, false, not, ◌&&◌, Option, none, some, List, [], ◌∷◌, ◌++◌, ◌≡◌, refl, sym, ap, ◌∙◌,
  arith, ◌==◌, append-nil, append_assoc, ==_iff, and_split,
}
use moenotes_assets.Base.Outcome.{
  Result, ok, err, err-ne-ok, >>=-eq-ok, ensure-eq-ok, ensure-ok, ok_injective,
}
use moenotes_assets.Base.Bytes.{Bytes, equal, equal_iff}
use moenotes_assets.Crypto.{Primitives, digest}
use moenotes_assets.Tree.{File, contents, verify}

-- What reading to the end of a file gives; a failed read before the end is `none`.
unfoldable pub body : List (Result Bytes) → Option Bytes
body [] = some []
body (err e ∷ rest) = none
body (ok [] ∷ rest) = some []
body (ok (b ∷ bs) ∷ rest) = elim (body rest) [ none ↦ none | some more ↦ some (b ∷ bs ++ more) ]

-- A file that is no link, has the size, and whose bytes up to its end have the hash.
pub record IsRegular (p : Primitives) (file : File) (bytes : ℕ) (sha : Bytes) : Type 0 where
  pub held : Bytes
  pub no_link : file.is_link ≡ false
  pub regular : file.is_file ≡ true
  pub size : file.len ≡ bytes
  pub read : body file.reads ≡ some held
  pub hash : digest p held ≡ sha

pub contents-body :
    (sofar : Bytes) (reads : List (Result Bytes)) {total : Bytes}
    → contents sofar reads ≡ ok total
    → (rest : Bytes) × (body reads ≡ some rest) × (total ≡ sofar ++ rest)
unfolding contents body
contents-body sofar [] h = ([], refl, sym (ok_injective h) ∙ sym (append-nil sofar))
contents-body sofar (err e ∷ reads) h = absurd (err-ne-ok h)
contents-body sofar (ok [] ∷ reads) h = ([], refl, sym (ok_injective h) ∙ sym (append-nil sofar))
contents-body sofar (ok (b ∷ bs) ∷ reads) h =
    let (rest, e, t) = contents-body (sofar ++ b ∷ bs) reads h in
    (b ∷ bs ++ rest, rw e refl, t ∙ append_assoc sofar (b ∷ bs) rest)

not-true : (b : Bool) → not b ≡ true → b ≡ false
not-true b h = ground arith

pub verify-IsRegular :
    (p : Primitives) (file : File) (bytes : ℕ) (sha : Bytes)
    → verify p file bytes sha ≡ ok tt
    → IsRegular p file bytes sha
unfolding verify
verify-IsRegular p file bytes sha h =
    let (good, h₁) = ensure-eq-ok (not file.is_link && file.is_file && file.len == bytes) _ _ h in
    let (total, read, h₂) = >>=-eq-ok (contents [] file.reads) _ h₁ in
    let same = ensure-ok (equal (digest p total) sha) _ h₂ in
    let (rest, e, t) = contents-body [] file.reads read in
    let (more, len) = and_split (not file.is_link && file.is_file) _ good in
    let (link, is_file) = and_split (not file.is_link) _ more in
    record {
      held = rest;
      no_link = not-true file.is_link link;
      regular = is_file;
      size = (==_iff file.len bytes).0 len;
      read = e;
      hash = ap (digest p) (sym t) ∙ (equal_iff (digest p total) sha).0 same;
    }

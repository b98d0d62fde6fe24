-- ===== src/Download/Whole.antt =====
-- `download` of src/service.rs: what is stored does not depend on how the response was cut into
-- chunks.
use moenotes_assets.Base.{
  ℕ, ◌+◌, ◌≤◌, Bool, true, false, List, [], ◌∷◌, ◌++◌, ◌≡◌, ◌⊎◌, inl, inr, refl, arith, leb, ◌==◌,
  length, length-append, append-nil, append_assoc, dec_le,
}
use moenotes_assets.Base.Outcome.{Result, ok, ensure, ◌>>◌}
use moenotes_assets.Base.Bytes.{Bytes, le}
use moenotes_assets.Crypto.{Primitives, valid_basename}
use moenotes_assets.Crypto.Stream.{decrypt-plain, plain, plain-append}
use moenotes_assets.Download.{receive, decoded}

unfoldable pub joined : List Bytes → Bytes
joined [] = []
joined (c ∷ cs) = c ++ joined cs

-- The size is judged on the whole body, which is decoded in one piece.
unfoldable pub receive_whole : Primitives → ℕ → Bool → Bytes → Bytes → Result Bytes
unfolding decoded
receive_whole p size crypt name body = do
  ensure (leb (length body) size) "download exceeds catalog size"
  ensure (length body == size) "truncated download"
  decoded p crypt name 0 body

module _ (p : Primitives) (name : Bytes) where
  unfoldable pub content : Bool → ℕ → Bytes → Bytes
  content true at xs = plain p name at xs
  content false at xs = xs

  decoded-content :
      (crypt : Bool) (at : ℕ) (xs : Bytes)
      → crypt ≡ false ⊎ valid_basename name ≡ true
      → decoded p crypt name at xs ≡ ok (content crypt at xs)
  unfolding decoded content
  decoded-content true at xs (inl e) = absurd (cc (e))
  decoded-content true at xs (inr v) = decrypt-plain p name xs at v
  decoded-content false at xs v = refl

  content-append :
      (crypt : Bool) (at : ℕ) (xs ys : Bytes)
      → content crypt at (xs ++ ys) ≡ content crypt at xs ++ content crypt (at + length xs) ys
  unfolding content
  content-append true at xs ys = plain-append p name at xs ys
  content-append false at xs ys = refl

  content_none : (crypt : Bool) (at : ℕ) → content crypt at [] ≡ []
  unfolding content plain
  content_none true at = refl
  content_none false at = refl

  receive_from :
      (size : ℕ) (crypt : Bool) (received : ℕ) (file : Bytes) (chunks : List Bytes)
      → crypt ≡ false ⊎ valid_basename name ≡ true
      → received ≤ size
      → receive p size crypt name received file chunks ≡ (do
        ensure (leb (received + length (joined chunks)) size) "download exceeds catalog size"
        ensure (received + length (joined chunks) == size) "truncated download"
        ok (file ++ content crypt received (joined chunks)))
  unfolding receive joined
  receive_from size crypt received file [] v h =
      rw (content_none crypt received, append-nil file) (ground arith)
  receive_from size crypt received file (c ∷ cs) v h =
      let rest =
        receive_from size crypt (received + length c) (file ++ content crypt received c) cs v in
      let same =
        append_assoc file (content crypt received c)
          (content crypt (received + length c) (joined cs)) in
      rw
        (
          decoded-content crypt received c v,
          content-append crypt received c (joined cs),
          length-append c (joined cs),
        )
        (elim (dec_le (received + length c) size) [
          | yes le ↦ let e = rw same at rest le in ground arith
          | no gt ↦ ground arith
        ])

  -- Where no chunk needs a decryption that its name refuses, the download stores the same file, or
  -- fails with the same message, as one that receives the whole body at once and decodes it in one
  -- piece, for every division of the body into chunks.
  pub receive-receive_whole :
      (size : ℕ) (crypt : Bool) (chunks : List Bytes)
      → crypt ≡ false ⊎ valid_basename name ≡ true
      → receive p size crypt name 0 [] chunks ≡ receive_whole p size crypt name (joined chunks)
  unfolding receive_whole
  receive-receive_whole size crypt chunks v =
      let t = receive_from size crypt 0 [] chunks v (omega arith) in
      let e = decoded-content crypt 0 (joined chunks) v in ground arith

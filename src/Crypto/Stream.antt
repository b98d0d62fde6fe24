-- ===== src/Crypto/Stream.antt =====
-- `decrypt` of src/crypto.rs as a stream cipher: the chunks of a download can be decrypted one by
-- one.
use mathlib.Core.Path.{ap₂}
use moenotes_assets.Base.{
  ℕ, zero, suc, ◌+◌, ◌-◌, ◌≤◌, ◌<◌, min, bit_xor, true, false, [], ◌∷◌, ◌++◌, ◌≡◌, refl, sym, ap,
  ◌∙◌, arith, ltb, ◌==◌, if◌then◌else◌, length, take, drop,
}
use moenotes_assets.Base.Outcome.{ok, ◌>>=◌}
use moenotes_assets.Base.Bytes.{Bytes}
use moenotes_assets.Crypto.{
  Primitives, decrypt, apply_keystream, stream_byte, encrypted, valid_basename,
}

module _ (p : Primitives) where
  -- The key stream reaches the bytes before offset 16384 and no others.
  unfoldable pub masked : Bytes → ℕ → ℕ → ℕ
  masked name at x = if ltb at encrypted then bit_xor x (stream_byte p name at) else x

  masked_inside :
      (name : Bytes) (at x : ℕ)
      → at < encrypted
      → masked name at x ≡ bit_xor x (stream_byte p name at)
  unfolding masked
  masked_inside name at x h = ground arith

  masked_beyond : (name : Bytes) (at x : ℕ) → encrypted ≤ at → masked name at x ≡ x
  unfolding masked
  masked_beyond name at x h = ground arith

  unfoldable pub plain : Bytes → ℕ → Bytes → Bytes
  plain name at [] = []
  plain name at (x ∷ xs) = masked name at x ∷ plain name (at + 1) xs

  plain_beyond : (name : Bytes) (at : ℕ) (xs : Bytes) → encrypted ≤ at → plain name at xs ≡ xs
  unfolding plain
  plain_beyond name at [] h = refl
  plain_beyond name at (x ∷ xs) h =
      ap₂ (λ y ys. y ∷ ys) (masked_beyond name at x h) (plain_beyond name (at + 1) xs (omega arith))

  apply_plain :
      (name : Bytes) (at n : ℕ) (xs : Bytes)
      → n ≡ min (length xs) (encrypted - at)
      → apply_keystream p name at (take n xs) ++ drop n xs ≡ plain name at xs
  unfolding apply_keystream plain
  apply_plain name at zero [] e = refl
  apply_plain name at (suc n) [] e = refl
  apply_plain name at zero (x ∷ xs) e = sym (plain_beyond name at (x ∷ xs) (ground arith))
  apply_plain name at (suc n) (x ∷ xs) e =
      let rest = apply_plain name (at + 1) n xs (ground arith) in
      let lt : at < encrypted = ground arith in
      ap₂ (λ y ys. y ∷ ys) (sym (masked_inside name at x lt)) rest

  enciphered_prefix :
      (name : Bytes) (at : ℕ) (xs : Bytes) (n : ℕ)
      → (if n == 0 then ok xs else ok (apply_keystream p name at (take n xs) ++ drop n xs))
        ≡ ok (apply_keystream p name at (take n xs) ++ drop n xs)
  unfolding apply_keystream
  enciphered_prefix name at xs zero = refl
  enciphered_prefix name at xs (suc n) = let h : (suc n == 0) ≡ false = ground arith in rw h refl

  pub decrypt-plain :
      (name : Bytes) (bytes : Bytes) (offset : ℕ)
      → valid_basename name ≡ true
      → decrypt p bytes name offset ≡ ok (plain name offset bytes)
  unfolding decrypt
  decrypt-plain name bytes offset v =
      let n = min (length bytes) (encrypted - offset) in
      rw v (enciphered_prefix name offset bytes n ∙ ap ok (apply_plain name offset n bytes refl))

  pub plain-append :
      (name : Bytes) (at : ℕ) (xs ys : Bytes)
      → plain name at (xs ++ ys) ≡ plain name at xs ++ plain name (at + length xs) ys
  unfolding plain
  plain-append name at [] ys = ap (λ n. plain name n ys) (omega arith)
  plain-append name at (x ∷ xs) ys =
      let e = plain-append name (at + 1) xs ys in
      let f : at + 1 + length xs ≡ at + suc (length xs) = omega arith in
      ap (λ l. masked name at x ∷ l) (e ∙ ap (λ n. plain name (at + 1) xs ++ plain name n ys) f)

  length-plain : (name : Bytes) (at : ℕ) (xs : Bytes) → length (plain name at xs) ≡ length xs
  unfolding plain
  length-plain name at [] = refl
  length-plain name at (x ∷ xs) = ap suc (length-plain name (at + 1) xs)

  -- For a valid name, the decryption of two parts, the second from the offset where the first ends,
  -- put together is the decryption of the whole.
  pub decrypt-append :
      (name : Bytes) (at : ℕ) (xs ys : Bytes)
      → valid_basename name ≡ true
      → decrypt p (xs ++ ys) name at
        ≡ (decrypt p xs name at >>= λ a. decrypt p ys name (at + length xs) >>= λ b. ok (a ++ b))
  decrypt-append name at xs ys v =
      rw
        (
          decrypt-plain name xs at v,
          decrypt-plain name ys (at + length xs) v,
          decrypt-plain name (xs ++ ys) at v,
          plain-append name at xs ys,
        )
        refl

  -- The text of the bytes of a bundle from offset `at` on, one by one: below offset 16384 a byte is
  -- exclusive-or'ed with the AES key stream of the fixed key, under the counter block that starts with
  -- the first eight bytes of the salted hash of the name.
  unfoldable pub deciphered : Bytes → ℕ → Bytes → Bytes
  deciphered name at [] = []
  deciphered name at (x ∷ xs) =
      (if ltb at 16384
        then bit_xor x (
            p.keystream
              (0x73 ∷ 0x72 ∷ 0xa4 ∷ 0xee ∷ 0x77 ∷ 0x7d ∷ 0xb3 ∷ 0x61 ∷ 0xad ∷ 0x89 ∷ 0x6c ∷ 0x99
                ∷ 0xe4 ∷ 0x08 ∷ 0xa1 ∷ 0x82 ∷ [])
              (take 8 (p.sha256 (0xee ∷ 0x24 ∷ 0xa7 ∷ 0x02 ∷ 0x38 ∷ 0xe2 ∷ 0xa0 ∷ 0xe5 ∷ name))
                ++ 0 ∷ 0 ∷ 0 ∷ 0 ∷ 0 ∷ 0 ∷ 0 ∷ 0 ∷ [])
              at)
        else x)
      ∷ deciphered name (at + 1) xs

  plain-deciphered : (name : Bytes) (at : ℕ) (xs : Bytes) → plain name at xs ≡ deciphered name at xs
  unfolding plain masked stream_byte deciphered
  plain-deciphered name at [] = refl
  plain-deciphered name at (x ∷ xs) =
      ap (λ ys. masked name at x ∷ ys) (plain-deciphered name (at + 1) xs)

  -- For a valid name, decryption succeeds, and gives the bytes deciphered one by one: those at offsets
  -- below 16384 with the key stream at their own offset, all others as they are.
  pub decrypt-deciphered :
      (name bytes : Bytes) (offset : ℕ)
      → valid_basename name ≡ true
      → decrypt p bytes name offset ≡ ok (deciphered name offset bytes)
  decrypt-deciphered name bytes offset v =
      decrypt-plain name bytes offset v ∙ ap ok (plain-deciphered name offset bytes)

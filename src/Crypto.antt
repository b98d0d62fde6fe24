-- ===== src/Crypto.antt =====
-- src/crypto.rs: `digest`, `builtin`, `decrypt` and the bounded writer of `bundle_crc`. SHA-256 and
-- AES-128 in CTR mode are third-party code, and parameters: `keystream key iv p` is the byte that the
-- cipher, sought to offset `p`, applies next.
pub mod Stream
pub mod Crc
use moenotes_assets.Base.{
  ℕ, zero, suc, ◌+◌, ◌-◌, ◌*◌, ◌/◌, ◌%◌, ◌^◌, ◌≤◌, ◌<◌, min, bit_xor, Bool, true, false, not, ◌&&◌,
  ◌||◌, Option, none, some, List, [], ◌∷◌, ◌++◌, map, ◌≡◌, ◌≢◌, ◌↔◌, ◌⊎◌, inl, inr, refl, sym, ap,
  ◌∙◌, arith, leb, ltb, ◌==◌, within, if◌then◌else◌, length, take, drop, replicate, get_or,
  get_elem?, all, any, All, String, Bool-cases, Option-cases,
}
use moenotes_assets.Base.Outcome.{
  Result, ok, err, ensure, context, collect, ◌>>=◌, ◌>>◌, >>=-eq-ok, ensure-eq-ok,
}
use moenotes_assets.Base.Bytes.{
  Bytes, IsBytes, codes, equal, starts_with, range, checked_add, be, le,
}

pub record Primitives : Type 0 where
  pub sha256 : Bytes → Bytes
  pub keystream : Bytes → Bytes → ℕ → ℕ

abbrev pub hex_digit : ℕ → ℕ
hex_digit n = if ltb n 10 then b'0' + n else b'a' + (n - 10)

-- `hex::encode`
unfoldable pub hex : Bytes → Bytes
hex [] = []
hex (b ∷ bs) = hex_digit (b / 16) ∷ hex_digit (b % 16) ∷ hex bs

unfoldable pub digest : Primitives → Bytes → Bytes
unfolding hex
digest p b = hex (p.sha256 b)

unfoldable pub to_ascii_lowercase : Bytes → Bytes
to_ascii_lowercase = map (λ c. if within b'A' b'Z' c then c + 32 else c)

-- `str::contains` and `str::ends_with`
unfoldable pub contains : Bytes → Bytes → Bool
contains [] s = starts_with [] s
contains (x ∷ xs) s = starts_with (x ∷ xs) s || contains xs s

unfoldable pub ends_with : Bytes → Bytes → Bool
ends_with xs s = leb (length s) (length xs) && equal (drop (length xs - length s) xs) s

unfoldable pub builtin : Bytes → Bool
unfolding to_ascii_lowercase contains ends_with
builtin name =
    let s = to_ascii_lowercase name in
    contains s (codes "_monoscripts_")
    || contains s (codes "_unitybuiltinassets_")
    || ends_with s (codes "_monoscripts.bundle")
    || ends_with s (codes "_unitybuiltinassets.bundle")

abbrev is_empty : Bytes → Bool
is_empty [] = true
is_empty (x ∷ xs) = false

unfoldable pub valid_basename : Bytes → Bool
valid_basename name = not (is_empty name) && not (any (λ c. c == b'/' || c == b'\\') name)

abbrev key_bytes : Bytes
key_bytes =
    0x73 ∷ 0x72 ∷ 0xa4 ∷ 0xee ∷ 0x77 ∷ 0x7d ∷ 0xb3 ∷ 0x61 ∷ 0xad ∷ 0x89 ∷ 0x6c ∷ 0x99 ∷ 0xe4 ∷ 0x08
    ∷ 0xa1 ∷ 0x82 ∷ []

abbrev nonce_prefix : Bytes
nonce_prefix = 0xee ∷ 0x24 ∷ 0xa7 ∷ 0x02 ∷ 0x38 ∷ 0xe2 ∷ 0xa0 ∷ 0xe5 ∷ []

-- The encrypted part of a bundle is its first 16384 bytes.
abbrev pub encrypted : ℕ
encrypted = 16384

module _ (p : Primitives) where
  unfoldable pub stream_byte : Bytes → ℕ → ℕ
  stream_byte name =
      p.keystream key_bytes (take 8 (p.sha256 (nonce_prefix ++ name)) ++ replicate 8 0)

  -- `apply_keystream` on the bytes from offset `at`
  unfoldable pub apply_keystream : Bytes → ℕ → Bytes → Bytes
  apply_keystream name at [] = []
  apply_keystream name at (x ∷ xs) =
      bit_xor x (stream_byte name at) ∷ apply_keystream name (at + 1) xs

  unfoldable pub decrypt : Bytes → Bytes → ℕ → Result Bytes
  decrypt bytes name offset = do
    ensure (valid_basename name) "invalid original basename"
    let n = min (length bytes) (encrypted - offset)
    if n == 0 then ok bytes else ok (apply_keystream name offset (take n bytes) ++ drop n bytes)

-- `BoundedVec::write`: the buffer after the write, or a refusal that leaves it.
unfoldable pub write : ℕ → Bytes → Bytes → Result Bytes
write max written b = do
  ensure (leb (length b) (max - length written)) "expanded size limit"
  ok (written ++ b)

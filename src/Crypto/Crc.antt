-- ===== src/Crypto/Crc.antt =====
-- `bundle_crc` of src/crypto.rs on an opened bundle. The decompressors and the checksum are
-- third-party code, and parameters; LZMA gives the writes that it makes.
use mathlib.Core.Path.{subst}
use moenotes_assets.Base.{
  ℕ, ◌+◌, ◌≤◌, ◌&&◌, List, [], ◌∷◌, ◌++◌, ◌≡◌, arith, leb, ◌==◌, length, length-append, leb→le,
}
use moenotes_assets.Base.Outcome.{
  Result, ok, err, ensure, context, ◌>>=◌, ◌>>◌, >>=-eq-ok, ensure-eq-ok, ok_injective,
}
use moenotes_assets.Base.Bytes.{Bytes, range, checked_add}
use moenotes_assets.Crypto.{write}

pub data Compression : Type 0 where
  uncompressed lz4 lz4_hc lzma other : Compression

pub record Block : Type 0 where
  pub compression : Compression
  pub compressed_offset : ℕ
  pub compressed_size : ℕ
  pub uncompressed_size : ℕ

pub record Codecs : Type 0 where
  pub lz4_decompress : Bytes → ℕ → Result Bytes
  pub lzma_decompress : Bytes → Result (List Bytes)
  pub crc32 : Bytes → ℕ

unfoldable pub write_all : ℕ → Bytes → List Bytes → Result Bytes
write_all max out [] = ok out
write_all max out (b ∷ bs) = do more ← write max out b; write_all max more bs

module _ (codecs : Codecs) where
  unfoldable pub decompress : Compression → Bytes → ℕ → Result Bytes
  decompress uncompressed raw size = ok raw
  decompress lz4 raw size = codecs.lz4_decompress raw size
  decompress lz4_hc raw size = codecs.lz4_decompress raw size
  decompress lzma raw size = do writes ← codecs.lzma_decompress raw; write_all size [] writes
  decompress other raw size = err "unsupported CRC compression"

  -- The loop over the blocks, with the expanded size so far and what was hashed so far
  unfoldable pub blocks_loop : Bytes → ℕ → List Block → ℕ → Bytes → Result Bytes
  blocks_loop file max [] total hashed = ok hashed
  blocks_loop file max (b ∷ bs) total hashed = do
    more ← context (checked_add total b.uncompressed_size) "block size overflow"
    ensure (leb more max) "bundle expanded budget"
    ensure (leb b.compressed_size max && leb b.uncompressed_size max) "block budget"
    raw ←
        context (range file b.compressed_offset (b.compressed_offset + b.compressed_size))
          "failed to fill whole buffer"
    plain ← decompress b.compression raw b.uncompressed_size
    ensure (length plain == b.uncompressed_size) "block size mismatch"
    blocks_loop file max bs more (hashed ++ plain)

  unfoldable pub bundle_crc : Bytes → ℕ → List Block → ℕ → Result ℕ
  bundle_crc file header_size blocks max = do
    ensure (header_size == length file) "UnityFS declared size mismatch"
    hashed ← blocks_loop file max blocks 0 []
    ok (codecs.crc32 hashed)

  -- What is hashed for a bundle is never longer than the expanded budget.
  pub blocks_loop-le :
      (file : Bytes) (max : ℕ) (blocks : List Block) (total : ℕ) (hashed : Bytes) {out : Bytes}
      → length hashed ≡ total
      → total ≤ max
      → blocks_loop file max blocks total hashed ≡ ok out
      → length out ≤ max
  unfolding blocks_loop
  blocks_loop-le file max [] total hashed e l h =
      subst (λ (x : Bytes). length x ≤ max) (ok_injective h) (omega arith)
  blocks_loop-le file max (b ∷ bs) total hashed e l h =
      let (more, c, h₁) = >>=-eq-ok (context (checked_add total b.uncompressed_size) _) _ h in
      let (budget, h₂) = ensure-eq-ok (leb more max) _ _ h₁ in
      let (block, h₃) =
        ensure-eq-ok (leb b.compressed_size max && leb b.uncompressed_size max) _ _ h₂ in
      let (raw, r, h₄) =
        >>=-eq-ok
          (context (range file b.compressed_offset (b.compressed_offset + b.compressed_size)) _) _
          h₃ in
      let (plain, p, h₅) = >>=-eq-ok (decompress b.compression raw b.uncompressed_size) _ h₄ in
      let (size, h₆) = ensure-eq-ok (length plain == b.uncompressed_size) _ _ h₅ in
      let same : length plain ≡ b.uncompressed_size = ground arith in
      let sum : more ≡ total + b.uncompressed_size = ground arith in
      blocks_loop-le file max bs more (hashed ++ plain) (omega (arith, length-append hashed plain))
        (leb→le more max budget) h₆

-- ===== src/Adx.antt =====
-- src/adx.rs: `normalize`, which checks the header and the footer of an ADX file and pads its
-- blocks to whole packets of 128.
pub mod Packets
use moenotes_assets.Base.{
  ℕ, ◌+◌, ◌-◌, ◌*◌, ◌/◌, ◌%◌, Bool, ◌&&◌, ◌||◌, List, [], ◌∷◌, ◌++◌, leb, ltb, ◌==◌, within,
  if◌then◌else◌, length, take, drop, replicate, all, get_or,
}
use moenotes_assets.Base.Outcome.{Result, ok, ensure, ◌>>=◌, ◌>>◌}
use moenotes_assets.Base.Bytes.{Bytes, codes, equal, be}

pub record Info : Type 0 where
  pub channels : ℕ
  pub rate : ℕ
  pub samples : ℕ
  pub padded_blocks : ℕ

-- `raw[p..q]`, for `p ≤ q ≤ raw.len()`
abbrev pub part : Bytes → ℕ → ℕ → Bytes
part raw p q = take (q - p) (drop p raw)

-- The reads stand behind `raw.len() >= 20`, and those at `header` behind `header <= raw.len()`.
unfoldable pub header_size : Bytes → ℕ
header_size raw = be (part raw 2 4) + 4

unfoldable pub channels_of : Bytes → ℕ
channels_of raw = get_or raw 7 0

unfoldable pub rate_of : Bytes → ℕ
rate_of raw = be (part raw 8 12)

unfoldable pub samples_of : Bytes → ℕ
samples_of raw = be (part raw 12 16)

unfoldable pub supported_header : Bytes → Bool
supported_header raw =
    leb 20 (length raw)
    && equal (take 2 raw) (0x80 ∷ 0 ∷ [])
    && equal (part raw 4 7) (3 ∷ 18 ∷ 4 ∷ [])

unfoldable pub valid_header : Bytes → Bool
valid_header raw =
    leb 20 (header_size raw)
    && leb (header_size raw) (length raw)
    && equal (part raw (header_size raw - 6) (header_size raw)) (codes "(c)CRI")
    && within 1 2 (channels_of raw)
    && within 8000 192000 (rate_of raw)
    && ltb 0 (samples_of raw)
    && (get_or raw 18 0 == 3 || get_or raw 18 0 == 4)
    && get_or raw 19 0 == 0

-- `(samples as usize).div_ceil(32)`
unfoldable pub blocks_of : Bytes → ℕ
blocks_of raw = (samples_of raw + 31) / 32

unfoldable pub end_of : Bytes → ℕ
end_of raw = header_size raw + blocks_of raw * 18 * channels_of raw

unfoldable pub valid_footer : Bytes → Bool
valid_footer tail =
    leb 4 (length tail)
    && equal (take 2 tail) (0x80 ∷ 1 ∷ [])
    && be (part tail 2 4) + 4 == length tail
    && all (λ v. v == 0) (drop 4 tail)

unfoldable pub padding : ℕ → ℕ
padding blocks = (128 - blocks % 128) % 128

unfoldable pub normalize : Bytes → ℕ → Result (Bytes × Info)
normalize raw limit = do
  ensure (supported_header raw) "unsupported ADX header"
  ensure (valid_header raw) "invalid/encrypted ADX header"
  ensure (leb (samples_of raw * channels_of raw * 2) limit) "ADX PCM budget"
  ensure (leb (end_of raw) (length raw)) "ADX sample count exceeds payload"
  ensure (valid_footer (drop (end_of raw) raw)) "invalid ADX footer or sample count"
  let padded_blocks = padding (blocks_of raw)
  ok (
    take (end_of raw) raw ++ replicate (padded_blocks * 18 * channels_of raw) 0,
    record {
      channels = channels_of raw;
      rate = rate_of raw;
      samples = samples_of raw;
      padded_blocks = padded_blocks;
    },
  )

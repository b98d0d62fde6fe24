-- ===== src/Embedded.antt =====
-- src/embedded.rs: the reader and `extract`. The reader's position is passed on; an `i64` is only
-- compared, and stands here as the number of its eight bytes.
pub mod Payload
pub mod Schema
use moenotes_assets.Base.{
  ℕ, zero, suc, ◌+◌, ◌-◌, ◌*◌, ◌/◌, ◌%◌, ◌^◌, ◌≤◌, ◌<◌, min, bit_xor, Bool, true, false, not, ◌&&◌,
  ◌||◌, Option, none, some, List, [], ◌∷◌, ◌++◌, map, ◌≡◌, ◌≢◌, ◌↔◌, ◌⊎◌, inl, inr, refl, sym, ap,
  ◌∙◌, arith, leb, ltb, ◌==◌, within, if◌then◌else◌, length, take, drop, replicate, get_or,
  get_elem?, all, any, All, String, Bool-cases, Option-cases,
}
use moenotes_assets.Base.Outcome.{
  Result, ok, err, ensure, context, collect, ◌>>=◌, ◌>>◌, >>=-eq-ok, ensure-eq-ok,
}
use moenotes_assets.Base.Bytes.{
  Bytes, IsBytes, codes, equal, starts_with, range, checked_add, be, le,
}
use moenotes_assets.Base.Utf8.{from_utf8}

abbrev class : Bytes
class = codes "CriSerializedBytesAssetImpl"

abbrev namespace : Bytes
namespace = codes "CriWare.Assets"

abbrev assembly : Bytes
assembly = codes "CriMw.CriWare.Assets.Runtime"

abbrev pub is_zero : Bytes → Bool
is_zero = all (λ v. v == 0)

module _ (bytes : Bytes) where
  unfoldable pub take_next : ℕ → ℕ → Result (Bytes × ℕ)
  take_next n pos = do
    end ← context (checked_add pos n) "embedded offset overflow"
    value ← context (range bytes pos end) "truncated embedded CRI"
    ok (value, end)

  unfoldable pub word : ℕ → ℕ → Result (ℕ × ℕ)
  word n pos = do (b, end) ← take_next n pos; ok (le b, end)

  unfoldable pub align : ℕ → Result ℕ
  align pos = do
    (b, end) ← take_next ((pos + 3) / 4 * 4 - pos) pos
    ensure (is_zero b) "nonzero embedded alignment"
    ok end

  unfoldable pub string : ℕ → Result (Bytes × ℕ)
  string pos = do
    (n, at) ← word 4 pos
    ensure (leb n 4096) "embedded string budget"
    (b, end) ← take_next n at
    value ← from_utf8 b
    next ← align end
    ok (value, next)

  -- Up to the id of the implementation
  unfoldable pub behaviour : Result (ℕ × ℕ)
  behaviour = do
    (_, p₁) ← take_next 12 0
    (enabled, p₂) ← take_next 1 p₁
    ensure (leb (le enabled) 1) "invalid behaviour enabled"
    p₃ ← align p₂
    (_, p₄) ← take_next 12 p₃
    (_, p₅) ← string p₄
    word 8 p₅

  -- From there to the payload
  unfoldable pub registry : ℕ → ℕ → Result ℕ
  registry rid p₀ = do
    (awb, p₁) ← take_next 12 p₀
    ensure (is_zero awb) "external AWB reference unsupported"
    (more, p₂) ← word 4 p₁
    ensure (more == 0) "additional AWB references unsupported"
    (version, p₃) ← word 4 p₂
    ensure (version == 2) "unsupported embedded reference registry"
    (count, p₄) ← word 4 p₃
    ensure (count == 1) "unsupported embedded reference registry"
    (id, p₅) ← word 8 p₄
    ensure (id == rid) "unsupported embedded reference registry"
    (c, p₆) ← string p₅
    ensure (equal c class) "unsupported embedded implementation"
    (n, p₇) ← string p₆
    ensure (equal n namespace) "unsupported embedded implementation"
    (a, p₈) ← string p₇
    ensure (equal a assembly) "unsupported embedded implementation"
    ok p₈

  unfoldable pub payload : ℕ → ℕ → Result Bytes
  payload limit pos = do
    (n, at) ← word 4 pos
    ensure (ltb 0 n && leb n limit) "embedded payload budget"
    (content, next) ← take_next n at
    end ← align next
    ensure (end == length bytes) "unexpected embedded wrapper trailing bytes"
    ensure (starts_with content (codes "@UTF") || starts_with content (codes "CRID"))
        "embedded CRI payload signature"
    ok content

unfoldable pub extract : Bytes → ℕ → Result Bytes
extract raw limit = do
  (rid, at) ← behaviour raw
  start ← registry raw rid at
  payload raw limit start

-- ===== src/Download.antt =====
-- The loop of `download` in src/service.rs that receives a payload: the chunks of the response are a
-- list, the file is the bytes written so far.
pub mod Whole
use moenotes_assets.Base.{
  ℕ, zero, suc, ◌+◌, ◌-◌, ◌*◌, ◌/◌, ◌%◌, ◌^◌, ◌≤◌, ◌<◌, min, bit_xor, Bool, true, false, not, ◌&&◌,
  ◌||◌, Option, none, some, List, [], ◌∷◌, ◌++◌, map, ◌≡◌, ◌≢◌, ◌↔◌, ◌⊎◌, inl, inr, refl, sym, ap,
  ◌∙◌, arith, leb, ltb, ◌==◌, within, if◌then◌else◌, length, take, drop, replicate, get_or,
  get_elem?, all, any, All, String, Bool-cases, Option-cases,
}
use moenotes_assets.Base.Outcome.{
  Result, ok, err, ensure, context, collect, ◌>>=◌, ◌>>◌, >>=-eq-ok, ensure-eq-ok,
}
use moenotes_assets.Base.Bytes.{
  Bytes, IsBytes, codes, equal, starts_with, range, checked_add, be, le,
}
use moenotes_assets.Crypto.{Primitives, decrypt}

unfoldable pub decoded : Primitives → Bool → Bytes → ℕ → Bytes → Result Bytes
decoded p crypt name offset chunk = if crypt then decrypt p chunk name offset else ok chunk

-- `crypt` is the loop's `location.provider==CRYPT&&!crypto::builtin(name)`.
unfoldable pub receive : Primitives → ℕ → Bool → Bytes → ℕ → Bytes → List Bytes → Result Bytes
unfolding decoded
receive p size crypt name received file [] = do
  ensure (received == size) "truncated download"
  ok file
receive p size crypt name received file (chunk ∷ chunks) = do
  ensure (leb (received + length chunk) size) "download exceeds catalog size"
  bytes ← decoded p crypt name received chunk
  receive p size crypt name (received + length chunk) (file ++ bytes) chunks

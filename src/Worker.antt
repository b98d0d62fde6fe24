-- ===== src/Worker.antt =====
-- src/worker.rs: the checks of the IVF file and of the wave bank, made before a converter runs,
-- and the archive of the inputs.
pub mod Packets
pub mod Waves
pub mod Bank
pub mod Archive
pub mod Kinds
pub mod Copies
pub mod Accepted
use moenotes_assets.Base.{
  ℕ, zero, suc, ◌+◌, ◌-◌, ◌*◌, ◌/◌, ◌%◌, ◌^◌, ◌≤◌, ◌<◌, min, bit_xor, Bool, true, false, not, ◌&&◌,
  ◌||◌, Option, none, some, List, [], ◌∷◌, ◌++◌, map, ◌≡◌, ◌≢◌, ◌↔◌, ◌⊎◌, inl, inr, refl, sym, ap,
  ◌∙◌, arith, leb, ltb, ◌==◌, within, if◌then◌else◌, length, take, drop, replicate, get_or,
  get_elem?, all, any, All, String, Bool-cases, Option-cases,
}
use moenotes_assets.Base.Outcome.{
  Result, ok, err, ensure, context, collect, ◌>>=◌, ◌>>◌, >>=-eq-ok, ensure-eq-ok,
}
use moenotes_assets.Base.Bytes.{
  Bytes, IsBytes, codes, equal, starts_with, range, checked_add, be, le,
}
use mathlib.Core.Option.{some_inj, none-ne-some}
use mathlib.Core.Path.{subst, ap₂}
use mathlib.Core.List.{Memᴰ}
use mathlib.Core.List.Memᴰ
use moenotes_assets.Base.Outcome.{ok_injective, Result-cases}
use moenotes_assets.Base.{leb→le, and_split, ℕ_discrete, dec_le, dec_lt}
use moenotes_assets.Usm.Video.{VideoInfo}

abbrev ivf_magic : Bytes
ivf_magic = codes "DKIF" ++ 0 ∷ 0 ∷ 32 ∷ 0 ∷ codes "VP90"

-- The part of `b` from `p` on, `n` bytes long, of a header that is long enough.
abbrev pub slice : Bytes → ℕ → ℕ → Bytes
slice b p n = take n (drop p b)

-- `checked >>= next` under fuel
abbrev then_packet : Result (ℕ × ℕ) → (ℕ → ℕ → Option (Result ℕ)) → Option (Result ℕ)
then_packet (err e) next = some (err e)
then_packet (ok (offset, count)) next = next offset count

-- One packet of the loop of `validate_ivf`: the offset of the next, and its number.
unfoldable pub packet : Bytes → ℕ → ℕ → Result (ℕ × ℕ)
packet b offset count = do
  frame ← context (range b offset (offset + 12)) "unexpected end of file"
  let size = length b
  let len = le (take 4 frame)
  ensure
      (leb 12 (size - offset)
        && le (drop 4 frame) == count
        && ltb 0 len
        && leb len (size - offset - 12))
      "invalid IVF packet/PTS"
  ok (offset + (12 + len), count + 1)

-- The loop; `none` when the fuel is used up.
unfoldable pub packets : ℕ → Bytes → ℕ → ℕ → Option (Result ℕ)
packets zero b offset count = none
packets (suc fuel) b offset count =
    let more = then_packet (packet b offset count) (packets fuel b) in
    if ltb offset (length b) then more else some (ok count)

unfoldable pub ivf_header : Bytes → VideoInfo → Result (Unit {0})
ivf_header b info = do
  h ← context (range b 0 32) "unexpected end of file"
  ensure (equal (take 12 h) ivf_magic) "invalid IVF header"
  ensure
      (le (slice h 16 4) * info.fps_d == le (slice h 20 4) * info.fps_n
        && le (slice h 24 4) == info.frames)
      "IVF/USM timebase or frame count mismatch"
  ensure (le (slice h 12 2) == info.width && le (slice h 14 2) == info.height)
      "IVF/USM dimensions mismatch"

abbrev counted : VideoInfo → Option (Result ℕ) → Option (Result (Unit {0}))
counted info none = none
counted info (some r) =
    some (do count ← r; ensure (count == info.frames) "IVF actual packet count mismatch")

unfoldable pub validate_ivf : Bytes → VideoInfo → Option (Result (Unit {0}))
validate_ivf b info = elim (ivf_header b info) [
  | err e ↦ some (err e)
  | ok _ ↦ counted info (packets (length b + 1) b 32 0)
]

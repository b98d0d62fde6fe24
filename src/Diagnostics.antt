-- ===== src/Diagnostics.antt =====
-- src/diagnostics.rs: the bounded capture of a process's output, and what becomes of its end. The
-- reads of a pipe are a list; they end with an empty one.
pub mod Bounded
use moenotes_assets.Base.{
  ℕ, zero, suc, ◌+◌, ◌-◌, ◌*◌, ◌/◌, ◌%◌, ◌^◌, ◌≤◌, ◌<◌, min, bit_xor, Bool, true, false, not, ◌&&◌,
  ◌||◌, Option, none, some, List, [], ◌∷◌, ◌++◌, map, ◌≡◌, ◌≢◌, ◌↔◌, ◌⊎◌, inl, inr, refl, sym, ap,
  ◌∙◌, arith, leb, ltb, ◌==◌, within, if◌then◌else◌, length, take, drop, replicate, get_or,
  get_elem?, all, any, All, String, Bool-cases, Option-cases,
}
use moenotes_assets.Base.Outcome.{
  Result, ok, err, ensure, context, collect, ◌>>=◌, ◌>>◌, >>=-eq-ok, ensure-eq-ok,
}
use moenotes_assets.Base.Bytes.{
  Bytes, IsBytes, codes, equal, starts_with, range, checked_add, be, le,
}
use mathlib.Core.Option.{some_inj, none-ne-some}
use mathlib.Core.Path.{subst, ap₂}
use mathlib.Core.List.{Memᴰ}
use mathlib.Core.List.Memᴰ
use moenotes_assets.Base.Outcome.{ok_injective, Result-cases}
use moenotes_assets.Base.{leb→le, and_split, ℕ_discrete, dec_le, dec_lt}

unfoldable pub stderr_limit : ℕ
stderr_limit = 16 * 1024

unfoldable pub stdout_limit : ℕ
stdout_limit = 1024 * 1024

pub record Capture : Type 0 where
  pub bytes : Bytes
  pub total : ℕ

abbrev pub saturating_add : ℕ → ℕ → ℕ
saturating_add a b = min (a + b) (2 ^ 64 - 1)

unfoldable pub append : Capture → Bytes → ℕ → Bool → Capture
append c bytes limit tail =
    let fresh = drop (length bytes - limit) bytes in
    let remove = length c.bytes + length fresh - limit in
    record {
      bytes =
          if tail
          then drop remove c.bytes ++ fresh
          else c.bytes ++ take (min (length bytes) (limit - length c.bytes)) bytes;
      total = saturating_add c.total (length bytes);
    }

-- `drain` and `drain_async`
unfoldable pub drain_from : Capture → List (Result Bytes) → ℕ → Bool → Result Capture
drain_from c [] limit tail = ok c
drain_from c (err e ∷ reads) limit tail = err e
drain_from c (ok [] ∷ reads) limit tail = ok c
drain_from c (ok (b ∷ bs) ∷ reads) limit tail =
    drain_from (append c (b ∷ bs) limit tail) reads limit tail

unfoldable pub drain : List (Result Bytes) → ℕ → Bool → Result Capture
unfolding drain_from
drain reads limit tail = drain_from (record { bytes = []; total = 0 }) reads limit tail

-- How a process ended: with success, with another exit code, or by a signal.
pub data ExitStatus : Type 0 where
  success : ExitStatus
  failed : ℕ → ExitStatus
  signalled : ℕ → ExitStatus

abbrev pub is_success : ExitStatus → Bool
is_success success = true
is_success (failed n) = false
is_success (signalled n) = false

-- `nix::libc::SIGXCPU`, on Linux
abbrev pub sigxcpu : ℕ
sigxcpu = 24

abbrev stage_code : Bytes → String
stage_code stage =
    if equal stage (codes "probe")
    then "media_probe_failed"
    else if equal stage (codes "verify")
    then "media_verify_failed"
    else if equal stage (codes "decode")
    then "media_decode_failed"
    else "media_encode_failed"

unfoldable pub failure_code : Bool → ExitStatus → Bytes → String
failure_code too_long status stage = if too_long then "process_output_limit" else elim status [
  | signalled n ↦ if n == sigxcpu then "process_cpu_limit" else "process_signal"
  | failed n ↦ stage_code stage
  | success ↦ stage_code stage
]

-- What a child process does: it starts, ends and writes.
pub record Child : Type 0 where
  pub spawned : Bool
  pub waited : Result ExitStatus
  pub stdout : List (Result Bytes)
  pub stderr : List (Result Bytes)

-- An error of `ProcessFailure` is its code.
unfoldable pub capture : Child → Bytes → Result Bytes
capture child stage = do
  ensure child.spawned "process_spawn_failed"
  status ← child.waited
  out ← drain child.stdout stdout_limit false
  errors ← drain child.stderr stderr_limit true
  let too_long = ltb stdout_limit out.total
  ensure (is_success status && not too_long) (failure_code too_long status stage)
  ok out.bytes

-- ===== src/Upload.antt =====
-- src/upload.rs: what is put, verified and noted in the journal. What the server answers and when
-- the upload is cancelled are values that the functions take; signing is in Upload/Signing.
pub mod Signing
pub mod Address
pub mod Readback
pub mod Attempts
pub mod Whole
use moenotes_assets.Base.{
  ℕ, zero, suc, ◌+◌, ◌-◌, ◌*◌, ◌/◌, ◌%◌, ◌^◌, ◌≤◌, ◌<◌, min, bit_xor, Bool, true, false, not, ◌&&◌,
  ◌||◌, Option, none, some, List, [], ◌∷◌, ◌++◌, map, ◌≡◌, ◌≢◌, ◌↔◌, ◌⊎◌, inl, inr, refl, sym, ap,
  ◌∙◌, arith, leb, ltb, ◌==◌, within, if◌then◌else◌, length, take, drop, replicate, get_or,
  get_elem?, all, any, All, String, Bool-cases, Option-cases,
}
use moenotes_assets.Base.Outcome.{
  is_ok, Result, ok, err, ensure, context, collect, ◌>>=◌, ◌>>◌, >>=-eq-ok, ensure-eq-ok,
}
use moenotes_assets.Base.Bytes.{
  Bytes, IsBytes, codes, equal, starts_with, range, checked_add, be, le,
}
use mathlib.Core.Option.{some_inj, none-ne-some}
use mathlib.Core.Path.{subst, ap₂}
use mathlib.Core.List.{Memᴰ}
use mathlib.Core.List.Memᴰ
use moenotes_assets.Base.Outcome.{is_ok, ok_injective, Result-cases}
use moenotes_assets.Base.{leb→le, and_split, ℕ_discrete, dec_le, dec_lt}
use moenotes_assets.Crypto.{Primitives, digest}
use moenotes_assets.Tree.{Object}

-- One item of `bytes_stream`: a chunk, or a failed read.
pub data Item : Type 0 where
  chunk : Bytes → Item
  broken : Item

pub record Response : Type 0 where
  pub status : ℕ
  pub content_length : Option ℕ
  pub body : List Item

-- The loop of `S3::verify`; the hash is that of the chunks so far, and the count is a `u64`.
unfoldable pub readback : ℕ → ℕ → Bytes → List Item → Result (ℕ × Bytes)
readback size count sofar [] = ok (count, sofar)
readback size count sofar (broken ∷ rest) = err "S3 verification interrupted"
readback size count sofar (chunk b ∷ rest) = do
  let count' = (count + length b) % 2 ^ 64
  ensure (leb count' size) "S3 verification excess bytes"
  readback size count' (sofar ++ b) rest

-- `S3::verify` after `send`; `none` is a transport error.
unfoldable pub verify : Primitives → Object → Option Response → Result (Unit {0})
unfolding readback
verify p o answer = do
  response ← context answer "S3 verification transport failed"
  ensure (response.status == 200) "S3 verification HTTP"
  ensure (elim response.content_length [ none ↦ true | some n ↦ n == o.bytes ])
      "S3 verification Content-Length mismatch"
  (count, all_bytes) ← readback o.bytes 0 [] response.body
  ensure (count == o.bytes && equal (digest p all_bytes) o.sha256) "S3 verification mismatch"

-- What happens to one `put`: whether the file opens, the status of the answer to the PUT, and the
-- answer to the GET that follows.
pub record Exchange : Type 0 where
  pub opened : Result (Unit {0})
  pub put_status : Option ℕ
  pub answer : Option Response

-- `S3::put`
unfoldable pub put : Primitives → Object → Exchange → Result (Unit {0})
put p o x = do
  ensure (leb o.bytes (5 * 1024 * 1024 * 1024)) "single PUT exceeds 5 GiB; multipart unsupported"
  x.opened
  status ← context x.put_status "S3 upload transport failed; retry uses conditional creation"
  ensure (within 200 299 status || status == 412) "S3 conditional PUT HTTP"
  verify p o x.answer

-- What happens in one turn of the loop of `upload_object`. `none` in `exchange`: cancelled before
-- the put is done; `journal`: the write of the line.
pub record Attempt : Type 0 where
  pub exchange : Option Exchange
  pub journal : Result (Unit {0})
  pub is_cancelled : Bool
  pub cancelled_asleep : Bool

-- A line of the journal.
pub record Line : Type 0 where
  pub object_key : Bytes
  pub sha256 : Bytes
  pub bytes : ℕ
  pub attempt : ℕ
  pub verified : Bool

unfoldable pub attempt_result : Primitives → Object → Attempt → Result (Unit {0})
unfolding put
attempt_result p o a = elim a.exchange [ none ↦ err "upload cancelled" | some x ↦ put p o x ]

unfoldable pub line : Object → ℕ → Result (Unit {0}) → Line
line o n result = record {
  object_key = o.object_key;
  sha256 = o.sha256;
  bytes = o.bytes;
  attempt = n;
  verified = is_ok result;
}

-- What a turn of the loop does after the line is written, and the next turn.
abbrev pub stops : Attempt → ℕ → Bool
stops a n = a.is_cancelled || (ltb n 3 && a.cancelled_asleep)

-- `for attempt in 1..=3`, with the lines written; the list holds the turns that are left.
unfoldable pub attempts :
    Primitives → Object → (ℕ → Attempt) → List ℕ → Result (Unit {0}) → List Line × Result (Unit {0})
attempts p o turn [] failure = ([], failure)
attempts p o turn (n ∷ left) failure =
    let a = turn n in
    let result = attempt_result p o a in
    let more = attempts p o turn left result in
    let written = line o n result in
    elim a.journal [
      | err e ↦ ([], err e)
      | ok _ ↦
          if is_ok result || stops a n then (written ∷ [], result) else (written ∷ more.0, more.1)
    ]

unfoldable pub upload_object : Primitives → Object → (ℕ → Attempt) → List Line × Result (Unit {0})
unfolding attempts
upload_object p o turn = attempts p o turn (1 ∷ 2 ∷ 3 ∷ []) (err "upload failed")

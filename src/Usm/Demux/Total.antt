-- ===== src/Usm/Demux/Total.antt =====
-- The demuxer of src/usm.rs ends on every file.
use mathlib.Core.Path.{subst}
use moenotes_assets.Base.{
  ℕ, zero, suc, ◌+◌, ◌-◌, ◌≤◌, ◌<◌, Option, some, List, ◌≡◌, inl, inr, refl, ap, arith, ltb, length,
  Bool-cases, ltb→lt,
}
use moenotes_assets.Base.Outcome.{Result, ok, err, ◌>>=◌, >>=-eq-ok, Result-cases}
use moenotes_assets.Base.Bytes.{Bytes}
use moenotes_assets.Usm.Demux.{
  Chunk, Stream, State, Masks, step, read_chunk, advance, chunks_loop, finish, conclude, extract,
  masks_of, initial,
}

-- A chunk takes at least 32 bytes of the file and lies inside it.
pub read_chunk-size :
    (input : Bytes) (limit pos : ℕ) {c : Chunk} {n : ℕ}
    → read_chunk input limit pos ≡ ok (c, n)
    → (32 ≤ n) × (n ≤ length input - pos)
unfolding read_chunk
read_chunk-size input limit pos h = ground arith

pub advance-size :
    (masks : Option Masks) (limit : ℕ) (input : Bytes) (pos : ℕ) (s : State) {n : ℕ} {t : State}
    → advance masks limit input pos s ≡ ok (n, t)
    → (32 ≤ n) × (n ≤ length input - pos)
unfolding advance
advance-size masks limit input pos s {n} h =
    let ((c, m), r, h₁) = >>=-eq-ok (read_chunk input limit pos) _ h in
    let (t, st, h₂) = >>=-eq-ok (step masks limit c s) _ h₁ in
    let same : m ≡ n = ground arith in
    subst (λ (k : ℕ). (32 ≤ k) × (k ≤ length input - pos)) same (read_chunk-size input limit pos r)

-- The loop gives a result once the fuel is more than the bytes left.
pub chunks_loop_total :
    (fuel : ℕ) (masks : Option Masks) (limit : ℕ) (input : Bytes) (pos : ℕ) (s : State)
    → length input - pos < fuel
    → (r : Result State) × (chunks_loop fuel masks limit input pos s ≡ some r)
unfolding chunks_loop
chunks_loop_total zero masks limit input pos s h = absurd (omega arith)
chunks_loop_total (suc fuel) masks limit input pos s h =
    elim (Bool-cases (ltb pos (length input))) [
      | inr done ↦ rw done (ok s, refl)
      | inl more ↦ rw more (elim (Result-cases (advance masks limit input pos s)) [
        | inr (e, failed) ↦ (err e, rw failed)
        | inl ((n, t), moved) ↦
            let sizes = advance-size masks limit input pos s moved in
            rw moved (
              chunks_loop_total fuel masks limit input (pos + n) t
                (omega (arith, sizes, ltb→lt pos (length input) more)))
      ])
    ]

-- `extract` returns, with streams or with an error, on every file, key and limit.
pub extract_total :
    (input : Bytes) (key : Option ℕ) (limit : ℕ)
    → (r : Result (List Stream)) × (extract input key limit ≡ some r)
unfolding extract
extract_total input key limit =
    let (r, e) =
      chunks_loop_total (length input + 1) (masks_of key) limit input 0 initial (omega arith) in
    ((do s ← r; finish s), ap conclude e)

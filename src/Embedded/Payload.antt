-- ===== src/Embedded/Payload.antt =====
-- `extract` of src/embedded.rs: where the payload stands.
use mathlib.Core.Path.{subst}
use moenotes_assets.Base.{
  ℕ, ◌+◌, ◌-◌, ◌*◌, ◌/◌, ◌≤◌, ◌<◌, true, ◌&&◌, ◌||◌, some, ◌≡◌, sym, ap, ◌∙◌, arith, leb, ltb, ◌==◌,
  length, take, drop, length-drop, take_all,
}
use moenotes_assets.Base.Outcome.{ok, context, >>=-eq-ok, ensure-eq-ok, ok_injective}
use moenotes_assets.Base.Bytes.{Bytes, codes, starts_with, range, checked_add, le}
use moenotes_assets.Base.Bytes.{range-some}
use moenotes_assets.Embedded.{
  take_next, word, align, behaviour, registry, payload, extract, is_zero,
}

-- The payload stands behind a little-endian word that is its length, and before less than four
-- zero bytes that end the input.
pub record IsPayload (raw content : Bytes) (limit : ℕ) : Type 0 where
  pub at : ℕ
  pub after : at + length content ≤ length raw
  pub content_at : content ≡ take (length content) (drop at raw)
  pub size_at : length content ≡ le (take 4 (drop (at - 4) raw))
  pub behind : 4 ≤ at
  pub padding : length raw - (at + length content) < 4
  pub zeros : is_zero (drop (at + length content) raw) ≡ true
  pub not_nil : 0 < length content
  pub few : length content ≤ limit
  pub signature : (starts_with content (codes "@UTF") || starts_with content (codes "CRID")) ≡ true

take_next-ok :
    (raw : Bytes) (n pos : ℕ) {v : Bytes} {end : ℕ}
    → take_next raw n pos ≡ ok (v, end)
    → (end ≡ pos + n) × (end ≤ length raw) × (length v ≡ n) × (v ≡ take n (drop pos raw))
unfolding take_next
take_next-ok raw n pos {v} {end} h =
    let (e, c, h₁) = >>=-eq-ok (context (checked_add pos n) _) _ h in
    let (w, r, h₂) = >>=-eq-ok (context (range raw pos e) _) _ h₁ in
    let pair = ok_injective h₂ in
    let found : range raw pos e ≡ some w = ground arith in
    let sum : e ≡ pos + n = ground arith in
    let (size, inside, is) = range-some raw pos e found in
    let v_is : w ≡ v = ap (λ x. x.0) pair in
    let end_is : e ≡ end = ap (λ x. x.1) pair in
    let long : e - pos ≡ n = omega arith in
    let taken : w ≡ take n (drop pos raw) = is ∙ ap (λ k. take k (drop pos raw)) long in
    let length_is : length w ≡ n = omega arith in
    (
      sym end_is ∙ sum,
      subst (λ (x : ℕ). x ≤ length raw) end_is inside,
      ap length (sym v_is) ∙ length_is,
      sym v_is ∙ taken,
    )

word-ok :
    (raw : Bytes) (n pos : ℕ) {v end : ℕ}
    → word raw n pos ≡ ok (v, end)
    → (end ≡ pos + n) × (v ≡ le (take n (drop pos raw)))
unfolding word
word-ok raw n pos h =
    let ((b, e), t, h₁) = >>=-eq-ok (take_next raw n pos) _ h in
    let pair = ok_injective h₁ in
    let (end_is, inside, size, is) = take_next-ok raw n pos t in
    (ap (λ x. x.1) (sym pair) ∙ end_is, ap (λ x. x.0) (sym pair) ∙ ap le is)

align-ok :
    (raw : Bytes) (pos : ℕ) {end : ℕ}
    → align raw pos ≡ ok end
    → (pos ≤ end) × (end < pos + 4) × (is_zero (take (end - pos) (drop pos raw)) ≡ true)
unfolding align
align-ok raw pos {end} h =
    let ((b, e), t, h₁) = >>=-eq-ok (take_next raw ((pos + 3) / 4 * 4 - pos) pos) _ h in
    let (z, h₂) = ensure-eq-ok (is_zero b) _ _ h₁ in
    let same : e ≡ end = ok_injective h₂ in
    let (end_is, inside, size, is) = take_next-ok raw ((pos + 3) / 4 * 4 - pos) pos t in
    let gap : end - pos ≡ (pos + 3) / 4 * 4 - pos = omega arith in
    (
      omega arith,
      omega arith,
      ap (λ k. is_zero (take k (drop pos raw))) gap ∙ ap is_zero (sym is) ∙ z,
    )

payload-IsPayload :
    (raw : Bytes) (limit pos : ℕ) {content : Bytes}
    → payload raw limit pos ≡ ok content
    → IsPayload raw content limit
unfolding payload
payload-IsPayload raw limit pos {content} h =
    let ((n, at), w, h₁) = >>=-eq-ok (word raw 4 pos) _ h in
    let (size, h₂) = ensure-eq-ok (ltb 0 n && leb n limit) _ _ h₁ in
    let ((c, next), t, h₃) = >>=-eq-ok (take_next raw n at) _ h₂ in
    let (end, a, h₄) = >>=-eq-ok (align raw next) _ h₃ in
    let (all_read, h₅) = ensure-eq-ok (end == length raw) _ _ h₄ in
    let (signed, h₆) =
      ensure-eq-ok (starts_with c (codes "@UTF") || starts_with c (codes "CRID")) _ _ h₅ in
    let (at_is, n_is) = word-ok raw 4 pos w in
    let (next_is, inside, long, is) = take_next-ok raw n at t in
    let (from, to, zero_pad) = align-ok raw next a in
    let last : end ≡ length raw = ground arith in
    let bounds : (0 < n) × (n ≤ limit) = ground arith in
    let rest : length (drop (at + length c) raw) ≡ end - next =
      omega (arith, length-drop {0} (at + length c) raw) in
    let start : at - 4 ≡ pos = omega arith in
    let mid : next ≡ at + length c = omega arith in
    let whole : take (end - next) (drop next raw) ≡ drop (at + length c) raw =
      ap (λ k. take (end - next) (drop k raw)) mid
      ∙ take_all (drop (at + length c) raw) (end - next) (omega (arith, rest)) in
    subst (λ (x : Bytes). IsPayload raw x limit) (ok_injective h₆)
      (record {
        at = at;
        after = omega arith;
        content_at = is ∙ ap (λ k. take k (drop at raw)) (sym long);
        size_at = long ∙ n_is ∙ ap (λ k. le (take 4 (drop k raw))) (sym start);
        behind = omega arith;
        padding = omega arith;
        zeros = ap is_zero (sym whole) ∙ zero_pad;
        not_nil = omega arith;
        few = omega arith;
        signature = signed;
      })

-- What `extract` returns is a part of the input, not empty and within the limit, with the
-- signature "@UTF" or "CRID": a little-endian word before it is its length, and behind it the input
-- ends with less than four bytes, all zero.
pub extract-IsPayload :
    (raw : Bytes) (limit : ℕ) {content : Bytes}
    → extract raw limit ≡ ok content
    → IsPayload raw content limit
unfolding extract
extract-IsPayload raw limit h =
    let ((rid, at), b, h₁) = >>=-eq-ok (behaviour raw) _ h in
    let (start, r, h₂) = >>=-eq-ok (registry raw rid at) _ h₁ in
    payload-IsPayload raw limit start h₂

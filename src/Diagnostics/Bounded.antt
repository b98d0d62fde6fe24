-- ===== src/Diagnostics/Bounded.antt =====
-- A capture of src/diagnostics.rs is the same however the output is cut into reads.
use moenotes_assets.Base.{
  ℕ, zero, suc, ◌+◌, ◌-◌, ◌*◌, ◌^◌, ◌≤◌, min, Bool, true, false, not, ◌&&◌, List, [], ◌∷◌, ◌++◌,
  ◌≡◌, refl, sym, ap, ◌∙◌, arith, ltb, if◌then◌else◌, length, take, drop, take_all, length-append,
  length-take, length-drop, drop-drop,
}
use moenotes_assets.Base.Outcome.{Result, ok, err, ◌>>=◌, >>=-eq-ok, ensure-eq-ok}
use moenotes_assets.Base.Bytes.{Bytes}
use mathlib.Core.Path.{subst, ap₂}
use moenotes_assets.Base.Outcome.{ok_injective}
use moenotes_assets.Base.{and_split, dec_le, dec_lt}
use moenotes_assets.Tree.{contents}
use moenotes_assets.Diagnostics.{
  Capture, append, saturating_add, drain_from, drain, Child, capture, stdout_limit, stderr_limit,
  is_success, ExitStatus,
}

-- The last, or the first, bytes of an output up to a limit, and its length in a `u64`.
unfoldable pub summary : Bytes → ℕ → Bool → Capture
summary output limit tail = record {
  bytes = if tail then drop (length output - limit) output else take limit output;
  total = min (length output) (2 ^ 64 - 1);
}

module _ {A : Type 0} where
  drop-append : (n : ℕ) (xs ys : List A) → drop n (xs ++ ys) ≡ drop n xs ++ drop (n - length xs) ys
  drop-append zero [] ys = refl
  drop-append zero (x ∷ xs) ys = let e : 0 - length (x ∷ xs) ≡ 0 = omega arith in rw e refl
  drop-append (suc n) [] ys = let e : suc n - length {A = A} [] ≡ suc n = omega arith in rw e refl
  drop-append (suc n) (x ∷ xs) ys =
      let e : suc n - length (x ∷ xs) ≡ n - length xs = omega arith in rw e (drop-append n xs ys)

  drop_all : (n : ℕ) (xs : List A) → length xs ≤ n → drop n xs ≡ []
  drop_all zero [] h = refl
  drop_all zero (x ∷ xs) h = absurd (omega arith)
  drop_all (suc n) [] h = refl
  drop_all (suc n) (x ∷ xs) h = drop_all n xs (omega arith)

  take-append : (n : ℕ) (xs ys : List A) → take n (xs ++ ys) ≡ take n xs ++ take (n - length xs) ys
  take-append zero [] ys = refl
  take-append zero (x ∷ xs) ys = let e : 0 - length (x ∷ xs) ≡ 0 = omega arith in rw e refl
  take-append (suc n) [] ys = let e : suc n - length {A = A} [] ≡ suc n = omega arith in rw e refl
  take-append (suc n) (x ∷ xs) ys =
      let e : suc n - length (x ∷ xs) ≡ n - length xs = omega arith in
      rw e (ap (λ (zs : List A). x ∷ zs) (take-append n xs ys))

  take-min : (n : ℕ) (xs : List A) → take (min (length xs) n) xs ≡ take n xs
  take-min n xs = elim (dec_le (length xs) n) [
    | yes h ↦
        (let e : min (length xs) n ≡ length xs = omega arith in
          rw e (take_all xs (length xs) (omega arith) ∙ sym (take_all xs n h)))
    | no h ↦ (let e : min (length xs) n ≡ n = omega arith in rw e refl)
  ]

  tail_step :
      (limit : ℕ) (xs ys : List A)
      → drop
            (length (drop (length xs - limit) xs) + length (drop (length ys - limit) ys) - limit)
            (drop (length xs - limit) xs)
          ++ drop (length ys - limit) ys
        ≡ drop (length (xs ++ ys) - limit) (xs ++ ys)
  tail_step limit xs ys =
      let sum = length-append xs ys in
      let old = length-drop (length xs - limit) xs in
      let new = length-drop (length ys - limit) ys in
      let kept =
        length (drop (length xs - limit) xs) + length (drop (length ys - limit) ys) - limit in
      let n = length (xs ++ ys) - limit in
      elim (dec_lt (length ys) limit) [
        | yes h ↦
            (let same : length xs - limit + kept ≡ n = omega arith in
              let rest : length ys - limit ≡ n - length xs = omega arith in
              ap₂ (λ (a b : List A). a ++ b)
                (drop-drop (length xs - limit) kept xs ∙ ap (λ (k : ℕ). drop k xs) same)
                (ap (λ (k : ℕ). drop k ys) rest)
              ∙ sym (drop-append n xs ys))
        | no h ↦
            (let rest : length ys - limit ≡ n - length xs = omega arith in
              ap₂ (λ (a b : List A). a ++ b)
                (drop-drop (length xs - limit) kept xs
                  ∙ drop_all (length xs - limit + kept) xs (omega arith)
                  ∙ sym (drop_all n xs (omega arith)))
                (ap (λ (k : ℕ). drop k ys) rest)
              ∙ sym (drop-append n xs ys))
      ]

abbrev both : Bytes → ℕ → Capture
both b n = record { bytes = b; total = n }

head_step :
    (limit : ℕ) (xs ys : Bytes)
    → take limit xs ++ take (min (length ys) (limit - length (take limit xs))) ys
      ≡ take limit (xs ++ ys)
head_step limit xs ys =
    let size = length-take limit xs in
    elim (dec_le (length xs) limit) [
      | yes h ↦
          (let left : limit - length (take limit xs) ≡ limit - length xs = omega arith in
            rw left (
              ap (λ (b : Bytes). take limit xs ++ b) (take-min (limit - length xs) ys)
              ∙ sym (take-append limit xs ys)))
      | no h ↦
          (let left : limit - length (take limit xs) ≡ limit - length xs = omega arith in
            rw left (
              ap (λ (b : Bytes). take limit xs ++ b) (take-min (limit - length xs) ys)
              ∙ sym (take-append limit xs ys)))
    ]

append-summary :
    (output more : Bytes) (limit : ℕ) (tail : Bool)
    → append (summary output limit tail) more limit tail ≡ summary (output ++ more) limit tail
unfolding append summary
append-summary output more limit tail =
    let size = length-append output more in
    let counts : saturating_add (min (length output) (2 ^ 64 - 1)) (length more)
        ≡ min (length (output ++ more)) (2 ^ 64 - 1) =
      omega arith in
    elim tail
      as (λ t. append (summary output limit t) more limit t ≡ summary (output ++ more) limit t) [
        | true ↦ ap₂ both (tail_step limit output more) counts
        | false ↦ ap₂ both (head_step limit output more) counts
      ]

drain_from-summary :
    (reads : List (Result Bytes)) (limit : ℕ) (tail : Bool) (sofar : Bytes)
    → drain_from (summary sofar limit tail) reads limit tail
      ≡ (contents sofar reads >>= λ output. ok (summary output limit tail))
unfolding drain_from contents
drain_from-summary [] limit tail sofar = refl
drain_from-summary (err e ∷ reads) limit tail sofar = refl
drain_from-summary (ok [] ∷ reads) limit tail sofar = refl
drain_from-summary (ok (b ∷ bs) ∷ reads) limit tail sofar =
    rw (append-summary sofar (b ∷ bs) limit tail)
      (drain_from-summary reads limit tail (sofar ++ b ∷ bs))

summary_nil : (limit : ℕ) (tail : Bool) → record { bytes = []; total = 0 } ≡ summary [] limit tail
unfolding summary
summary_nil zero true = refl
summary_nil zero false = refl
summary_nil (suc limit) true = let e : 0 - suc limit ≡ 0 = omega arith in rw e refl
summary_nil (suc limit) false = refl

-- However an output is cut into reads, a capture holds its last (or its first) bytes up to the limit,
-- and its length, up to the greatest `u64`; and a read that fails is the error.
pub drain-summary :
    (reads : List (Result Bytes)) (limit : ℕ) (tail : Bool)
    → drain reads limit tail ≡ (contents [] reads >>= λ output. ok (summary output limit tail))
unfolding drain
drain-summary reads limit tail =
    ap (λ c. drain_from c reads limit tail) (summary_nil limit tail)
    ∙ drain_from-summary reads limit tail []

at_most : (a b : ℕ) → not (ltb a b) ≡ true → b ≤ a
at_most a b h = ground arith

-- Within the limit nothing is cut off.
whole_summary :
    (output : Bytes) (c : Capture)
    → summary output stdout_limit false ≡ c
    → not (ltb stdout_limit c.total) ≡ true
    → (output ≡ c.bytes) × (length output ≤ 1024 * 1024)
unfolding summary stdout_limit
whole_summary output c e short =
    let total : min (length output) (2 ^ 64 - 1) ≡ c.total = ap (λ (x : Capture). x.total) e in
    let small : c.total ≤ 1024 * 1024 = at_most (1024 * 1024) c.total short in
    let size : length output ≤ 1024 * 1024 = omega arith in
    (sym (take_all output (1024 * 1024) size) ∙ ap (λ (x : Capture). x.bytes) e, size)

-- What `capture` returns is all that the process wrote to its standard output: the process started
-- and ended with success, and the output has at most 1 MiB.
pub capture-whole :
    (child : Child) (stage : Bytes) {out : Bytes}
    → capture child stage ≡ ok out
    → (child.spawned ≡ true)
      × ((status : ExitStatus) × (child.waited ≡ ok status) × (is_success status ≡ true))
      × (contents [] child.stdout ≡ ok out)
      × (length out ≤ 1024 * 1024)
unfolding capture
capture-whole child stage h =
    let (started, h₁) = ensure-eq-ok child.spawned _ _ h in
    let (status, waited, h₂) = >>=-eq-ok child.waited _ h₁ in
    let (captured, drained, h₃) = >>=-eq-ok (drain child.stdout stdout_limit false) _ h₂ in
    let (_, _, h₄) = >>=-eq-ok (drain child.stderr stderr_limit true) _ h₃ in
    let (good, h₅) =
      ensure-eq-ok (is_success status && not (ltb stdout_limit captured.total)) _ _ h₄ in
    let (well, short) = and_split (is_success status) _ good in
    let (output, all_read, made) =
      >>=-eq-ok (contents [] child.stdout) _
        (sym (drain-summary child.stdout stdout_limit false) ∙ drained) in
    let (same, size) = whole_summary output captured (ok_injective made) short in
    (
      started,
      (status, waited, well),
      all_read ∙ ap ok (same ∙ ok_injective h₅),
      subst (λ (x : Bytes). length x ≤ 1024 * 1024) (same ∙ ok_injective h₅) size,
    )

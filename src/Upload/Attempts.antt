-- ===== src/Upload/Attempts.antt =====
-- The attempts of `upload_object` in src/upload.rs.
use moenotes_assets.Base.{
  ℕ, zero, suc, ◌≤◌, ◌<◌, Bool, false, ◌&&◌, some, List, [], ◌∷◌, ◌≡◌, inl, inr, refl, arith, ltb,
  ◌^◌, ◌*◌, ◌==◌, ◌||◌, ◌⊎◌, All, leb, leb→le, within, true, Option, none, ap, String, Bool-cases,
  Option-cases,
}
use moenotes_assets.Base.Outcome.{err-ne-ok, ok, err}
use mathlib.Core.List.{Memᴰ}
use moenotes_assets.Base.Outcome.{Result-cases, ok_injective, context, >>=-eq-ok, ensure-eq-ok}
use moenotes_assets.Crypto.{Primitives}
use moenotes_assets.Tree.{Object}
use moenotes_assets.Upload.Readback.{IsSlice, IsReadback, verify_iff}
use moenotes_assets.Upload.{
  Response, verify, Exchange, Attempt, Line, line, put, attempt_result, stops, attempts,
  upload_object,
}

-- An attempt of a loop over the list of numbers.
data Among (n : ℕ) : List ℕ → Type 0 where
  first : {m : ℕ} {left : List ℕ} → n ≡ m → Among n (m ∷ left)
  later : {m : ℕ} {left : List ℕ} → Among n left → Among n (m ∷ left)

one_of_three : {n : ℕ} → Among n (1 ∷ 2 ∷ 3 ∷ []) → (1 ≤ n) × (n ≤ 3)
one_of_three (first e) = (omega arith, omega arith)
one_of_three (later (first e)) = (omega arith, omega arith)
one_of_three (later (later (first e))) = (omega arith, omega arith)
one_of_three (later (later (later a))) = elim a [ ]

and_false : (b : Bool) → (b && false) ≡ false
and_false b = ground arith

goes_on :
    (turn : ℕ → Attempt) (n : ℕ)
    → (turn n).is_cancelled ≡ false
    → (turn n).cancelled_asleep ≡ false
    → stops (turn n) n ≡ false
goes_on turn n c s = rw (c, s) (and_false (ltb n 3))

-- The chunks of what the server answers in an attempt have fewer than 2^63 bytes each.
abbrev pub AreSlices : Attempt → Type 0
AreSlices a =
    (x : Exchange) → a.exchange ≡ some x → (r : Response) → x.answer ≡ some r → All IsSlice r.body

context-ok : {A : Type 0} (o : Option A) (e : String) {a : A} → context o e ≡ ok a → o ≡ some a
context-ok none e h = absurd (err-ne-ok h)
context-ok (some b) e h = ap some (ok_injective h)

accepted_status :
    (status : ℕ)
    → (within 200 299 status || status == 412) ≡ true
    → ((200 ≤ status) × (status ≤ 299)) ⊎ (status ≡ 412)
accepted_status status h = ground arith

module _ (p : Primitives) (o : Object) where
  answer-IsReadback :
      (answer : Option Response)
      → o.bytes < 2 ^ 63
      → ((r : Response) → answer ≡ some r → All IsSlice r.body)
      → verify p o answer ≡ ok tt
      → IsReadback p o answer
  unfolding verify
  answer-IsReadback none b s h = absurd (err-ne-ok h)
  answer-IsReadback (some r) b s h = (verify_iff p o r b (s r refl)).0 h

  -- What makes an attempt good: a PUT that was accepted, and a readback of the whole object.
  pub record IsVerified (x : Exchange) : Type 0 where
    pub small : o.bytes ≤ 5 * 1024 * 1024 * 1024
    pub opened : x.opened ≡ ok tt
    pub status : ℕ
    pub answered : x.put_status ≡ some status
    pub accepted : ((200 ≤ status) × (status ≤ 299)) ⊎ (status ≡ 412)
    pub readback : IsReadback p o x.answer

  -- Success came from an attempt that was verified, and it was noted.
  pub record IsDelivered (turn : ℕ → Attempt) (lines : List Line) : Type 0 where
    pub number : ℕ
    pub exchange : Exchange
    pub at_most : (1 ≤ number) × (number ≤ 3)
    pub made : (turn number).exchange ≡ some exchange
    pub verified : IsVerified exchange
    pub noted : Memᴰ (line o number (ok tt)) lines

  attempt-ok :
      (a : Attempt)
      → attempt_result p o a ≡ ok tt
      → (x : Exchange) × (a.exchange ≡ some x) × (put p o x ≡ ok tt)
  unfolding attempt_result
  attempt-ok a h = elim (Option-cases a.exchange) [
    | inl n ↦ absurd (err-ne-ok (rw (attempt_result, n) at h))
    | inr (x, e) ↦ (x, e, rw (attempt_result, e) at h)
  ]

  record Delivers (turn : ℕ → Attempt) (left : List ℕ) (lines : List Line) : Type 0 where
    number : ℕ
    exchange : Exchange
    among : Among number left
    made : (turn number).exchange ≡ some exchange
    verified : put p o exchange ≡ ok tt
    noted : Memᴰ (line o number (ok tt)) lines

  attempts-Delivers :
      (turn : ℕ → Attempt) (left : List ℕ) (e : String)
      → (attempts p o turn left (err e)).1 ≡ ok tt
      → Delivers turn left (attempts p o turn left (err e)).0
  unfolding attempts
  attempts-Delivers turn [] e h = absurd (err-ne-ok h)
  attempts-Delivers turn (n ∷ left) e h = elim (Result-cases (turn n).journal) [
    | inr (s, j) ↦ absurd (err-ne-ok (rw (attempts, j) at h))
    | inl (u, j) ↦ elim (Result-cases (attempt_result p o (turn n))) [
      | inl (v, r) ↦
          let (x, made, good) = attempt-ok (turn n) r in
          rw (attempts, j, r)
            (record {
              number = n;
              exchange = x;
              among = first refl;
              made = made;
              verified = good;
              noted = Memᴰ.head refl;
            })
      | inr (s, r) ↦ elim (Bool-cases (stops (turn n) n)) [
        | inl t ↦ absurd (err-ne-ok (rw (attempts, j, r, t) at h))
        | inr t ↦
            let d = attempts-Delivers turn left s (rw (attempts, j, r, t) at h) in
            rw (attempts, j, r, t)
              (record {
                number = d.number;
                exchange = d.exchange;
                among = later d.among;
                made = d.made;
                verified = d.verified;
                noted = Memᴰ.tail d.noted;
              })
      ]
    ]
  ]

  put-IsVerified :
      (x : Exchange)
      → ((r : Response) → x.answer ≡ some r → All IsSlice r.body)
      → put p o x ≡ ok tt
      → IsVerified x
  unfolding put
  put-IsVerified x slices h =
      let (fits, h₁) = ensure-eq-ok (leb o.bytes (5 * 1024 * 1024 * 1024)) _ _ h in
      let (_, opened, h₂) = >>=-eq-ok x.opened _ h₁ in
      let (status, answered, h₃) = >>=-eq-ok (context x.put_status _) _ h₂ in
      let (good, h₄) = ensure-eq-ok (within 200 299 status || status == 412) _ _ h₃ in
      let small = leb→le o.bytes (5 * 1024 * 1024 * 1024) fits in
      record {
        small = small;
        opened = opened;
        status = status;
        answered = context-ok x.put_status _ answered;
        accepted = accepted_status status good;
        readback = answer-IsReadback x.answer (omega arith) slices h₄;
      }

  -- Where each chunk of a response has fewer than 2^63 bytes: of a successful upload of an object,
  -- in one of the attempts 1 to 3 the file could be opened, the PUT was answered with a status of
  -- 200 to 299 or 412, and the GET that followed with status 200 and a whole body of the size and
  -- the hash of the object; and a line of the journal says so.
  pub upload_object-IsDelivered :
      (turn : ℕ → Attempt)
      → ((n : ℕ) → AreSlices (turn n))
      → (upload_object p o turn).1 ≡ ok tt
      → IsDelivered turn (upload_object p o turn).0
  unfolding upload_object
  upload_object-IsDelivered turn slices h =
      let d = attempts-Delivers turn (1 ∷ 2 ∷ 3 ∷ []) "upload failed" h in
      record {
        number = d.number;
        exchange = d.exchange;
        at_most = one_of_three d.among;
        made = d.made;
        verified = put-IsVerified d.exchange (slices d.number d.exchange d.made) d.verified;
        noted = d.noted;
      }

  attempts_done :
      (turn : ℕ → Attempt) (n : ℕ) (left : List ℕ) (e : String)
      → (turn n).journal ≡ ok tt
      → attempt_result p o (turn n) ≡ ok tt
      → (attempts p o turn (n ∷ left) (err e)).1 ≡ ok tt
  unfolding attempts
  attempts_done turn n left e j r = rw (attempts, j, r) refl

  attempts_more :
      (turn : ℕ → Attempt) (n : ℕ) (left : List ℕ) (e : String)
      → (turn n).journal ≡ ok tt
      → stops (turn n) n ≡ false
      → ((s : String) → (attempts p o turn left (err s)).1 ≡ ok tt)
      → (attempts p o turn (n ∷ left) (err e)).1 ≡ ok tt
  unfolding attempts
  attempts_more turn n left e j t later_ok = elim (Result-cases (attempt_result p o (turn n))) [
    | inl (v, r) ↦ rw (attempts, j, r) refl
    | inr (s, r) ↦ rw (attempts, j, r, t) (later_ok s)
  ]

  -- If attempt `n`, one of the three, succeeds, the journal can be written, and the upload is not
  -- cancelled after the attempts before `n` nor in the waits that follow them, then the object is
  -- uploaded, whatever those attempts did.
  pub upload_object_succeeds :
      (turn : ℕ → Attempt) (n : ℕ)
      → 1 ≤ n
      → n ≤ 3
      → ((m : ℕ) → m ≤ n → (turn m).journal ≡ ok tt)
      → ((m : ℕ) → m < n → (turn m).is_cancelled ≡ false)
      → ((m : ℕ) → m < n → (turn m).cancelled_asleep ≡ false)
      → attempt_result p o (turn n) ≡ ok tt
      → (upload_object p o turn).1 ≡ ok tt
  unfolding upload_object
  upload_object_succeeds turn zero a b j c s r = absurd (omega arith)
  upload_object_succeeds turn (suc zero) a b j c s r =
      attempts_done turn 1 (2 ∷ 3 ∷ []) "upload failed" (j 1 (omega arith)) r
  upload_object_succeeds turn (suc (suc zero)) a b j c s r =
      attempts_more turn 1 (2 ∷ 3 ∷ []) "upload failed" (j 1 (omega arith))
        (goes_on turn 1 (c 1 (omega arith)) (s 1 (omega arith)))
        (λ e. attempts_done turn 2 (3 ∷ []) e (j 2 (omega arith)) r)
  upload_object_succeeds turn (suc (suc (suc zero))) a b j c s r =
      attempts_more turn 1 (2 ∷ 3 ∷ []) "upload failed" (j 1 (omega arith))
        (goes_on turn 1 (c 1 (omega arith)) (s 1 (omega arith)))
        (λ e.
          attempts_more turn 2 (3 ∷ []) e (j 2 (omega arith))
            (goes_on turn 2 (c 2 (omega arith)) (s 2 (omega arith)))
            (λ f. attempts_done turn 3 [] f (j 3 (omega arith)) r))
  upload_object_succeeds turn (suc (suc (suc (suc n)))) a b j c s r = absurd (omega arith)

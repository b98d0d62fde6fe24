-- ===== src/Worker/Packets.antt =====
-- An IVF file that src/worker.rs accepts is a header and the declared packets, and no more.
use moenotes_assets.Base.{
  ℕ, zero, suc, ◌+◌, ◌-◌, ◌≤◌, ◌<◌, ◌&&◌, Option, none, some, List, [], ◌∷◌, ◌++◌, ◌≡◌, inl, inr,
  refl, sym, ap, ◌∙◌, arith, leb, ltb, ◌==◌, length, take, drop, String, Bool-cases,
  take-append-drop, drop-drop, ltb→lt, length-take, length-drop, ==_iff,
}
use moenotes_assets.Base.Outcome.{
  Result, ok, err, ensure, context, >>=-eq-ok, ensure-eq-ok, err-ne-ok, ensure-ok,
}
use moenotes_assets.Base.Bytes.{Bytes, range, le, range-some}
use mathlib.Core.Option.{some_inj, none-ne-some}
use mathlib.Core.Path.{subst, ap₂}
use moenotes_assets.Base.Outcome.{ok_injective, Result-cases}
use moenotes_assets.Base.{leb→le, and_split}
use moenotes_assets.Usm.Video.{VideoInfo}
use moenotes_assets.Worker.{packet, packets, ivf_header, validate_ivf}

-- The bytes are packets with time stamps from `first` on, none empty.
unfoldable pub IsPackets : ℕ → List Bytes → Bytes → Type 0
IsPackets first [] b = b ≡ []
IsPackets first (p ∷ ps) b =
    (head : Bytes) × (rest : Bytes) × (b ≡ head ++ (p ++ rest))
    × (length head ≡ 12)
    × (le (take 4 head) ≡ length p)
    × (le (drop 4 head) ≡ first)
    × (0 < length p)
    × IsPackets (first + 1) ps rest

-- What one packet takes.
record Taken (b : Bytes) (offset count next number : ℕ) : Type 0 where
  head : Bytes
  body : Bytes
  split : drop offset b ≡ head ++ (body ++ drop next b)
  head_size : length head ≡ 12
  body_size : le (take 4 head) ≡ length body
  stamp : le (drop 4 head) ≡ count
  some_body : 0 < length body
  next_number : number ≡ count + 1
  forward : offset < next
  inside : next ≤ length b

drop-take-drop : (b : Bytes) (p n : ℕ) → drop p b ≡ take n (drop p b) ++ drop (p + n) b
drop-take-drop b p n =
    sym (take-append-drop n (drop p b))
    ∙ ap (λ (x : Bytes). take n (drop p b) ++ x) (drop-drop p n b)

context-ok : {A : Type 0} (o : Option A) (e : String) {a : A} → context o e ≡ ok a → o ≡ some a
context-ok none e h = absurd (err-ne-ok h)
context-ok (some b) e h = ap some (ok_injective h)

drop_beyond : (n : ℕ) (b : Bytes) → length b ≤ n → drop n b ≡ []
drop_beyond zero [] h = refl
drop_beyond zero (x ∷ b) h = absurd (omega arith)
drop_beyond (suc n) [] h = refl
drop_beyond (suc n) (x ∷ b) h = drop_beyond n b (omega arith)

plus_none : (n : ℕ) → n ≡ n + 0
plus_none n = omega arith

packet-Taken :
    (b : Bytes) (offset count : ℕ) {next number : ℕ}
    → packet b offset count ≡ ok (next, number)
    → Taken b offset count next number
unfolding packet
packet-Taken b offset count {next} {number} h =
    let (frame, found, h₁) =
      >>=-eq-ok (context (range b offset (offset + 12)) "unexpected end of file") _ h in
    let (frame_size, inside, frame_lem) =
      range-some b offset (offset + 12) (context-ok (range b offset (offset + 12)) _ found) in
    let (good, h₂) =
      ensure-eq-ok
        (leb 12 (length b - offset)
          && le (drop 4 frame) == count
          && ltb 0 (le (take 4 frame))
          && leb (le (take 4 frame)) (length b - offset - 12))
        _ _ h₁ in
    let (abc, fits) = and_split _ (leb (le (take 4 frame)) (length b - offset - 12)) good in
    let (ab, pos) = and_split _ (ltb 0 (le (take 4 frame))) abc in
    let (_, stamped) = and_split (leb 12 (length b - offset)) (le (drop 4 frame) == count) ab in
    let room = leb→le (le (take 4 frame)) (length b - offset - 12) fits in
    let len = le (take 4 frame) in
    let some_len : 0 < len = ltb→lt 0 (le (take 4 frame)) pos in
    let same = ok_injective h₂ in
    let to : offset + (12 + len) ≡ next = ap (λ x. x.0) same in
    let body = take len (drop (offset + 12) b) in
    let body_len : length body ≡ len =
      omega (arith, length-take len (drop (offset + 12) b), length-drop (offset + 12) b) in
    let twelve : offset + 12 - offset ≡ 12 = omega arith in
    let first : frame ≡ take 12 (drop offset b) =
      frame_lem ∙ ap (λ (n : ℕ). take n (drop offset b)) twelve in
    let place : offset + 12 + len ≡ next = omega arith in
    record {
      head = frame;
      body = body;
      split =
          drop-take-drop b offset 12
          ∙ ap₂ (λ (x y : Bytes). x ++ y) (sym first)
              (drop-take-drop b (offset + 12) len ∙ ap (λ (n : ℕ). body ++ drop n b) place);
      head_size = omega arith;
      body_size = sym body_len;
      stamp = (==_iff (le (drop 4 frame)) count).0 stamped;
      some_body = omega arith;
      next_number = sym (ap (λ x. x.1) same);
      forward = omega arith;
      inside = omega arith;
    }

packets-IsPackets :
    (fuel : ℕ) (b : Bytes) (offset count : ℕ) {n : ℕ}
    → offset ≤ length b
    → packets fuel b offset count ≡ some (ok n)
    → (ps : List Bytes) × IsPackets count ps (drop offset b) × (n ≡ count + length ps)
unfolding packets IsPackets
packets-IsPackets zero b offset count l h = absurd (none-ne-some _ h)
packets-IsPackets (suc fuel) b offset count {n} l h = elim (Bool-cases (ltb offset (length b))) [
  | inr e ↦
      let last : length b ≤ offset = ground arith in
      let all_read : ok count ≡ ok n = some_inj.0 (rw e at h) in
      ([], drop_beyond offset b last, sym (ok_injective all_read) ∙ plus_none count)
  | inl e ↦ elim (Result-cases (packet b offset count)) [
    | inr (s, r) ↦ absurd (err-ne-ok (some_inj.0 (rw (e, r) at h)))
    | inl ((next, number), r) ↦
        let t = packet-Taken b offset count r in
        let (ps, more, total) = packets-IsPackets fuel b next number t.inside (rw (e, r) at h) in
        let rest = subst (λ (k : ℕ). IsPackets k ps (drop next b)) t.next_number more in
        let number_lem = t.next_number in
        (
          t.body ∷ ps,
          (t.head, drop next b, t.split, t.head_size, t.body_size, t.stamp, t.some_body, rest),
          omega arith,
        )
  ]
]

-- The loop ends: each packet goes forward.
packets_total :
    (fuel : ℕ) (b : Bytes) (offset count : ℕ)
    → 0 < fuel
    → length b < offset + fuel
    → (r : Result ℕ) × (packets fuel b offset count ≡ some r)
unfolding packets
packets_total zero b offset count p l = absurd (omega arith)
packets_total (suc fuel) b offset count p l = elim (Bool-cases (ltb offset (length b))) [
  | inr e ↦ (ok count, rw e refl)
  | inl e ↦ elim (Result-cases (packet b offset count)) [
    | inr (s, r) ↦ (err s, rw (e, r) refl)
    | inl ((next, number), r) ↦
        let t = packet-Taken b offset count r in
        let forward = t.forward in
        let inside = t.inside in
        let (v, done) = packets_total fuel b next number (omega arith) (omega arith) in
        (v, rw (e, r) done)
  ]
]

header_long : (b : Bytes) (info : VideoInfo) → ivf_header b info ≡ ok tt → 32 ≤ length b
unfolding ivf_header
header_long b info h =
    let (v, found, _) = >>=-eq-ok (context (range b 0 32) "unexpected end of file") _ h in
    (range-some b 0 32 (context-ok (range b 0 32) _ found)).1

-- For every file and every description, the checks end; and when they succeed, what follows the header
-- of 32 bytes is exactly the declared number of packets, stamped 0, 1, 2 and so on, none of them empty,
-- with nothing after the last.
pub validate_ivf-IsPackets :
    (b : Bytes) (info : VideoInfo)
    → (r : Result (Unit {0})) × (validate_ivf b info ≡ some r)
      × (r ≡ ok tt → (ps : List Bytes) × IsPackets 0 ps (drop 32 b) × (length ps ≡ info.frames))
unfolding validate_ivf
validate_ivf-IsPackets b info = elim (Result-cases (ivf_header b info)) [
  | inr (s, e) ↦ (err s, rw (validate_ivf, e) refl, (λ h. absurd (err-ne-ok h)))
  | inl (u, e) ↦
      let long = header_long b info e in
      let (v, done) = packets_total (length b + 1) b 32 0 (omega arith) (omega arith) in
      elim (Result-cases v) [
        | inr (s, f) ↦ (err s, rw (validate_ivf, e, done, f) refl, (λ h. absurd (err-ne-ok h)))
        | inl (n, f) ↦ (
          (ensure (n == info.frames) "IVF actual packet count mismatch"),
          rw (validate_ivf, e, done, f) refl,
          (λ h.
              let (ps, are, total) =
                packets-IsPackets (length b + 1) b 32 0 long (done ∙ ap some f) in
              let count = (==_iff n info.frames).0 (ensure-ok (n == info.frames) _ h) in
              (ps, are, omega arith)),
        )
      ]
]

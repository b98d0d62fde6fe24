-- ===== src/Usm/Mask/Lanes.antt =====
-- The masks of src/usm.rs byte by byte: the passes over rows of 32 bytes do what a loop over the
-- bytes with mask lane `i & 0x1F` does.
use moenotes_assets.Base.{
  ℕ, zero, suc, ◌+◌, ◌-◌, ◌*◌, ◌%◌, ◌≤◌, ◌<◌, bit_xor, true, false, ◌||◌, [], ◌∷◌, ◌++◌, ◌≡◌, inl,
  inr, refl, sym, ap, ◌∙◌, arith, leb, ltb, if◌then◌else◌, length, take, drop, get_or, Bool-cases,
  length-drop, length-append, lt→ltb, get_or_beyond,
}
use moenotes_assets.Base.Bytes.{Bytes}
use moenotes_assets.Base.{
  drop-drop, length-take, get_or-append_left, get_or-append_of, get_or-take, get_or-drop, dec_lt,
}
use moenotes_assets.Usm.Mask.{rows, xors, audio_rows, mask_audio, row_count, remainder}

abbrev pub byte_at : Bytes → ℕ → ℕ
byte_at b i = get_or b i 0

pub length-xors : (xs ms : Bytes) → length (xors xs ms) ≡ length xs
unfolding xors
length-xors [] ms = refl
length-xors (x ∷ xs) [] = refl
length-xors (x ∷ xs) (m ∷ ms) = ap suc (length-xors xs ms)

pub byte_at-xors :
    (xs ms : Bytes) (i : ℕ)
    → i < length xs
    → i < length ms
    → byte_at (xors xs ms) i ≡ bit_xor (byte_at xs i) (byte_at ms i)
unfolding xors
byte_at-xors [] ms i h k = absurd (omega arith)
byte_at-xors (x ∷ xs) [] i h k = absurd (omega arith)
byte_at-xors (x ∷ xs) (m ∷ ms) zero h k = refl
byte_at-xors (x ∷ xs) (m ∷ ms) (suc i) h k = byte_at-xors xs ms i (omega arith) (omega arith)

pub drop_row : (k : ℕ) (xs : Bytes) → drop (suc k * 32) xs ≡ drop (k * 32) (drop 32 xs)
drop_row k xs = let e : suc k * 32 ≡ 32 + k * 32 = omega arith in rw (e, drop-drop 32 (k * 32) xs)

-- A byte of a row, and a byte behind it, of the bytes that a first row and the rest stand in.
module _ (region more : Bytes) (h : 32 ≤ length region) where
  size : length (take 32 region) ≡ 32
  size = omega (arith, length-take {0} 32 region)

  pub left :
      (ms : Bytes) (i : ℕ)
      → i < 32
      → length ms ≡ 32
      → byte_at (xors (take 32 region) ms ++ more) i ≡ bit_xor (byte_at region i) (byte_at ms i)
  left ms i lt m =
      get_or-append_left (xors (take 32 region) ms) more i 0 (rw (length-xors, size) lt)
      ∙ byte_at-xors (take 32 region) ms i (rw size lt) (rw m lt)
      ∙ rw (get_or-take 32 region i 0 lt)

  pub right :
      (ms : Bytes) (i : ℕ)
      → 32 ≤ i
      → byte_at (xors (take 32 region) ms ++ more) i ≡ byte_at more (i - 32)
  right ms i ge =
      let s : length (xors (take 32 region) ms) ≡ 32 = rw (length-xors, size) in
      let e : i ≡ 32 + (i - 32) = omega arith in
      ap (λ (n : ℕ). byte_at (xors (take 32 region) ms ++ more) n) e
      ∙ get_or-append_of 32 (xors (take 32 region) ms) more (i - 32) 0 s

audio_rows_at :
    (k : ℕ) (region amask : Bytes) (i : ℕ)
    → length amask ≡ 32
    → k * 32 ≤ length region
    → length region < k * 32 + 32
    → i < length region
    → byte_at (audio_rows (rows k region) (drop (k * 32) region) amask) i
      ≡ bit_xor (byte_at region i) (byte_at amask (i % 32))
unfolding rows audio_rows
audio_rows_at zero region amask i m lo hi h =
    let e : i % 32 ≡ i = omega arith in rw e (byte_at-xors region amask i h (omega arith))
audio_rows_at (suc k) region amask i m lo hi h = elim (dec_lt i 32) [
  | yes lt ↦ let e : i % 32 ≡ i = omega arith in rw e (left region _ (omega arith) amask i lt m)
  | no ge ↦
      let e : i % 32 ≡ (i - 32) % 32 = omega arith in
      let back : 32 + (i - 32) ≡ i = omega arith in
      right region _ (omega arith) amask i (omega arith)
      ∙ rw (drop_row k region) (
          audio_rows_at k (drop 32 region) amask (i - 32) m
            (omega (arith, length-drop {0} 32 region)) (omega (arith, length-drop {0} 32 region))
            (omega (arith, length-drop {0} 32 region))
          ∙ rw (get_or-drop 32 region (i - 32) 0, back, e))
]

length-audio_rows :
    (k : ℕ) (region amask : Bytes)
    → length (audio_rows (rows k region) (drop (k * 32) region) amask) ≡ length region
unfolding rows audio_rows
length-audio_rows zero region amask = length-xors region amask
length-audio_rows (suc k) region amask =
    rw
      (
        drop_row k region,
        length-append (xors (take 32 region) amask)
            (audio_rows (rows k (drop 32 region)) (drop (k * 32) (drop 32 region)) amask),
        length-xors,
        length-audio_rows k (drop 32 region) amask,
        length-take,
        length-drop,
      )
      (omega arith)

length-mask_audio : (buf amask : Bytes) → length (mask_audio buf amask) ≡ length buf
unfolding mask_audio
length-mask_audio buf amask = elim (Bool-cases (ltb (length buf) 0x140)) [
  | inl short ↦ rw short
  | inr long ↦
      let region = drop 0x140 buf in
      rw long (
        rw
          (
            length-append (take 0x140 buf)
                (audio_rows (rows (row_count region) region) (remainder region) amask),
            length-audio_rows (row_count region) region amask,
            length-take,
            length-drop,
          )
          (omega arith))
]

mask_audio_short : (buf amask : Bytes) → length buf < 0x140 → mask_audio buf amask ≡ buf
unfolding mask_audio
mask_audio_short buf amask h = rw (lt→ltb (length buf) 0x140 h)

module _ (buf amask : Bytes) (i : ℕ) (long : 0x140 ≤ length buf) where
  not_short : ltb (length buf) 0x140 ≡ false
  not_short = ground arith

  mask_audio_head : i < 0x140 → byte_at (mask_audio buf amask) i ≡ byte_at buf i
  unfolding mask_audio
  mask_audio_head h = rw not_short (
      get_or-append_left (take 0x140 buf) _ i 0 (omega (arith, length-take {0} 0x140 buf))
      ∙ get_or-take 0x140 buf i 0 h)

  mask_audio_tail :
      length amask ≡ 32
      → 0x140 ≤ i
      → i < length buf
      → byte_at (mask_audio buf amask) i
        ≡ bit_xor (byte_at buf i) (byte_at amask ((i - 0x140) % 32))
  unfolding mask_audio
  mask_audio_tail m lo hi =
      let region = drop 0x140 buf in
      let size : length region ≡ length buf - 0x140 = length-drop {0} 0x140 buf in
      let back : 0x140 + (i - 0x140) ≡ i = omega arith in
      let there =
        get_or-append_of 0x140 (take 0x140 buf)
          (audio_rows (rows (row_count region) region) (remainder region) amask) (i - 0x140) 0
          (omega (arith, length-take {0} 0x140 buf)) in
      rw not_short (
        rw back at there
        ∙ audio_rows_at (row_count region) region amask (i - 0x140) m (omega arith) (omega arith)
            (omega arith)
        ∙ rw (get_or-drop 0x140 buf (i - 0x140) 0, back))

-- `mask_audio` keeps every byte before 0x140, and applies mask lane `(i - 0x140) % 32` to each
-- byte `i` from there on, by exclusive or; a buffer shorter than that stays as it is.
pub mask_audio_at :
    (buf amask : Bytes) (i : ℕ)
    → length amask ≡ 32
    → byte_at (mask_audio buf amask) i ≡ (
        if ltb i 0x140 || leb (length buf) i
        then byte_at buf i
        else bit_xor (byte_at buf i) (byte_at amask ((i - 0x140) % 32)))
mask_audio_at buf amask i m = elim (dec_lt i (length buf)) [
  | no beyond ↦
      let b : length buf ≤ i = omega arith in
      let test : (ltb i 0x140 || leb (length buf) i) ≡ true = ground arith in
      rw test (
        get_or_beyond (mask_audio buf amask) i 0 (rw length-mask_audio b)
        ∙ sym (get_or_beyond buf i 0 b))
  | yes inside ↦ elim (dec_lt i 0x140) [
    | yes head ↦
        let test : (ltb i 0x140 || leb (length buf) i) ≡ true = ground arith in
        rw test (elim (dec_lt (length buf) 0x140) [
          | yes short ↦ rw (mask_audio_short buf amask short)
          | no long ↦ mask_audio_head buf amask i (omega arith) head
        ])
    | no tail ↦
        let test : (ltb i 0x140 || leb (length buf) i) ≡ false = ground arith in
        rw test (mask_audio_tail buf amask i (omega arith) m (omega arith) inside)
  ]
]

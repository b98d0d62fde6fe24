-- ===== src/Usm/Mask.antt =====
-- src/usm.rs: the packet masks, `get_mask`, `mask_video` and `mask_audio`. A buffer changed in place
-- is the list before and the list after.
pub mod Lanes
pub mod Video
pub mod Packet
use moenotes_assets.Base.{
  ℕ, zero, suc, ◌+◌, ◌-◌, ◌*◌, ◌/◌, ◌%◌, ◌^◌, bit_xor, Bool, List, [], ◌∷◌, ◌++◌, map, ltb, ◌==◌,
  if◌then◌else◌, length, take, drop, get_or,
}
use moenotes_assets.Base.Bytes.{Bytes, codes}

abbrev pub mask_len : ℕ
mask_len = 32

-- `(a as u16 + b as u16) as u8`, `(a as i16 - b as i16) as u8` and `a >> k & 0xFF`
abbrev add8 : ℕ → ℕ → ℕ
add8 a b = (a + b) % 256

abbrev sub8 : ℕ → ℕ → ℕ
sub8 a b = (a + 256 - b) % 256

abbrev octet : ℕ → ℕ → ℕ
octet a k = a / 2 ^ k % 256

pub record Masks : Type 0 where
  pub video1 : Bytes
  pub video2 : Bytes
  pub audio : Bytes

unfoldable pub key_table : ℕ → Bytes
key_table key =
    let key1 = key % 2 ^ 32 in
    let key2 = key / 2 ^ 32 % 2 ^ 32 in
    let t00 = octet key1 0 in
    let t01 = octet key1 8 in
    let t02 = octet key1 16 in
    let t03 = sub8 (octet key1 24) 0x34 in
    let t04 = add8 (key2 % 16) 0xf9 in
    let t05 = bit_xor (octet key2 8) 0x13 in
    let t06 = add8 (octet key2 16) 0x61 in
    let t07 = bit_xor t00 0xff in
    let t08 = add8 t02 t01 in
    let t09 = sub8 t01 t07 in
    let t0a = bit_xor t02 0xff in
    let t0b = bit_xor t01 0xff in
    let t0c = add8 t0b t09 in
    let t0d = sub8 t08 t03 in
    let t0e = bit_xor t0d 0xff in
    let t0f = sub8 t0a t0b in
    let t10 = sub8 t08 t0f in
    let t11 = bit_xor t10 t07 in
    let t12 = bit_xor t0f 0xff in
    let t13 = bit_xor t03 0x10 in
    let t14 = sub8 t04 0x32 in
    let t15 = add8 t05 0xed in
    let t16 = bit_xor t06 0xf3 in
    let t17 = sub8 t13 t0f in
    let t18 = add8 t15 t07 in
    let t19 = sub8 0x21 t13 in
    let t1a = bit_xor t14 t17 in
    let t1b = add8 t16 t16 in
    let t1c = add8 t17 0x44 in
    let t1d = add8 t03 t04 in
    let t1e = sub8 t05 t16 in
    let t1f = bit_xor t1d t13 in
    t00 ∷ t01 ∷ t02 ∷ t03 ∷ t04 ∷ t05 ∷ t06 ∷ t07 ∷ t08 ∷ t09 ∷ t0a ∷ t0b ∷ t0c ∷ t0d ∷ t0e ∷ t0f
    ∷ t10 ∷ t11 ∷ t12 ∷ t13 ∷ t14 ∷ t15 ∷ t16 ∷ t17 ∷ t18 ∷ t19 ∷ t1a ∷ t1b ∷ t1c ∷ t1d ∷ t1e ∷ t1f
    ∷ []

-- `amask[i]` from `t[i]` on: odd places hold the letters of "URUC" in turn.
unfoldable pub audio_mask : ℕ → Bytes → Bytes
audio_mask i [] = []
audio_mask i (t ∷ ts) =
    (if i % 2 == 0 then bit_xor t 0xff else get_or (codes "URUC") (i / 2 % 4) 0)
    ∷ audio_mask (i + 1) ts

unfoldable pub get_mask : ℕ → Masks
unfolding key_table audio_mask
get_mask key =
    let t = key_table key in
    record { video1 = t; video2 = map (λ x. bit_xor x 0xff) t; audio = audio_mask 0 t }

-- `as_chunks_mut`: the whole rows of 32 bytes, and what is left.
unfoldable pub rows : ℕ → Bytes → List Bytes
rows zero xs = []
rows (suc k) xs = take mask_len xs ∷ rows k (drop mask_len xs)

abbrev pub row_count : Bytes → ℕ
row_count xs = length xs / mask_len

abbrev pub remainder : Bytes → Bytes
remainder xs = drop (row_count xs * mask_len) xs

-- `row[j] ^= mask[j]` for each `j` of the row
unfoldable pub xors : Bytes → Bytes → Bytes
xors (x ∷ xs) (m ∷ ms) = bit_xor x m ∷ xors xs ms
xors xs _ = xs

-- The second pass over the rows, with the mask that each row leaves to the next.
unfoldable pub video_rows : List Bytes → Bytes → Bytes → Bytes → Bytes
unfolding xors
video_rows [] rest mask vm1 = xors rest mask
video_rows (row ∷ more) rest mask vm1 =
    let out = xors row mask in out ++ video_rows more rest (xors out vm1) vm1

unfoldable pub second_pass : Bytes → Bytes → Bytes
unfolding rows video_rows
second_pass region vm1 = video_rows (rows (row_count region) region) (remainder region) vm1 vm1

-- The first pass: lane `i & 0x1F` of the mask, which stands first here and goes to the back,
-- takes in the decoded byte before it is applied.
unfoldable pub first_pass : Bytes → Bytes → Bytes → Bytes
first_pass (a ∷ as') (v ∷ vs) (m ∷ mask) =
    bit_xor a (bit_xor m v) ∷ first_pass as' vs (mask ++ bit_xor m v ∷ [])
first_pass as' _ _ = as'

unfoldable pub mask_video : Bytes → Masks → Bytes
unfolding first_pass second_pass
mask_video buf masks =
    if ltb (length buf - 0x40) 0x200
    then buf
    else let decoded = second_pass (drop 0x140 buf) masks.video2 in
      take 0x40 buf
      ++ (first_pass (take 0x100 (drop 0x40 buf)) (take 0x100 decoded) masks.video1 ++ decoded)

unfoldable pub audio_rows : List Bytes → Bytes → Bytes → Bytes
unfolding xors
audio_rows [] rest amask = xors rest amask
audio_rows (row ∷ more) rest amask = xors row amask ++ audio_rows more rest amask

-- `get_mut(0x140..)` fails on a shorter buffer.
unfoldable pub mask_audio : Bytes → Bytes → Bytes
unfolding rows audio_rows
mask_audio buf amask =
    if ltb (length buf) 0x140
    then buf
    else let region = drop 0x140 buf in
      take 0x140 buf ++ audio_rows (rows (row_count region) region) (remainder region) amask

-- ===== src/Usm/Mask/Packet.antt =====
-- `mask_video` of src/usm.rs on a whole packet: which bytes it changes, and to what.
use moenotes_assets.Base.{
  ℕ, zero, suc, ◌+◌, ◌-◌, ◌%◌, ◌≤◌, ◌<◌, bit_xor, false, [], ◌∷◌, ◌++◌, ◌≡◌, refl, ap, ◌∙◌, arith,
  ltb, length, take, drop,
}
use moenotes_assets.Base.Bytes.{Bytes}
use moenotes_assets.Base.{
  length-take, length-drop, length-append, get_or-append_left, get_or-append_of, get_or-take,
  get_or-drop, lt→ltb,
}
use moenotes_assets.Base.Xor.{bit_xor_undo_left}
use moenotes_assets.Usm.Mask.{Masks, mask_video, second_pass, first_pass}
use moenotes_assets.Usm.Mask.Lanes.{byte_at}
use moenotes_assets.Usm.Mask.Video.{length-second_pass, second_pass_first, second_pass_next}

length-first_pass : (as' vs mask : Bytes) → length (first_pass as' vs mask) ≡ length as'
unfolding first_pass
length-first_pass [] vs mask = refl
length-first_pass (a ∷ as') [] mask = refl
length-first_pass (a ∷ as') (v ∷ vs) [] = refl
length-first_pass (a ∷ as') (v ∷ vs) (m ∷ mask) =
    ap suc (length-first_pass as' vs (mask ++ bit_xor m v ∷ []))

first_pass_first :
    (as' vs mask : Bytes) (i : ℕ)
    → i < length mask
    → i < length as'
    → i < length vs
    → byte_at (first_pass as' vs mask) i
      ≡ bit_xor (byte_at as' i) (bit_xor (byte_at mask i) (byte_at vs i))
unfolding first_pass
first_pass_first [] vs mask i m a v = absurd (omega arith)
first_pass_first (a ∷ as') [] mask i m h v = absurd (omega arith)
first_pass_first (a ∷ as') (v ∷ vs) [] i m h k = absurd (omega arith)
first_pass_first (a ∷ as') (v ∷ vs) (x ∷ mask) zero m h k = refl
first_pass_first (a ∷ as') (v ∷ vs) (x ∷ mask) (suc i) m h k =
    let mask' = mask ++ bit_xor x v ∷ [] in
    first_pass_first as' vs mask' i (rw (length-append mask (bit_xor x v ∷ [])) (omega arith))
      (omega arith) (omega arith)
    ∙ rw (get_or-append_left mask (bit_xor x v ∷ []) i 0 (omega arith))

first_pass_next :
    (as' vs mask : Bytes) (n i : ℕ)
    → length mask ≡ suc n
    → i + suc n < length as'
    → i + suc n < length vs
    → byte_at (first_pass as' vs mask) (i + suc n)
      ≡ bit_xor (byte_at as' (i + suc n)) (
          bit_xor
            (bit_xor (byte_at as' i) (byte_at (first_pass as' vs mask) i))
            (byte_at vs (i + suc n)))
unfolding first_pass
first_pass_next [] vs mask n i m a v = absurd (omega arith)
first_pass_next (a ∷ as') [] mask n i m h v = absurd (omega arith)
first_pass_next (a ∷ as') (v ∷ vs) [] n i m h k = absurd (omega arith)
first_pass_next (a ∷ as') (v ∷ vs) (x ∷ mask) n zero m h k =
    let key = bit_xor x v in
    let mask' = mask ++ key ∷ [] in
    let size : length mask' ≡ suc n = rw (length-append mask (key ∷ [])) (omega arith) in
    let e : 0 + suc n ≡ suc n = omega arith in
    let z : n + 0 ≡ n = omega arith in
    let last = get_or-append_of n mask (key ∷ []) 0 0 (omega arith) in
    rw e (
      first_pass_first as' vs mask' n (omega arith) (omega arith) (omega arith)
      ∙ rw (rw z at last, bit_xor_undo_left a key))
first_pass_next (a ∷ as') (v ∷ vs) (x ∷ mask) n (suc i) m h k =
    let key = bit_xor x v in
    let mask' = mask ++ key ∷ [] in
    let size : length mask' ≡ suc n = rw (length-append mask (key ∷ [])) (omega arith) in
    let e : suc i + suc n ≡ suc (i + suc n) = omega arith in
    rw e (first_pass_next as' vs mask' n i size (omega arith) (omega arith))

-- `out` is `buf` with the two passes of the packet mask, each described by its own bytes.
pub record IsDecoded (buf out : Bytes) (masks : Masks) : Type 0 where
  pub size : length out ≡ length buf
  pub header : (i : ℕ) → i < 0x40 → byte_at out i ≡ byte_at buf i
  pub first_row :
      (i : ℕ)
      → i < 32
      → byte_at out (0x140 + i) ≡ bit_xor (byte_at buf (0x140 + i)) (byte_at masks.video2 i)
  pub later_rows :
      (i : ℕ)
      → i + 0x160 < length buf
      → byte_at out (0x140 + (i + 32))
        ≡ bit_xor
            (byte_at buf (0x140 + (i + 32)))
            (bit_xor (byte_at out (0x140 + i)) (byte_at masks.video2 (i % 32)))
  pub front_first_row :
      (i : ℕ)
      → i < 32
      → byte_at out (0x40 + i)
        ≡ bit_xor
            (byte_at buf (0x40 + i))
            (bit_xor (byte_at masks.video1 i) (byte_at out (0x140 + i)))
  pub front_later_rows :
      (i : ℕ)
      → i + 32 < 0x100
      → byte_at out (0x40 + (i + 32))
        ≡ bit_xor (byte_at buf (0x40 + (i + 32))) (
            bit_xor
              (bit_xor (byte_at buf (0x40 + i)) (byte_at out (0x40 + i)))
              (byte_at out (0x140 + (i + 32))))

-- A packet below 0x240 bytes is not masked: `mask_video` returns it as it is.
pub mask_video_short :
    (buf : Bytes) (masks : Masks) → length buf < 0x240 → mask_video buf masks ≡ buf
unfolding mask_video
mask_video_short buf masks h = rw (lt→ltb (length buf - 0x40) 0x200 (omega arith))

module _ (buf : Bytes) (masks : Masks) (long : 0x240 ≤ length buf) where
  abbrev decoded : Bytes
  decoded = second_pass (drop 0x140 buf) masks.video2

  abbrev front : Bytes
  front = first_pass (take 0x100 (drop 0x40 buf)) (take 0x100 decoded) masks.video1

  mask_video_parts : mask_video buf masks ≡ take 0x40 buf ++ (front ++ decoded)
  unfolding mask_video
  mask_video_parts = let no : ltb (length buf - 0x40) 0x200 ≡ false = ground arith in rw no

  length-front : length front ≡ 0x100
  length-front =
      length-first_pass (take 0x100 (drop 0x40 buf)) (take 0x100 decoded) masks.video1
      ∙ omega (arith, length-take {0} 0x100 (drop 0x40 buf), length-drop {0} 0x40 buf)

  length-decoded : length decoded ≡ length buf - 0x140
  length-decoded = length-second_pass (drop 0x140 buf) masks.video2 ∙ length-drop 0x140 buf

  mask_video_behind : (i : ℕ) → byte_at (mask_video buf masks) (0x140 + i) ≡ byte_at decoded i
  mask_video_behind i =
      let size : length (take 0x40 buf) ≡ 0x40 = omega (arith, length-take {0} 0x40 buf) in
      let e : 0x140 + i ≡ 0x40 + (0x100 + i) = omega arith in
      rw (mask_video_parts, e)
        (get_or-append_of 0x40 (take 0x40 buf) (front ++ decoded) (0x100 + i) 0 size
          ∙ get_or-append_of 0x100 front decoded i 0 length-front)

  mask_video-front :
      (i : ℕ) → i < 0x100 → byte_at (mask_video buf masks) (0x40 + i) ≡ byte_at front i
  mask_video-front i h =
      let size : length (take 0x40 buf) ≡ 0x40 = omega (arith, length-take {0} 0x40 buf) in
      rw mask_video_parts (
        get_or-append_of 0x40 (take 0x40 buf) (front ++ decoded) i 0 size
        ∙ get_or-append_left front decoded i 0 (rw length-front h))

  abbrev region : Bytes
  region = drop 0x140 buf

  abbrev window : Bytes
  window = take 0x100 (drop 0x40 buf)

  abbrev seen : Bytes
  seen = take 0x100 decoded

  region_size : length region ≡ length buf - 0x140
  region_size = length-drop 0x140 buf

  window_size : length window ≡ 0x100
  window_size = omega (arith, length-take {0} 0x100 (drop 0x40 buf), length-drop {0} 0x40 buf)

  seen_size : length seen ≡ 0x100
  seen_size = omega (arith, length-take {0} 0x100 decoded, length-decoded)

  window_at : (i : ℕ) → i < 0x100 → byte_at window i ≡ byte_at buf (0x40 + i)
  window_at i h = get_or-take 0x100 (drop 0x40 buf) i 0 h ∙ get_or-drop 0x40 buf i 0

  seen_at : (i : ℕ) → i < 0x100 → byte_at seen i ≡ byte_at decoded i
  seen_at i h = get_or-take 0x100 decoded i 0 h

  size_lem : length (mask_video buf masks) ≡ length buf
  size_lem =
      rw
        (
          mask_video_parts,
          length-append (take 0x40 buf) (front ++ decoded),
          length-append front decoded,
        )
        (omega (arith, length-take {0} 0x40 buf, length-front, length-decoded))

  -- A packet of at least 0x240 bytes keeps its length and its first 0x40 bytes. From 0x140 on,
  -- each byte is changed by the second mask, and after the first 32 by the byte just written 32
  -- places before it too; the 0x100 bytes before that are changed, lane by lane, by the first
  -- mask and all bytes that were written 0x100 places behind, in that lane, so far.
  pub mask_video-IsDecoded :
      length masks.video1 ≡ 32
      → length masks.video2 ≡ 32
      → IsDecoded buf (mask_video buf masks) masks
  mask_video-IsDecoded one two = record {
    size = size_lem;
    header = λ i h. rw mask_video_parts (
        get_or-append_left (take 0x40 buf) (front ++ decoded) i 0
          (omega (arith, length-take {0} 0x40 buf))
        ∙ get_or-take 0x40 buf i 0 h);
    first_row = λ i h. rw (
      mask_video_behind i,
      second_pass_first region masks.video2 i two h (omega (arith, region_size)),
      get_or-drop 0x140 buf i 0,
    );
    later_rows = λ i h.
        rw (mask_video_behind (i + 32), mask_video_behind i)
          (second_pass_next region masks.video2 i two (omega (arith, region_size))
            ∙ rw (get_or-drop 0x140 buf (i + 32) 0));
    front_first_row = λ i h.
        rw (mask_video-front i (omega arith), mask_video_behind i)
          (first_pass_first window seen masks.video1 i (omega arith) (omega (arith, window_size))
              (omega (arith, seen_size))
            ∙ rw (window_at i (omega arith), seen_at i (omega arith)));
    front_later_rows = λ i h.
        rw
          (
            mask_video-front (i + 32) h,
            mask_video-front i (omega arith),
            mask_video_behind (i + 32),
          )
          (first_pass_next window seen masks.video1 31 i one (omega (arith, window_size))
              (omega (arith, seen_size))
            ∙ rw (window_at i (omega arith), window_at (i + 32) h, seen_at (i + 32) h));
  }

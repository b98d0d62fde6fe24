-- ===== src/Usm/Mask/Video.antt =====
-- `mask_video` of src/usm.rs byte by byte.
use moenotes_assets.Base.{
  ℕ, zero, suc, ◌+◌, ◌-◌, ◌*◌, ◌%◌, ◌≤◌, ◌<◌, bit_xor, ◌≡◌, ◌∙◌, arith, length, take, drop,
}
use moenotes_assets.Base.Bytes.{Bytes}
use moenotes_assets.Base.{
  length-take, length-drop, length-append, get_or-append_left, get_or-drop, dec_lt,
}
use moenotes_assets.Usm.Mask.{rows, xors, video_rows, second_pass, row_count}
use moenotes_assets.Usm.Mask.Lanes.{byte_at, length-xors, byte_at-xors, drop_row, left, right}

abbrev passes : ℕ → Bytes → Bytes → Bytes → Bytes
passes k region mask vm1 = video_rows (rows k region) (drop (k * 32) region) mask vm1

length-passes :
    (k : ℕ) (region mask vm1 : Bytes) → length (passes k region mask vm1) ≡ length region
unfolding rows video_rows
length-passes zero region mask vm1 = length-xors region mask
length-passes (suc k) region mask vm1 =
    let out = xors (take 32 region) mask in
    rw
      (
        drop_row k region,
        length-append out (passes k (drop 32 region) (xors out vm1) vm1),
        length-xors,
        length-passes k (drop 32 region) (xors out vm1) vm1,
        length-take,
        length-drop,
      )
      (omega arith)

-- The first 32 bytes meet the mask itself.
passes_first :
    (k : ℕ) (region mask vm1 : Bytes) (i : ℕ)
    → length mask ≡ 32
    → k * 32 ≤ length region
    → i < 32
    → i < length region
    → byte_at (passes k region mask vm1) i ≡ bit_xor (byte_at region i) (byte_at mask i)
unfolding rows video_rows
passes_first zero region mask vm1 i m lo lt h = byte_at-xors region mask i h (omega arith)
passes_first (suc k) region mask vm1 i m lo lt h = left region _ (omega arith) mask i lt m

-- Each later byte meets the byte of its lane that was just written, and the mask's.
passes_next :
    (k : ℕ) (region mask vm1 : Bytes) (i : ℕ)
    → length mask ≡ 32
    → length vm1 ≡ 32
    → k * 32 ≤ length region
    → length region < k * 32 + 32
    → i + 32 < length region
    → byte_at (passes k region mask vm1) (i + 32)
      ≡ bit_xor
          (byte_at region (i + 32))
          (bit_xor (byte_at (passes k region mask vm1) i) (byte_at vm1 (i % 32)))
unfolding rows video_rows
passes_next zero region mask vm1 i m v lo hi h = absurd (omega arith)
passes_next (suc k) region mask vm1 i m v lo hi h =
    let out = xors (take 32 region) mask in
    let rest = passes k (drop 32 region) (xors out vm1) vm1 in
    let long : 32 ≤ length region = omega arith in
    let out_size : length out ≡ 32 =
      length-xors (take 32 region) mask ∙ omega (arith, length-take {0} 32 region) in
    let mask_size : length (xors out vm1) ≡ 32 = length-xors out vm1 ∙ out_size in
    let lo' : k * 32 ≤ length (drop 32 region) = omega (arith, length-drop {0} 32 region) in
    let h' : i < length (drop 32 region) = omega (arith, length-drop {0} 32 region) in
    let back : i + 32 - 32 ≡ i = omega arith in
    let comm : 32 + i ≡ i + 32 = omega arith in
    rw (drop_row k region) (
      right region rest long mask (i + 32) (omega arith)
      ∙ rw back (elim (dec_lt i 32) [
        | yes lt ↦
            let e : i % 32 ≡ i = omega arith in
            passes_first k (drop 32 region) (xors out vm1) vm1 i mask_size lo' lt h'
            ∙ rw (
              get_or-drop 32 region i 0,
              comm,
              e,
              byte_at-xors out vm1 i (rw out_size lt) (rw v lt),
              get_or-append_left out rest i 0 (rw out_size lt),
            )
        | no ge ↦
            let e : i % 32 ≡ (i - 32) % 32 = omega arith in
            let there : i - 32 + 32 ≡ i = omega arith in
            let further : 32 + i ≡ i + 32 = omega arith in
            let ih =
              passes_next k (drop 32 region) (xors out vm1) vm1 (i - 32) mask_size v lo'
                (omega (arith, length-drop {0} 32 region))
                (omega (arith, length-drop {0} 32 region)) in
            rw there at ih
            ∙ rw (get_or-drop 32 region i 0, comm, e, right region rest long mask i (omega arith))
      ]))

pub length-second_pass : (region vm1 : Bytes) → length (second_pass region vm1) ≡ length region
unfolding second_pass
length-second_pass region vm1 = length-passes (row_count region) region vm1 vm1

pub second_pass_first :
    (region vm1 : Bytes) (i : ℕ)
    → length vm1 ≡ 32
    → i < 32
    → i < length region
    → byte_at (second_pass region vm1) i ≡ bit_xor (byte_at region i) (byte_at vm1 i)
unfolding second_pass
second_pass_first region vm1 i m lt h =
    passes_first (row_count region) region vm1 vm1 i m (omega arith) lt h

pub second_pass_next :
    (region vm1 : Bytes) (i : ℕ)
    → length vm1 ≡ 32
    → i + 32 < length region
    → byte_at (second_pass region vm1) (i + 32)
      ≡ bit_xor
          (byte_at region (i + 32))
          (bit_xor (byte_at (second_pass region vm1) i) (byte_at vm1 (i % 32)))
unfolding second_pass
second_pass_next region vm1 i m h =
    passes_next (row_count region) region vm1 vm1 i m m (omega arith) (omega arith) h

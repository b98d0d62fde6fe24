-- ===== src/Adx/Packets.antt =====
-- What `normalize` of src/adx.rs accepts and returns.
use moenotes_assets.Base.{
  refl, ℕ, ◌+◌, ◌*◌, ◌%◌, ◌≤◌, ◌<◌, true, ◌++◌, ◌≡◌, arith, length, take, drop, replicate,
  length-append, length-take, length-replicate, take-append_of, drop-append_of,
}
use moenotes_assets.Base.Outcome.{ok}
use moenotes_assets.Base.Bytes.{Bytes}
use moenotes_assets.Adx.{
  Info, normalize, header_size, channels_of, samples_of, blocks_of, end_of, supported_header,
  valid_header, valid_footer, padding,
}

record Accepted (raw : Bytes) (limit : ℕ) (out : Bytes) (info : Info) : Type 0 where
  supported : supported_header raw ≡ true
  valid : valid_header raw ≡ true
  budget : samples_of raw * channels_of raw * 2 ≤ limit
  fits : end_of raw ≤ length raw
  footer : valid_footer (drop (end_of raw) raw) ≡ true
  out_is :
      out ≡ take (end_of raw) raw ++ replicate (padding (blocks_of raw) * 18 * channels_of raw) 0
  padded : info.padded_blocks ≡ padding (blocks_of raw)
  channels : info.channels ≡ channels_of raw

normalize-Accepted :
    (raw : Bytes) (limit : ℕ) {out : Bytes} {info : Info}
    → normalize raw limit ≡ ok (out, info)
    → Accepted raw limit out info
unfolding normalize
normalize-Accepted raw limit h = ground arith

end_of_lem : (raw : Bytes) → end_of raw ≡ header_size raw + blocks_of raw * 18 * channels_of raw
unfolding end_of
end_of_lem raw = refl

padding_lem : (b : ℕ) → ((b + padding b) % 128 ≡ 0) × (padding b < 128)
unfolding padding
padding_lem b = omega arith

-- The output of `normalize` on `raw`: the input up to its last block, then zeros, in whole packets.
pub record IsPadded (raw out : Bytes) (info : Info) : Type 0 where
  pub blocks : end_of raw ≤ length raw
  pub packets : (blocks_of raw + info.padded_blocks) % 128 ≡ 0
  pub fewest : info.padded_blocks < 128
  pub size :
      length out ≡ header_size raw + (blocks_of raw + info.padded_blocks) * 18 * info.channels
  pub kept : take (end_of raw) out ≡ take (end_of raw) raw
  pub zeros : drop (end_of raw) out ≡ replicate (info.padded_blocks * 18 * info.channels) 0

-- When `normalize` succeeds, the output holds the input up to its last declared block unchanged,
-- then the fewest zero blocks that make the number of blocks a multiple of 128 (fewer than 128),
-- and nothing else; the declared blocks lie inside the input.
pub normalize-IsPadded :
    (raw : Bytes) (limit : ℕ) {out : Bytes} {info : Info}
    → normalize raw limit ≡ ok (out, info)
    → IsPadded raw out info
normalize-IsPadded raw limit {out} {info} h =
    let a = normalize-Accepted raw limit h in
    let p = padding_lem (blocks_of raw) in
    let head = take (end_of raw) raw in
    let zeros : Bytes = replicate (padding (blocks_of raw) * 18 * channels_of raw) 0 in
    let size : length head ≡ end_of raw = omega (arith, a.fits, length-take {0} (end_of raw) raw) in
    record {
      blocks = a.fits;
      packets = rw a.padded p.0;
      fewest = rw a.padded p.1;
      size =
          rw (a.out_is, a.padded, a.channels, length-append head zeros, length-replicate)
            (omega (arith, size, end_of_lem raw));
      kept = rw a.out_is (take-append_of (end_of raw) head zeros size);
      zeros = rw (a.out_is, a.padded, a.channels) (drop-append_of (end_of raw) head zeros size);
    }

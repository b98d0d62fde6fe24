-- ===== src/Tests/Media.antt =====
-- The fixtures of the unit tests of src/usm.rs, src/adx.rs and src/split_acb.rs.
use moenotes_assets.Adx.Packets.{IsPadded, normalize-IsPadded}
use moenotes_assets.Adx.{
  Info, normalize, header_size, channels_of, rate_of, samples_of, blocks_of, end_of,
  supported_header, valid_header, valid_footer, padding,
}
use moenotes_assets.Usm.Mask.Packet.{IsDecoded, mask_video-IsDecoded, mask_video_short}
use moenotes_assets.Usm.Mask.{mask_audio, Masks, mask_video, get_mask}
use moenotes_assets.Usm.Mask.Lanes.{byte_at, mask_audio_at}
use moenotes_assets.Usm.Demux.Returned.{AreTracks, extract-AreTracks}
use moenotes_assets.Usm.Demux.Total.{extract_total}
use moenotes_assets.Base.{
  ℕ, ◌+◌, ◌-◌, Option, none, some, List, [], ◌∷◌, ◌++◌, map, ◌≡◌, refl, length, replicate, take,
  ◌*◌, arith,
}
use moenotes_assets.Base.Outcome.{Result, ok}
use moenotes_assets.Base.Bytes.{Bytes, codes, equal, starts_with, range, be_bytes}
use moenotes_assets.Usm.Demux.{Stream, extract, find, put, demask, same_ids, codec_of}
use moenotes_assets.Usm.Table.{table_row, lookup}
use moenotes_assets.Usm.Video.{from_table, get, valid_timebase, valid_dimensions}
use moenotes_assets.Base.Utf8.{from_utf8}
use moenotes_assets.Base.Bytes.{be_from}

abbrev schema_of : ℕ → List (Bytes × ℕ) → Bytes
schema_of at [] = []
schema_of at ((k, v) ∷ fs) =
    0x34 ∷ (be_bytes 4 at ++ (be_bytes 4 v ++ schema_of (at + length k + 1) fs))

abbrev names_of : List (Bytes × ℕ) → Bytes
names_of [] = []
names_of ((k, v) ∷ fs) = k ++ 0 ∷ names_of fs

-- `utf` of the tests
abbrev utf : Bytes → List (Bytes × ℕ) → Bytes
utf name fields =
    let strings = 0 ∷ (name ++ 0 ∷ names_of fields) in
    let schema = schema_of (length name + 2) fields in
    let rows = 32 + length schema in
    let end = rows + length strings in
    codes "@UTF"
    ++ (be_bytes 4 (end - 8)
        ++ (be_bytes 4 (rows - 8)
            ++ (be_bytes 4 (rows - 8)
                ++ (be_bytes 4 (end - 8)
                    ++ (be_bytes 4 1
                        ++ (be_bytes 2 (length fields)
                            ++ (be_bytes 2 0 ++ (be_bytes 4 1 ++ (schema ++ strings)))))))))

abbrev chunk : Bytes → ℕ → Bytes → Bytes
chunk sig kind payload =
    sig
    ++ (be_bytes 4 (length payload + 24)
        ++ (be_bytes 2 24 ++ (0 ∷ 0 ∷ 0 ∷ 0 ∷ 0 ∷ kind ∷ []) ++ (replicate 16 0 ++ payload)))

abbrev video_header : Bytes
video_header = utf (codes "VIDEO_HDRINFO") (
    (codes "width", 8)
    ∷ (codes "height", 8)
    ∷ (codes "disp_width", 7)
    ∷ (codes "disp_height", 7)
    ∷ (codes "total_frames", 2)
    ∷ (codes "framerate_n", 30000)
    ∷ (codes "framerate_d", 1001)
    ∷ (codes "mpeg_codec", 1)
    ∷ [])

abbrev usm_file : Bytes
usm_file =
    chunk (codes "CRID") 1 (utf (codes "CRIUSF_DIR_STREAM") [])
    ++ (chunk (codes "@SFV") 1 video_header
        ++ (chunk (codes "@SFA") 1 (utf (codes "AUDIO_HDRINFO") ((codes "audio_codec", 2) ∷ []))
            ++ (chunk (codes "@SFV") 0 (codes "video-one")
                ++ (chunk (codes "@SFA") 0 (codes "audio")
                    ++ (chunk (codes "@SFA") 2 (codes "#CONTENTS END")
                        ++ (chunk (codes "@SFV") 3
                              (utf (codes "VIDEO_SEEKINFO") ((codes "ofs_frmid", 0) ∷ []))
                            ++ (chunk (codes "@SFV") 0 (codes "video-two")
                                ++ chunk (codes "@SFV") 2 (codes "#CONTENTS END"))))))))

abbrev contents : Option (Result (List Stream)) → List (Bytes × ℕ)
contents (some (ok ss)) = map (λ s. (s.content, s.chunks)) ss
contents _ = []

demuxes :
    contents (extract usm_file none 10000)
    ≡ (codes "audio", 1) ∷ (codes "video-onevideo-two", 2) ∷ []
unfolding extract range be_from equal table_row starts_with from_utf8 lookup find from_table get
    valid_timebase valid_dimensions put codec_of demask be_bytes same_ids
demuxes = refl

extract_total_example :
    (r : Result (List Stream)) × (extract usm_file (some 8_594_927_479) 10000 ≡ some r)
extract_total_example = extract_total usm_file (some 8_594_927_479) 10000

abbrev streams_of : Option (Result (List Stream)) → List Stream
streams_of (some (ok ss)) = ss
streams_of _ = []

extract-usm_file :
    extract usm_file none 10000 ≡ some (ok (streams_of (extract usm_file none 10000)))
unfolding extract range be_from equal table_row starts_with from_utf8 lookup find from_table get
    valid_timebase valid_dimensions put codec_of demask be_bytes same_ids
extract-usm_file = refl

extract-AreTracks_example : AreTracks (streams_of (extract usm_file none 10000))
extract-AreTracks_example = extract-AreTracks usm_file none 10000 extract-usm_file

abbrev mask_bytes : Bytes
mask_bytes = replicate 32 0x5a

mask_audio_at_example : byte_at (mask_audio (replicate 0x141 7) mask_bytes) 0x140 ≡ 0x5d
mask_audio_at_example = mask_audio_at (replicate 0x141 7) mask_bytes 0x140 refl

masks : Masks
masks = record { video1 = mask_bytes; video2 = mask_bytes; audio = mask_bytes }

short_packet : mask_video (replicate 575 7) (get_mask 8_594_927_479) ≡ replicate 575 7
short_packet = mask_video_short (replicate 575 7) (get_mask 8_594_927_479) (omega arith)

mask_video-IsDecoded_example :
    IsDecoded (replicate 576 7) (mask_video (replicate 576 7) masks) masks
unfolding masks
mask_video-IsDecoded_example = mask_video-IsDecoded (replicate 576 7) masks (omega arith) refl refl

-- One block and the empty footer.
abbrev adx_file : Bytes
adx_file =
    0x80
    ∷ 0
    ∷ 0
    ∷ 32
    ∷ 3
    ∷ 18
    ∷ 4
    ∷ 1
    ∷ (be_bytes 4 48000
        ++ (be_bytes 4 31
            ++ (0
                ∷ 0
                ∷ 4
                ∷ 0
                ∷ (replicate 10 0
                    ++ (codes "(c)CRI" ++ (replicate 18 9 ++ (0x80 ∷ 1 ∷ 0 ∷ 0 ∷ [])))))))

abbrev adx_out : Bytes
adx_out = take 54 adx_file ++ replicate (127 * 18) 0

abbrev adx_info : Info
adx_info = record { channels = 1; rate = 48000; samples = 31; padded_blocks = 127 }

normalize-adx_file : normalize adx_file 1000 ≡ ok (adx_out, adx_info)
unfolding normalize be_bytes be_from equal header_size channels_of rate_of samples_of blocks_of
    end_of supported_header valid_header valid_footer padding
normalize-adx_file = refl

normalize-IsPadded_example : IsPadded adx_file adx_out adx_info
normalize-IsPadded_example = normalize-IsPadded adx_file 1000 normalize-adx_file

-- ===== src/Usm/Demux/Streams.antt =====
-- What the demuxer of src/usm.rs knows of its streams, and what it returns.
use moenotes_assets.Usm.Table.{Fields, table}
use moenotes_assets.Base.{
  ℕ, ◌+◌, ◌*◌, ◌≤◌, ◌<◌, Bool, true, false, not, ◌||◌, Option, some, ◌++◌, ◌≡◌, ◌⊎◌, inl, inr, refl,
  ap, arith, ◌==◌, if◌then◌else◌,
}
use moenotes_assets.Base.Outcome.{ok, >>=-eq-ok, ensure-eq-ok}
use moenotes_assets.Base.Bytes.{Bytes, codes, equal}
use moenotes_assets.Usm.Video.{VideoInfo, from_table, valid_timebase, valid_dimensions}
use moenotes_assets.Usm.Demux.{
  codec_of, audio_header, video_header, Masks, Chunk, Stream, Pending, stream_chunk, payload_chunk,
  header_chunk, marker_chunk, fresh, is_media, audio_sig, demask, audio_header, video_header,
}

-- The checks of `from_table`.
pub record IsVideo (v : VideoInfo) : Type 0 where
  pub frames_from : 0 < v.frames
  pub frames_to : v.frames ≤ 10_000_000
  pub rate_from : 0 < v.fps_n
  pub scale_from : 0 < v.fps_d
  pub rate_to : v.fps_n ≤ 240 * v.fps_d
  pub display_width_from : 0 < v.display_width
  pub display_height_from : 0 < v.display_height
  pub display_width_to : v.display_width ≤ v.width
  pub display_height_to : v.display_height ≤ v.height
  pub width_to : v.width ≤ 16384
  pub height_to : v.height ≤ 16384
  pub codec : (v.codec ≡ 1) ⊎ (v.codec ≡ 9)

checks-IsVideo :
    (v : VideoInfo)
    → valid_timebase v ≡ true
    → valid_dimensions v ≡ true
    → (v.codec == 1 || v.codec == 9) ≡ true
    → IsVideo v
unfolding valid_timebase valid_dimensions
checks-IsVideo v t d c = ground arith

-- The header of a stream has been read: a codec for audio, a valid video description otherwise.
abbrev pub Known : Stream → Type 0
Known s =
    (equal s.signature audio_sig ≡ true → (s.audio_codec ≡ some 2) ⊎ (s.audio_codec ≡ some 4))
    × (equal s.signature audio_sig ≡ false → (v : VideoInfo) × (s.video ≡ some v) × IsVideo v)

pub record IsSound (p : Pending) : Type 0 where
  pub media : is_media p.signature ≡ true
  pub known : p.header ≡ true → Known p.stream
  pub fed : 0 < p.chunks → p.header ≡ true
  pub closed : p.ended ≡ true → 0 < p.chunks

from_table-IsVideo : (t : Fields) {v : VideoInfo} → from_table t ≡ ok v → IsVideo v
unfolding from_table
from_table-IsVideo t {v} h = ground (arith, checks-IsVideo v)

pub fresh-IsSound : (c : Chunk) → is_media c.sig ≡ true → IsSound (fresh c)
unfolding fresh
fresh-IsSound c m = record {
  media = m;
  known = λ h. absurd (cc);
  fed = λ h. absurd (omega arith);
  closed = λ h. absurd (cc);
}

module _ (c : Chunk) (p : Pending) (s : IsSound p) where
  payload_chunk-IsSound :
      (masks : Option Masks) (limit total : ℕ) {sum : ℕ} {q : Pending}
      → payload_chunk masks limit c total p ≡ ok (sum, q)
      → IsSound q × (q.signature ≡ p.signature)
  unfolding payload_chunk
  payload_chunk-IsSound masks limit total {sum} {q} h =
      let parts : (p.header ≡ true)
          × (q ≡ record p {
            stream = record p.stream {
              content = p.content ++ demask masks c.sig p.audio_codec c.payload;
              chunks = p.chunks + 1;
            };
          }) =
        ground arith in
      rw parts.1 (
        record { media = s.media; known = s.known; fed = λ _. parts.0; closed = λ _. omega arith },
        refl,
      )

  marker_chunk-IsSound :
      {q : Pending} → marker_chunk c p ≡ ok q → IsSound q × (q.signature ≡ p.signature)
  unfolding marker_chunk
  marker_chunk-IsSound {q} h =
      let parts : (q ≡ p) ⊎ ((0 < p.chunks) × (q ≡ record p { ended = true })) = ground arith in
      elim parts [
        | inl e ↦ rw e (s, refl)
        | inr (fed, e) ↦
            rw e (record { media = s.media; known = s.known; fed = s.fed; closed = λ _. fed }, refl)
      ]

  audio_header-IsSound :
      equal p.signature audio_sig ≡ true
      → (name : Bytes) (t : Fields) {q : Pending} → audio_header name t p ≡ ok q
      → IsSound q × (q.signature ≡ p.signature)
  unfolding audio_header
  audio_header-IsSound audio name t {q} h =
      let codec = codec_of t in
      let (is_header, h₁) = ensure-eq-ok (equal name (codes "AUDIO_HDRINFO")) _ _ h in
      let (known, h₂) = ensure-eq-ok (codec == 2 || codec == 4) _ _ h₁ in
      let is : q
          ≡ record p { stream = record p.stream { audio_codec = some codec }; header = true } =
        ground arith in
      let which : (some codec ≡ some 2) ⊎ (some codec ≡ some 4) = ground arith in
      rw is (
        record {
          media = s.media;
          known = λ _. ((λ _. which), λ no'. absurd (cc));
          fed = λ _. refl;
          closed = s.closed;
        },
        refl,
      )

  video_header-IsSound :
      equal p.signature audio_sig ≡ false
      → (name : Bytes) (t : Fields) {q : Pending} → video_header name t p ≡ ok q
      → IsSound q × (q.signature ≡ p.signature)
  unfolding video_header
  video_header-IsSound video name t {q} h =
      let (is_header, h₁) = ensure-eq-ok (equal name (codes "VIDEO_HDRINFO")) _ _ h in
      let (info, valid, h₂) = >>=-eq-ok (from_table t) _ h₁ in
      let is : q ≡ record p { stream = record p.stream { video = some info }; header = true } =
        ground arith in
      rw is (
        record {
          media = s.media;
          known = λ _. ((λ yes'. absurd (cc)), λ _. (info, refl, from_table-IsVideo t valid));
          fed = λ _. refl;
          closed = s.closed;
        },
        refl,
      )

  header_case :
      (b : Bool) (name : Bytes) (t : Fields)
      → equal p.signature audio_sig ≡ b
      → {q : Pending} → (if b then audio_header name t p else video_header name t p) ≡ ok q
      → IsSound q × (q.signature ≡ p.signature)
  header_case true name t e h = audio_header-IsSound e name t h
  header_case false name t e h = video_header-IsSound e name t h

  header_chunk-IsSound :
      p.signature ≡ c.sig
      → {q : Pending} → header_chunk c p ≡ ok q
      → IsSound q × (q.signature ≡ p.signature)
  unfolding header_chunk
  header_chunk-IsSound e {q} h =
      let (open', h₁) = ensure-eq-ok (not p.header) _ _ h in
      let ((name, t), _, h₂) = >>=-eq-ok (table c.payload) _ h₁ in
      header_case (equal c.sig audio_sig) name t (ap (λ (x : Bytes). equal x audio_sig) e) h₂

  pub stream_chunk-IsSound :
      (masks : Option Masks) (limit total : ℕ)
      → p.signature ≡ c.sig
      → {sum : ℕ} {q : Pending} → stream_chunk masks limit c total p ≡ ok (sum, q)
      → IsSound q × (q.signature ≡ p.signature)
  unfolding stream_chunk
  stream_chunk-IsSound masks limit total e {sum} {q} h =
      let (still, h₁) = ensure-eq-ok (not p.ended) _ _ h in
      let parts : (payload_chunk masks limit c total p ≡ ok (sum, q))
          ⊎ ((header_chunk c p ≡ ok q) ⊎ ((marker_chunk c p ≡ ok q) ⊎ (q ≡ p))) =
        ground arith in
      elim parts [
        | inl r ↦ payload_chunk-IsSound masks limit total r
        | inr (inl r) ↦ header_chunk-IsSound e r
        | inr (inr (inl r)) ↦ marker_chunk-IsSound r
        | inr (inr (inr r)) ↦ rw r (s, refl)
      ]

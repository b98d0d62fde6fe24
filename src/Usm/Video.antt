-- ===== src/Usm/Video.antt =====
-- src/usm.rs: `VideoInfo::from_table`.
use moenotes_assets.Base.{ℕ, ◌*◌, ◌^◌, Bool, ◌&&◌, ◌||◌, leb, ltb, ◌==◌}
use moenotes_assets.Base.Outcome.{Result, ok, ensure, context, ◌>>=◌, ◌>>◌}
use moenotes_assets.Base.Bytes.{Bytes, codes}
use moenotes_assets.Usm.Table.{Fields, lookup}

pub record VideoInfo : Type 0 where
  pub width : ℕ
  pub height : ℕ
  pub display_width : ℕ
  pub display_height : ℕ
  pub frames : ℕ
  pub fps_n : ℕ
  pub fps_d : ℕ
  pub codec : ℕ

-- `get`: the field, as a `u32`
unfoldable pub get : Fields → Bytes → Result ℕ
get t key = do
  n ← context (lookup key t) "missing USM field"
  ensure (ltb n (2 ^ 32)) "USM integer overflow"
  ok n

unfoldable pub valid_timebase : VideoInfo → Bool
valid_timebase v =
    ltb 0 v.frames
    && leb v.frames 10_000_000
    && ltb 0 v.fps_n
    && ltb 0 v.fps_d
    && leb v.fps_n (240 * v.fps_d)

unfoldable pub valid_dimensions : VideoInfo → Bool
valid_dimensions v =
    ltb 0 v.display_width
    && ltb 0 v.display_height
    && leb v.display_width v.width
    && leb v.display_height v.height
    && leb v.width 16384
    && leb v.height 16384

unfoldable pub from_table : Fields → Result VideoInfo
from_table t = do
  width ← get t (codes "width")
  height ← get t (codes "height")
  display_width ← get t (codes "disp_width")
  display_height ← get t (codes "disp_height")
  frames ← get t (codes "total_frames")
  fps_n ← get t (codes "framerate_n")
  fps_d ← get t (codes "framerate_d")
  codec ← get t (codes "mpeg_codec")
  let v : VideoInfo = record {
    width = width;
    height = height;
    display_width = display_width;
    display_height = display_height;
    frames = frames;
    fps_n = fps_n;
    fps_d = fps_d;
    codec = codec;
  }
  ensure (valid_timebase v) "invalid USM timebase"
  ensure (valid_dimensions v) "invalid USM dimensions"
  ensure (v.codec == 1 || v.codec == 9) "unsupported USM video codec"
  ok v

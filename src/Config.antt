-- ===== src/Config.antt =====
-- src/config.rs: `worker_limits`, `validate` and `root`. `Url` is the third-party URL type, a
-- parameter with the accessors that `root` uses.
pub mod Limits
use moenotes_assets.Base.{
  ℕ, zero, suc, ◌+◌, ◌-◌, ◌*◌, ◌/◌, ◌%◌, ◌^◌, ◌≤◌, ◌<◌, min, bit_xor, Bool, true, false, not, ◌&&◌,
  ◌||◌, Option, none, some, List, [], ◌∷◌, ◌++◌, map, ◌≡◌, ◌≢◌, ◌↔◌, ◌⊎◌, inl, inr, refl, sym, ap,
  ◌∙◌, arith, leb, ltb, ◌==◌, within, if◌then◌else◌, length, take, drop, replicate, get_or,
  get_elem?, all, any, All, String, Bool-cases, Option-cases,
}
use moenotes_assets.Base.Outcome.{
  Result, ok, err, ensure, context, collect, ◌>>=◌, ◌>>◌, >>=-eq-ok, ensure-eq-ok,
}
use moenotes_assets.Base.Bytes.{
  Bytes, IsBytes, codes, equal, starts_with, range, checked_add, be, le,
}

pub record Urls : Type 1 where
  pub Url : Type 0
  pub parse : Bytes → Result Url
  pub username : Url → Bytes
  pub password : Url → Option Bytes
  pub host_str : Url → Option Bytes
  pub scheme : Url → Bytes

pub record Config : Type 0 where
  pub region : Bytes
  pub cdn_root : Bytes
  pub locale : Bytes
  pub bili_version : Bytes
  pub downloads : ℕ
  pub workers : ℕ
  pub videos : ℕ
  pub ffmpeg_threads : ℕ
  pub queue_limit : ℕ
  pub max_keys : ℕ
  pub temp_bytes : ℕ
  pub input_bytes : ℕ
  pub output_bytes : ℕ
  pub expanded_bytes : ℕ
  pub memory_threshold : ℕ
  pub worker_memory_bytes : ℕ
  pub worker_timeout_secs : ℕ
  pub download_timeout_secs : ℕ
  pub usm_decryption_overrides : List Bytes
  pub worker_cpu_seconds : Option ℕ
  pub worker_wall_seconds : Option ℕ
  pub video_cpu_seconds : Option ℕ
  pub video_wall_seconds : Option ℕ
  pub allow_loopback_http : Bool

-- `Default::default`, for the fields that are modelled
abbrev pub default_config : Config
default_config = record {
  region = codes "hk";
  cdn_root = [];
  locale = codes "zh-Hant";
  bili_version = codes "main";
  downloads = 8;
  workers = 2;
  videos = 1;
  ffmpeg_threads = 4;
  queue_limit = 128;
  max_keys = 50_000;
  temp_bytes = 20 * 2 ^ 30;
  input_bytes = 2 ^ 30;
  output_bytes = 2 * 2 ^ 30;
  expanded_bytes = 2 * 2 ^ 30;
  memory_threshold = 32 * 2 ^ 20;
  worker_memory_bytes = 3 * 2 ^ 30;
  worker_timeout_secs = 900;
  download_timeout_secs = 120;
  usm_decryption_overrides = [];
  worker_cpu_seconds = none;
  worker_wall_seconds = none;
  video_cpu_seconds = none;
  video_wall_seconds = none;
  allow_loopback_http = false;
}

abbrev pub unwrap_or : Option ℕ → ℕ → ℕ
unwrap_or none d = d
unwrap_or (some n) d = n

-- `saturating_mul` on `u64`
unfoldable pub saturating_mul : ℕ → ℕ → ℕ
saturating_mul a b = min (a * b) (2 ^ 64 - 1)

unfoldable pub worker_limits : Config → Bool → ℕ × ℕ
worker_limits c video =
    let cpu =
      unwrap_or c.worker_cpu_seconds (saturating_mul c.worker_timeout_secs c.ffmpeg_threads) in
    let wall = unwrap_or c.worker_wall_seconds c.worker_timeout_secs in
    if video
    then (unwrap_or c.video_cpu_seconds cpu, unwrap_or c.video_wall_seconds wall)
    else (cpu, wall)

abbrev pub at_most : ℕ → ℕ → Bool
at_most n max = ltb 0 n && leb n max

unfoldable pub check_counts : Config → Result (Unit {0})
check_counts c = do
  ensure (at_most c.downloads 64) "invalid downloads"
  ensure (at_most c.workers 16) "invalid workers"
  ensure (at_most c.videos 16) "invalid videos"
  ensure (at_most c.ffmpeg_threads 64) "invalid ffmpeg_threads"
  ensure (at_most c.queue_limit 4096) "invalid queue_limit"
  ensure (at_most c.max_keys 50_000) "invalid max_keys"

abbrev byte_budget : ℕ → Bool
byte_budget = within (2 ^ 20) (2 ^ 40)

unfoldable pub valid_budgets : Config → Bool
valid_budgets c =
    byte_budget c.temp_bytes
    && byte_budget c.input_bytes
    && byte_budget c.output_bytes
    && byte_budget c.expanded_bytes
    && byte_budget c.worker_memory_bytes

abbrev alphanumeric : ℕ → Bool
alphanumeric c = within b'0' b'9' c || within b'A' b'Z' c || within b'a' b'z' c

abbrev is_empty : Bytes → Bool
is_empty [] = true
is_empty (x ∷ xs) = false

unfoldable pub valid_part : Bytes → Bool → Bool
valid_part part empty =
    (empty || not (is_empty part))
    && leb (length part) 64
    && all (λ c. alphanumeric c || c == b'_' || c == b'-') part

unfoldable pub valid_seconds : Option ℕ → Bool
valid_seconds none = true
valid_seconds (some n) = within 1 5_529_600 n

abbrev is_some : Option Bytes → Bool
is_some none = false
is_some (some b) = true

abbrev loopback : Option Bytes → Bool
loopback none = false
loopback (some h) = equal h (codes "127.0.0.1") || equal h (codes "[::1]")

module _ (u : Urls) where
  unfoldable pub root : Config → Result u.Url
  root c = do
    ensure (not (any (λ b. b == b'\\' || b == b'%' || b == b'?' || b == b'#') c.cdn_root))
        "unsafe CDN root"
    url ← u.parse c.cdn_root
    ensure (is_empty (u.username url) && not (is_some (u.password url)) && is_some (u.host_str url))
        "invalid CDN authority"
    ensure
        (equal (u.scheme url) (codes "https")
          || (c.allow_loopback_http
              && loopback (u.host_str url)
              && equal (u.scheme url) (codes "http")))
        "HTTPS CDN required"
    ok url

  unfoldable pub validate : Config → Result (Unit {0})
  validate c = do
    check_counts c
    ensure (valid_budgets c) "invalid byte budget"
    ensure (leb c.memory_threshold c.input_bytes) "memory threshold exceeds input limit"
    ensure (leb (c.input_bytes + c.output_bytes + c.expanded_bytes * 2) c.temp_bytes)
        "temporary budget too small"
    ensure (within 1 3600 c.download_timeout_secs) "invalid download timeout"
    ensure (within 1 86400 c.worker_timeout_secs) "invalid worker timeout"
    ensure
        (valid_part c.region false && valid_part c.locale true && valid_part c.bili_version false)
        "invalid configuration component"
    ensure
        (valid_seconds c.worker_cpu_seconds
          && valid_seconds c.worker_wall_seconds
          && valid_seconds c.video_cpu_seconds
          && valid_seconds c.video_wall_seconds)
        "invalid CPU/wall budget"
    ensure
        (leb (length c.usm_decryption_overrides) 50_000
          && all (λ k. leb (length k) 4096) c.usm_decryption_overrides)
        "decryption override limit"
    _ ← root c
    ok tt

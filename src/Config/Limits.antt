-- ===== src/Config/Limits.antt =====
-- `validate` of src/config.rs bounds what `worker_limits` gives.
use native.Mathlib.Nat.{mul-le-mul}
use moenotes_assets.Base.{
  ℕ, ◌+◌, ◌*◌, ◌≤◌, Bool, true, false, ◌&&◌, Option, none, some, ◌≡◌, arith, leb, within, and_split,
}
use moenotes_assets.Base.Outcome.{ok, ensure-eq-ok, >>=-eq-ok}
use moenotes_assets.Config.{
  at_most, Urls, Config, worker_limits, saturating_mul, validate, valid_seconds, check_counts,
  valid_budgets, valid_part, unwrap_or,
}

-- From one second to 64 threads for a day
abbrev pub InRange : ℕ → Type 0
InRange n = (1 ≤ n) × (n ≤ 5_529_600)

seconds_or : (o : Option ℕ) (d : ℕ) → valid_seconds o ≡ true → InRange d → InRange (unwrap_or o d)
unfolding valid_seconds
seconds_or none d h r = r
seconds_or (some n) d h r = ground arith

product : (a b : ℕ) → InRange a → 1 ≤ b → a ≤ 86400 → b ≤ 64 → InRange (saturating_mul a b)
unfolding saturating_mul
product a b r h w v =
    let low : 1 * 1 ≤ a * b = mul-le-mul r.0 h in
    let high : a * b ≤ 86400 * 64 = mul-le-mul w v in (omega arith, omega arith)

threads_in :
    (c : Config) {u : Unit {0}}
    → check_counts c ≡ ok u
    → (1 ≤ c.ffmpeg_threads) × (c.ffmpeg_threads ≤ 64)
unfolding check_counts
threads_in c h =
    let (downloads, h₁) = ensure-eq-ok (at_most c.downloads 64) _ _ h in
    let (workers, h₂) = ensure-eq-ok (at_most c.workers 16) _ _ h₁ in
    let (videos, h₃) = ensure-eq-ok (at_most c.videos 16) _ _ h₂ in
    let (threads, h₄) = ensure-eq-ok (at_most c.ffmpeg_threads 64) _ _ h₃ in ground arith

-- In a configuration that `validate` accepts, the CPU seconds and the wall seconds that
-- `worker_limits` gives are from 1 to 5529600, for video and for other work, whether they are set
-- or computed from the timeout and the threads.
pub validate-InRange :
    (u : Urls) (c : Config) (video : Bool)
    → validate u c ≡ ok tt
    → InRange (worker_limits c video).0 × InRange (worker_limits c video).1
unfolding validate worker_limits
validate-InRange u c video h =
    let (done, counts, h₁) = >>=-eq-ok (check_counts c) _ h in
    let (budgets, h₂) = ensure-eq-ok (valid_budgets c) _ _ h₁ in
    let (memory, h₃) = ensure-eq-ok (leb c.memory_threshold c.input_bytes) _ _ h₂ in
    let (room, h₄) =
      ensure-eq-ok (leb (c.input_bytes + c.output_bytes + c.expanded_bytes * 2) c.temp_bytes) _ _
        h₃ in
    let (download, h₅) = ensure-eq-ok (within 1 3600 c.download_timeout_secs) _ _ h₄ in
    let (timeout, h₆) = ensure-eq-ok (within 1 86400 c.worker_timeout_secs) _ _ h₅ in
    let (parts, h₇) =
      ensure-eq-ok
        (valid_part c.region false && valid_part c.locale true && valid_part c.bili_version false) _
        _ h₆ in
    let (seconds, h₈) =
      ensure-eq-ok
        (valid_seconds c.worker_cpu_seconds
          && valid_seconds c.worker_wall_seconds
          && valid_seconds c.video_cpu_seconds
          && valid_seconds c.video_wall_seconds)
        _ _ h₇ in
    let (s₁, video_wall) =
      and_split
        (valid_seconds c.worker_cpu_seconds
          && valid_seconds c.worker_wall_seconds
          && valid_seconds c.video_cpu_seconds)
        (valid_seconds c.video_wall_seconds) seconds in
    let (s₂, video_cpu) =
      and_split (valid_seconds c.worker_cpu_seconds && valid_seconds c.worker_wall_seconds)
        (valid_seconds c.video_cpu_seconds) s₁ in
    let (cpu, wall) =
      and_split (valid_seconds c.worker_cpu_seconds) (valid_seconds c.worker_wall_seconds) s₂ in
    let time : (1 ≤ c.worker_timeout_secs) × (c.worker_timeout_secs ≤ 86400) = ground arith in
    let threads = threads_in c counts in
    let cpu_in = seconds_or c.worker_cpu_seconds _ cpu (
      product c.worker_timeout_secs c.ffmpeg_threads (time.0, omega arith) threads.0 time.1
        threads.1) in
    let wall_in = seconds_or c.worker_wall_seconds _ wall (time.0, omega arith) in
    elim video as (λ v. InRange (worker_limits c v).0 × InRange (worker_limits c v).1) [
      | true ↦ (
        seconds_or c.video_cpu_seconds _ video_cpu cpu_in,
        seconds_or c.video_wall_seconds _ video_wall wall_in,
      )
      | false ↦ (cpu_in, wall_in)
    ]

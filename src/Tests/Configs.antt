-- ===== src/Tests/Configs.antt =====
-- The default configuration of src/config.rs with a CDN root, and URLs that are split by hand.
use moenotes_assets.Base.{true, none, some, [], ◌≡◌, refl, if◌then◌else◌, drop}
use moenotes_assets.Base.Outcome.{ok, err}
use moenotes_assets.Base.Bytes.{Bytes, codes, equal, starts_with}
use moenotes_assets.Config.{
  default_config, Urls, Config, worker_limits, validate, root, check_counts, valid_budgets,
  valid_part, valid_seconds,
}
use moenotes_assets.Config.Limits.{InRange, validate-InRange}

abbrev https_only : Urls
https_only = record {
  Url = Bytes;
  parse = λ b. if starts_with b (codes "https://") then ok b else err "relative URL without a base";
  username = λ b. [];
  password = λ b. none;
  host_str = λ b. some (drop 8 b);
  scheme = λ b. codes "https";
}

abbrev defaults : Config
defaults = record default_config { cdn_root = codes "https://cdn.invalid" }

validate-defaults : validate https_only defaults ≡ ok tt
unfolding validate root check_counts valid_budgets valid_part valid_seconds starts_with equal
validate-defaults = refl

validate-InRange_example :
    InRange (worker_limits defaults true).0 × InRange (worker_limits defaults true).1
validate-InRange_example = validate-InRange https_only defaults true validate-defaults

-- ===== src/Upload/Signing.antt =====
-- src/upload.rs: the settings of the store, the keyed hash and the address of an object.
use moenotes_assets.Base.Percent.{is_ascii_alphanumeric, escape, join, split}
use moenotes_assets.Base.{
  ℕ, some, none, Option, ◌||◌, if◌then◌else◌, map, ◌++◌, Bool, ◌&&◌, ltb, bit_xor, ◌∷◌, true, false,
  length, [], leb, not, replicate, ◌==◌, all, any, ◌-◌, within,
}
use moenotes_assets.Base.Outcome.{Result, ok, ensure, ◌>>=◌, ◌>>◌}
use moenotes_assets.Base.Bytes.{Bytes, codes, equal}
use moenotes_assets.Crypto.{Primitives}
use moenotes_assets.Tree.{mem}

pub record Settings : Type 0 where
  pub endpoint : Bytes
  pub bucket : Bytes
  pub region : Bytes
  pub concurrency : ℕ
  pub timeout_seconds : ℕ
  pub allow_loopback_http : Bool

-- What the source reads of a URL, and the parser of the `url` crate.
pub record Address : Type 0 where
  pub scheme : Bytes
  pub host : Option Bytes
  pub username : Bytes
  pub password : Option Bytes
  pub query : Option Bytes
  pub fragment : Option Bytes

abbrev is_none : Option Bytes → Bool
is_none none = true
is_none (some b) = false

abbrev is_some_of : Bytes → Option Bytes → Bool
is_some_of s none = false
is_some_of s (some b) = equal b s

unfoldable pub valid_part : Bytes → Bool
unfolding is_ascii_alphanumeric mem
valid_part part =
    ltb 0 (length part)
    && leb (length part) 63
    && all (λ b. is_ascii_alphanumeric b || mem b (codes "-_.")) part

-- `S3::new`, less the HTTP client that it builds.
unfoldable pub new : (Bytes → Result Address) → Settings → Result Settings
unfolding valid_part mem
new parse c = do
  url ← parse c.endpoint
  ensure
      (equal url.scheme (codes "https")
        || (c.allow_loopback_http
            && equal url.scheme (codes "http")
            && is_some_of (codes "127.0.0.1") url.host))
      "S3 HTTPS required"
  ensure
      (equal url.username []
        && is_none url.password
        && is_none url.query
        && is_none url.fragment
        && not (any (λ b. b == b'%' || b == 92) c.endpoint))
      "invalid S3 endpoint"
  ensure (valid_part c.bucket) "invalid S3 bucket/region"
  ensure (valid_part c.region) "invalid S3 bucket/region"
  ensure (within 1 32 c.concurrency && within 1 7200 c.timeout_seconds) "invalid upload limits"
  ok c

-- The key filled up with zeros to a block of 64 bytes; a long key is hashed first.
unfoldable pub block : Primitives → Bytes → Bytes
block p key =
    let short = if ltb 64 (length key) then p.sha256 key else key in
    short ++ replicate (64 - length short) 0

unfoldable pub hmac : Primitives → Bytes → Bytes → Bytes
unfolding block
hmac p key message =
    let k = block p key in
    p.sha256 (map (λ v. bit_xor v 0x5c) k ++ p.sha256 (map (λ v. bit_xor v 0x36) k ++ message))

-- The key that signs the requests of one day.
unfoldable pub signing_key : Primitives → Bytes → Bytes → Bytes → Bytes
unfolding hmac
signing_key p secret date region =
    let date_key = hmac p (codes "AWS4" ++ secret) date in
    let service = hmac p (hmac p date_key region) (codes "s3") in
    hmac p service (codes "aws4_request")

unfoldable pub is_unreserved : ℕ → Bool
unfolding is_ascii_alphanumeric mem
is_unreserved b = is_ascii_alphanumeric b || mem b (codes "-_.~")

unfoldable pub encode : Bytes → Bytes
encode value = escape is_unreserved value

unfoldable pub trim_end : ℕ → Bytes → Bytes
trim_end c [] = []
trim_end c (b ∷ bs) = elim (trim_end c bs) [
  | [] ↦ if b == c then [] else b ∷ []
  | d ∷ ds ↦ b ∷ d ∷ ds
]

-- The path of an object below the bucket.
unfoldable pub object_path : Bytes → Bytes
object_path key = join b'/' (map encode (split b'/' key))

-- The URL that `S3::request` parses.
unfoldable pub request_url : Settings → Bytes → Bytes
unfolding trim_end
request_url c key = trim_end b'/' c.endpoint ++ b'/' ∷ (encode c.bucket ++ b'/' ∷ object_path key)

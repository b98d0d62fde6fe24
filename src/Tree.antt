-- ===== src/Tree.antt =====
-- src/tree.rs: the names of the exported tree. A path is the list of its components, and what the
-- file system says of one (`is_symlink`, the contents of a file) is a parameter.
pub mod Names
pub mod Export
pub mod Destination
pub mod Portable
pub mod Regular
use moenotes_assets.Base.{
  ℕ, zero, suc, ◌+◌, ◌-◌, ◌*◌, ◌/◌, ◌%◌, ◌^◌, ◌≤◌, ◌<◌, min, bit_xor, Bool, true, false, not, ◌&&◌,
  ◌||◌, Option, none, some, List, [], ◌∷◌, ◌++◌, map, ◌≡◌, ◌≢◌, ◌↔◌, ◌⊎◌, inl, inr, refl, sym, ap,
  ◌∙◌, arith, leb, ltb, ◌==◌, within, if◌then◌else◌, length, take, drop, replicate, get_or,
  get_elem?, all, any, All, String, Bool-cases, Option-cases,
}
use moenotes_assets.Base.Outcome.{
  Result, ok, err, ensure, context, collect, ◌>>=◌, ◌>>◌, >>=-eq-ok, ensure-eq-ok,
}
use moenotes_assets.Base.Bytes.{
  Bytes, IsBytes, codes, equal, starts_with, range, checked_add, be, le,
}
use mathlib.Core.Option.{some_inj, none-ne-some}
use mathlib.Core.Path.{subst, ap₂}
use mathlib.Core.List.{Memᴰ}
use mathlib.Core.List.Memᴰ
use moenotes_assets.Base.Outcome.{ok_injective, Result-cases}
use moenotes_assets.Base.{leb→le, and_split, ℕ_discrete, dec_le, dec_lt}
use moenotes_assets.Base.Percent.{is_ascii_alphanumeric, escape, split, join}
use moenotes_assets.Crypto.{Primitives, digest}

pub record Object : Type 0 where
  pub object_key : Bytes
  pub asset_key : Bytes
  pub artifact_id : Bytes
  pub label : Bytes
  pub content_type : Bytes
  pub bytes : ℕ
  pub sha256 : Bytes
  pub snapshot : Bytes
  pub profile : Bytes
  pub role : Bytes
  pub export_id : Bytes

-- `slice::contains`
unfoldable pub mem : ℕ → Bytes → Bool
mem c [] = false
mem c (x ∷ xs) = c == x || mem c xs

-- The characters that `component` leaves as they are.
unfoldable pub is_plain : ℕ → Bool
unfolding is_ascii_alphanumeric mem
is_plain b = is_ascii_alphanumeric b || mem b (codes "-_. ()[]")

-- `if out.is_empty() || out == "." || out == ".."`; what `replace` gives is written out.
unfoldable pub undot : Bytes → Bytes
undot [] = codes "_"
undot (a ∷ []) = if a == b'.' then codes "_%2E" else a ∷ []
undot (a ∷ b ∷ []) = if a == b'.' && b == b'.' then codes "_%2E%2E" else a ∷ b ∷ []
undot (a ∷ b ∷ c ∷ rest) = a ∷ b ∷ c ∷ rest

unfoldable pub ends_blank : Bytes → Bool
ends_blank [] = false
ends_blank (c ∷ []) = c == b'.' || c == b' '
ends_blank (c ∷ d ∷ cs) = ends_blank (d ∷ cs)

-- `pop`, and `push_str` of the escape of what was popped
unfoldable pub escape_end : Bytes → Bytes
escape_end [] = []
escape_end (c ∷ []) = if c == b'.' then codes "%2E" else codes "%20"
escape_end (c ∷ d ∷ cs) = c ∷ escape_end (d ∷ cs)

-- `while out.ends_with(['.', ' '])`
unfoldable pub escape_ends : ℕ → Bytes → Bytes
escape_ends zero out = out
escape_ends (suc f) out =
    let next = escape_ends f (escape_end out) in if ends_blank out then next else out

-- `split('.').next()`
unfoldable pub stem : Bytes → Bytes
stem [] = []
stem (c ∷ cs) = if c == b'.' then [] else c ∷ stem cs

unfoldable pub to_uppercase : Bytes → Bytes
to_uppercase = map (λ c. if within b'a' b'z' c then c - 32 else c)

-- `stem.len() == 4 && ... && stem.as_bytes()[3] != b'0'`
unfoldable pub numbered : Bytes → Bool
numbered s =
    length s == 4
    && (starts_with s (codes "COM") || starts_with s (codes "LPT"))
    && within b'0' b'9' (get_or s 3 0)
    && not (get_or s 3 0 == b'0')

unfoldable pub reserved : Bytes → Bool
unfolding numbered
reserved s =
    equal s (codes "CON")
    || equal s (codes "PRN")
    || equal s (codes "AUX")
    || equal s (codes "NUL")
    || numbered s

unfoldable pub unreserve : Bytes → Bytes
unfolding stem to_uppercase reserved
unreserve out = if reserved (to_uppercase (stem out)) then b'_' ∷ out else out

unfoldable pub shorten : Primitives → Bytes → Bytes → Bytes
shorten p value out =
    if ltb 160 (length out) then take 140 out ++ b'~' ∷ take 16 (digest p value) else out

unfoldable pub component : Primitives → Bytes → Bytes
unfolding escape undot escape_ends unreserve shorten
component p value =
    let out = undot (escape is_plain value) in
    shorten p value (unreserve (escape_ends (length out + 1) out))

-- What the file system holds at a path.
pub record File : Type 0 where
  pub is_link : Bool
  pub is_file : Bool
  pub len : ℕ
  pub reads : List (Result Bytes)

-- The reads up to the first empty one, hashed together.
unfoldable pub contents : Bytes → List (Result Bytes) → Result Bytes
contents sofar [] = ok sofar
contents sofar (err e ∷ rest) = err e
contents sofar (ok [] ∷ rest) = ok sofar
contents sofar (ok (b ∷ bs) ∷ rest) = contents (sofar ++ b ∷ bs) rest

unfoldable pub verify : Primitives → File → ℕ → Bytes → Result (Unit {0})
unfolding contents
verify p file bytes sha = do
  ensure (not file.is_link && file.is_file && file.len == bytes) "object file/size mismatch"
  all_bytes ← contents [] file.reads
  ensure (equal (digest p all_bytes) sha) "object SHA256 mismatch"

abbrev pub proper : Bytes → Bool
proper part = not (equal part []) && not (equal part (codes ".")) && not (equal part (codes ".."))

unfoldable pub safe_text : Bytes → Bool
safe_text relative =
    leb (length relative) 1024
    && not (any (λ c. c == 92 || c == b':' || c == 0) relative)
    && all proper (split b'/' relative)
    && not (starts_with relative (codes "/"))

-- The loop that refuses a symbolic link on the way.
unfoldable pub descend : (List Bytes → Bool) → List Bytes → List Bytes → Result (List Bytes)
descend links path [] = ok path
descend links path (part ∷ parts) = do
  ensure (not (links (path ++ part ∷ []))) "tree symlink refused"
  descend links (path ++ part ∷ []) parts

unfoldable pub safe_destination : (List Bytes → Bool) → List Bytes → Bytes → Result (List Bytes)
unfolding safe_text descend
safe_destination links root relative = do
  ensure (safe_text relative) "unsafe tree path"
  descend links root (split b'/' relative)

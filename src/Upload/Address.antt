-- ===== src/Upload/Address.antt =====
-- `object_path` of src/upload.rs is the address of one key only, which a URL parser leaves as it is.
use mathlib.Core.Option.{some_inj}
use mathlib.Core.Path.{subst}
use moenotes_assets.Base.{
  ℕ, ◌≤◌, ◌<◌, ◌/◌, ◌%◌, true, false, not, ◌&&◌, ◌||◌, ◌⊎◌, Option, none, some, List, [], ◌∷◌, map,
  ◌≡◌, ◌≢◌, inl, inr, refl, sym, ap, ◌∙◌, arith, leb, ◌==◌, length, all, any, All, Bool-cases,
  and_split, All-append,
}
use moenotes_assets.Base.Bytes.{Bytes, IsBytes, codes, equal, equal_iff}
use moenotes_assets.Base.Percent.{
  upper_digit, is_ascii_alphanumeric, escape, unescape, split, join, split-join, split-cons,
  join-split, unescape-escape, escape-lacks, push,
}
use moenotes_assets.Tree.{mem, proper, safe_text}
use moenotes_assets.Upload.Signing.{is_unreserved, encode, object_path}

-- A reader of such paths, as a server has one.
unfoldable pub each : (Bytes → Option Bytes) → List Bytes → Option (List Bytes)
each f [] = some []
each f (b ∷ bs) = elim (f b) [
  | none ↦ none
  | some c ↦ elim (each f bs) [ none ↦ none | some cs ↦ some (c ∷ cs) ]
]

unfoldable pub read_path : Bytes → Option Bytes
read_path path = elim (each unescape (split b'/' path)) [
  | none ↦ none
  | some parts ↦ some (join b'/' parts)
]

percent_reserved : is_unreserved b'%' ≡ false
unfolding is_unreserved
percent_reserved = refl

slash_reserved : is_unreserved b'/' ≡ false
unfolding is_unreserved
slash_reserved = refl

encode-lacks : (parts : List Bytes) → All (All (λ b. b ≢ b'/')) (map encode parts)
unfolding encode
encode-lacks [] = tt
encode-lacks (part ∷ parts) = (
  escape-lacks is_unreserved b'/' part slash_reserved (omega arith) (omega arith),
  encode-lacks parts,
)

each_cons :
    (f : Bytes → Option Bytes) (b : Bytes) (bs : List Bytes) {c : Bytes} {cs : List Bytes}
    → f b ≡ some c
    → each f bs ≡ some cs
    → each f (b ∷ bs) ≡ some (c ∷ cs)
unfolding each
each_cons f b bs e g = rw (each, e, g) refl

each-encode :
    (parts : List Bytes) → All IsBytes parts → each unescape (map encode parts) ≡ some parts
unfolding encode each
each-encode [] h = refl
each-encode (part ∷ parts) h =
    each_cons unescape (escape is_unreserved part) (map encode parts)
      (unescape-escape is_unreserved part percent_reserved h.0) (each-encode parts h.1)

push-IsBytes : (c : ℕ) (ps : List Bytes) → c < 256 → All IsBytes ps → All IsBytes (push c ps)
push-IsBytes c [] h a = ((h, tt), tt)
push-IsBytes c (p ∷ ps) h a = ((h, a.0), a.1)

split-IsBytes : (sep : ℕ) (s : Bytes) → IsBytes s → All IsBytes (split sep s)
unfolding split
split-IsBytes sep [] h = (tt, tt)
split-IsBytes sep (c ∷ s) h = elim (Bool-cases (c == sep)) [
  | inl e ↦ rw e (tt, split-IsBytes sep s h.1)
  | inr e ↦ rw e (push-IsBytes c (split sep s) h.0 (split-IsBytes sep s h.1))
]

read_path_of :
    (path : Bytes) {ps qs : List Bytes}
    → split b'/' path ≡ ps
    → each unescape ps ≡ some qs
    → read_path path ≡ some (join b'/' qs)
unfolding read_path
read_path_of path e g = rw (read_path, e, g) refl

-- A character of a path that is neither a query, a fragment nor anything a URL parser changes.
abbrev pub IsPathChar : ℕ → Type 0
IsPathChar b =
    ((b'0' ≤ b) × (b ≤ b'9'))
    ⊎ ((b'A' ≤ b) × (b ≤ b'Z'))
    ⊎ ((b'a' ≤ b) × (b ≤ b'z'))
    ⊎ ((b ≡ b'-') ⊎ (b ≡ b'_') ⊎ (b ≡ b'.') ⊎ (b ≡ b'~') ⊎ (b ≡ b'%') ⊎ (b ≡ b'/'))

unreserved-IsPathChar : (b : ℕ) → is_unreserved b ≡ true → IsPathChar b
unfolding is_unreserved is_ascii_alphanumeric mem
unreserved-IsPathChar b h = ground arith

digit-IsPathChar : (n : ℕ) → n < 16 → IsPathChar (upper_digit n)
digit-IsPathChar n h = ground arith

percent-IsPathChar : IsPathChar b'%'
percent-IsPathChar = ground arith

slash-IsPathChar : IsPathChar b'/'
slash-IsPathChar = ground arith

encode-IsPathChar : (part : Bytes) → IsBytes part → All IsPathChar (encode part)
unfolding encode escape
encode-IsPathChar [] h = tt
encode-IsPathChar (b ∷ bs) h = elim (Bool-cases (is_unreserved b)) [
  | inl e ↦ rw e (unreserved-IsPathChar b e, encode-IsPathChar bs h.1)
  | inr e ↦
      let small : b < 256 = h.0 in
      rw e (
        percent-IsPathChar,
        (
          digit-IsPathChar (b / 16) (omega arith),
          (digit-IsPathChar (b % 16) (omega arith), encode-IsPathChar bs h.1),
        ),
      )
]

join-IsPathChar :
    (parts : List Bytes) → All IsBytes parts → All IsPathChar (join b'/' (map encode parts))
unfolding join
join-IsPathChar [] h = tt
join-IsPathChar (p ∷ []) h = encode-IsPathChar p h.0
join-IsPathChar (p ∷ q ∷ ps) h =
    All-append IsPathChar (encode p) (b'/' ∷ join b'/' (map encode (q ∷ ps)))
      (encode-IsPathChar p h.0) (slash-IsPathChar, join-IsPathChar (q ∷ ps) h.1)

-- A segment that is not empty and does not step to the same or the upper folder.
abbrev pub IsProper : Bytes → Type 0
IsProper s = (s ≢ []) × (s ≢ codes ".") × (s ≢ codes "..")

-- Where the encoding is a text that is read as itself, so is the part.
encode-eq : (part s : Bytes) → IsBytes part → unescape s ≡ some s → encode part ≡ s → part ≡ s
unfolding encode
encode-eq part s h u e =
    some_inj.0 (sym (unescape-escape is_unreserved part percent_reserved h) ∙ ap unescape e ∙ u)

apart : (part s : Bytes) → not (equal part s) ≡ true → part ≢ s
apart part s h e = absurd (ground (arith, (equal_iff part s).1 e, h))

encode-IsProper : (part : Bytes) → IsBytes part → proper part ≡ true → IsProper (encode part)
unfolding unescape
encode-IsProper part h k =
    let (a, third) = and_split (not (equal part []) && not (equal part (codes "."))) _ k in
    let (first, second) = and_split (not (equal part [])) _ a in
    (
      (λ e. apart part [] first (encode-eq part [] h refl e)),
      (λ e. apart part (codes ".") second (encode-eq part (codes ".") h refl e)),
      (λ e. apart part (codes "..") third (encode-eq part (codes "..") h refl e)),
    )

all-IsProper :
    (parts : List Bytes)
    → All IsBytes parts
    → all proper parts ≡ true
    → All IsProper (map encode parts)
all-IsProper [] h k = tt
all-IsProper (part ∷ parts) h k =
    let (a, b) = and_split (proper part) _ k in
    (encode-IsProper part h.0 a, all-IsProper parts h.1 b)

safe_parts : (key : Bytes) → safe_text key ≡ true → all proper (split b'/' key) ≡ true
unfolding safe_text
safe_parts key h =
    let (a, last) =
      and_split
        (leb (length key) 1024
          && not (any (λ c. c == 92 || c == b':' || c == 0) key)
          && all proper (split b'/' key))
        _ h in
    (and_split (leb (length key) 1024 && not (any (λ c. c == 92 || c == b':' || c == 0) key)) _ a).1

split-object_path : (key : Bytes) → split b'/' (object_path key) ≡ map encode (split b'/' key)
unfolding object_path
split-object_path key =
    let (part, parts, e) = split-cons b'/' key in
    subst (λ (x : List Bytes). split b'/' (join b'/' (map encode x)) ≡ map encode x) (sym e)
      (split-join b'/' (encode part) (map encode parts) (encode-lacks (part ∷ parts)))

-- The path of an object is one that a URL parser leaves as it is, and that tells the key.
pub record IsAddress (key path : Bytes) : Type 0 where
  pub plain : All IsPathChar path
  pub segments : All IsProper (split b'/' path)
  pub told : read_path path ≡ some key

-- The path of a key of bytes that `safe_destination` accepts: each character is a letter, a digit, or
-- one of `-_.~%/`, so there is no query and no fragment; no segment between slashes is empty, `.` or
-- `..`, so none is collapsed; and the segments without their escapes give the key back, so different
-- keys have different paths.
pub object_path-IsAddress :
    (key : Bytes) → IsBytes key → safe_text key ≡ true → IsAddress key (object_path key)
unfolding read_path object_path
object_path-IsAddress key h safe =
    let bytes = split-IsBytes b'/' key h in
    record {
      plain = join-IsPathChar (split b'/' key) bytes;
      segments =
          subst (All IsProper) (sym (split-object_path key))
            (all-IsProper (split b'/' key) bytes (safe_parts key safe));
      told =
          read_path_of (object_path key) (split-object_path key)
            (each-encode (split b'/' key) bytes)
          ∙ ap some (join-split b'/' key);
    }

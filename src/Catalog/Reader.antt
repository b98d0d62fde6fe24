-- ===== src/Catalog/Reader.antt =====
-- `Reader` of src/catalog.rs: the bytes are an argument, the string cache and the number of bytes
-- in it a record that is passed on. After an error the whole parse fails, so what the reader was
-- then is not kept.
use moenotes_assets.Base.{
  ℕ, zero, suc, ◌+◌, ◌-◌, ◌*◌, ◌/◌, ◌%◌, ◌^◌, Bool, true, false, not, ◌&&◌, ◌||◌, Option, none,
  some, List, [], ◌∷◌, ◌++◌, leb, ltb, ◌==◌, within, if◌then◌else◌, length, all,
}
use moenotes_assets.Base.Outcome.{Result, ok, err, ensure, context, collect, ◌>>=◌, ◌>>◌}
use moenotes_assets.Base.Bytes.{Bytes, codes, equal, range, checked_add, le}
use moenotes_assets.Catalog.{Location, Options, contains}
use moenotes_assets.Crypto.{hex}

abbrev pub null : ℕ
null = 0xffff_ffff

pub record Reader : Type 0 where
  pub strings : List (ℕ × ℕ × Bytes)
  pub string_bytes : ℕ

module _ (data_ : Bytes) where
  unfoldable pub take_at : ℕ → ℕ → Result Bytes
  take_at o n = do
    end ← context (checked_add o n) "offset overflow"
    context (range data_ o end) "catalog out of bounds"

  unfoldable pub u32 : ℕ → Result ℕ
  u32 o = do b ← take_at o 4; ok (le b)

abbrev pub offsets : ℕ → ℕ → ℕ → List ℕ
offsets o stride zero = []
offsets o stride (suc n) = o ∷ offsets (o + stride) stride n

abbrev pub less_four : ℕ → Option ℕ
less_four o = if ltb o 4 then none else some (o - 4)

unfoldable pub array : Bytes → ℕ → ℕ → Result (List ℕ)
array d o stride = if o == null then ok [] else (do
  at ← context (less_four o) "array offset"
  size ← u32 d at
  ensure (size % stride == 0 && leb (size / stride) 200_000) "catalog array limit"
  _ ← take_at d o size
  ok (offsets o stride (size / stride)))

-- The UTF-8 of a `char`
abbrev pub utf8_of : ℕ → Bytes
utf8_of c =
    if ltb c 0x80
    then c ∷ []
    else (if ltb c 0x800
        then (0xc0 + c / 0x40) ∷ (0x80 + c % 0x40) ∷ []
        else (if ltb c 0x10000
            then (0xe0 + c / 0x1000) ∷ (0x80 + c / 0x40 % 0x40) ∷ (0x80 + c % 0x40) ∷ []
            else (0xf0 + c / 0x40000)
              ∷ (0x80 + c / 0x1000 % 0x40)
              ∷ (0x80 + c / 0x40 % 0x40)
              ∷ (0x80 + c % 0x40)
              ∷ []))

unfoldable pub units : Bytes → List ℕ
units (a ∷ b ∷ rest) = (a + 256 * b) ∷ units rest
units _ = []

-- `String::from_utf16`: a high surrogate wants a low one after it, which stands nowhere else.
unfoldable pub from_utf16 : List ℕ → Option Bytes
from_utf16 [] = some []
from_utf16 (u ∷ []) = if within 0xd800 0xdfff u then none else some (utf8_of u)
from_utf16 (u ∷ v ∷ rest) = elim (within 0xd800 0xdfff u) [
  | false ↦ elim (from_utf16 (v ∷ rest)) [ none ↦ none | some t ↦ some (utf8_of u ++ t) ]
  | true ↦ elim (within 0xd800 0xdbff u && within 0xdc00 0xdfff v) [
    | false ↦ none
    | true ↦ elim (from_utf16 rest) [
      | none ↦ none
      | some t ↦ some (utf8_of (0x10000 + (u - 0xd800) * 0x400 + (v - 0xdc00)) ++ t)
    ]
  ]
]

abbrev pub is_dynamic : ℕ → Bool
is_dynamic o = not (o / 2 ^ 30 % 2 == 0)

abbrev pub is_wide : ℕ → Bool
is_wide o = not (o / 2 ^ 31 % 2 == 0)

abbrev pub address : ℕ → ℕ
address o = o % 2 ^ 30

unfoldable pub decoded : Bool → ℕ → Bytes → Result Bytes
decoded true n b = do
  ensure (n % 2 == 0) "UTF16 size"
  context (from_utf16 (units b)) "invalid utf-16: lone surrogate found"
decoded false n b = do ensure (all (λ c. ltb c 128) b) "catalog ASCII string"; ok b

unfoldable pub static_string : Bytes → ℕ → Result Bytes
static_string d o = do
  at ← context (less_four (address o)) "string offset"
  n ← u32 d at
  ensure (leb n 65536) "string limit"
  b ← take_at d (address o) n
  decoded (is_wide o) n b

unfoldable pub cached : ℕ → ℕ → List (ℕ × ℕ × Bytes) → Option Bytes
cached o sep [] = none
cached o sep ((p, c, s) ∷ rest) = if p == o && c == sep then some s else cached o sep rest

unfoldable pub remember : ℕ → ℕ → Bytes → Reader → Result (Bytes × Reader)
remember o sep value r = do
  ensure (leb (r.string_bytes + length value) (64 * 2 ^ 20)) "catalog string budget"
  ok (
    value,
    record { strings = (o, sep, value) ∷ r.strings; string_bytes = r.string_bytes + length value },
  )

-- `string` with the value of a string that is not null and not in the cache
unfoldable pub string_by :
    (Reader → Result (Bytes × Reader)) → ℕ → ℕ → Reader → Result (Bytes × Reader)
string_by value o sep r = if o == null then ok ([], r) else elim (cached o sep r.strings) [
  | some s ↦ ok (s, r)
  | none ↦ (do (v, r') ← value r; remember o sep v r')
]

abbrev pub static_value : Bytes → ℕ → Reader → Result (Bytes × Reader)
static_value d o r = do v ← static_string d o; ok (v, r)

-- `while p != NULL`, the parts last first; more than 4096 are an error.
unfoldable pub parts :
    Bytes → ℕ → ℕ → List ℕ → ℕ → List Bytes → Reader → Result (List Bytes × Reader)
parts d zero p seen bytes out r = do ensure (p == null) "cyclic/long string"; ok (out, r)
parts d (suc fuel) p seen bytes out r = if p == null then ok (out, r) else (do
  ensure (not (contains (address p) seen)) "cyclic/long string"
  s ← u32 d (address p)
  ensure (not (is_dynamic s) || s == null) "nested dynamic string"
  (part, r') ← string_by (static_value d s) s 0 r
  ensure (ltb (bytes + length part) 65536) "string too long"
  next ← u32 d (address p + 4)
  parts d fuel next (address p ∷ seen) (bytes + length part) (part ∷ out) r')

unfoldable pub join : Bytes → List Bytes → Bytes
join sep [] = []
join sep (x ∷ []) = x
join sep (x ∷ y ∷ rest) = x ++ (sep ++ join sep (y ∷ rest))

unfoldable pub dynamic_value : Bytes → ℕ → ℕ → Reader → Result (Bytes × Reader)
dynamic_value d o sep r = do
  ensure (not (sep == 0)) "dynamic string without separator"
  (ps, r') ← parts d 4096 o [] 0 [] r
  ok (join (utf8_of sep) ps, r')

unfoldable pub string : Bytes → ℕ → ℕ → Reader → Result (Bytes × Reader)
string d o sep r =
    string_by (if is_dynamic o then dynamic_value d o sep else static_value d o) o sep r

unfoldable pub type_name : Bytes → ℕ → Reader → Result (Bytes × Reader)
type_name d o r = do
  ensure (not (o == null)) "null type"
  _ ← take_at d o 8
  at ← u32 d (o + 4)
  string d at b'.' r

abbrev pub is_char : ℕ → Bool
is_char c = not (within 0xd800 0xdfff c)

unfoldable pub key_text : Bytes → Bytes → ℕ → Reader → Result (Option Bytes × Reader)
key_text d kind at r =
    if equal kind (codes "System.String")
    then (do
      _ ← take_at d at 6
      b ← take_at d (at + 4) 2
      o ← u32 d at
      ensure (is_char (le b)) "separator"
      (s, r') ← string d o (le b) r
      ok (some s, r'))
    else (if equal kind (codes "System.Int32")
          || equal kind (codes "System.Int64")
          || equal kind (codes "System.Boolean")
        then ok (none, r)
        else err "unsupported key type")

unfoldable pub key : Bytes → ℕ → Reader → Result (Option Bytes × Reader)
key d o r = do
  _ ← take_at d o 8
  t ← u32 d o
  (kind, r') ← type_name d t r
  at ← u32 d (o + 4)
  key_text d kind at r'

unfoldable pub options : Bytes → ℕ → Reader → Result (Option Options × Reader)
options d extra r = if extra == null then ok (none, r) else (do
  _ ← take_at d extra 8
  t ← u32 d extra
  (kind, r₁) ← type_name d t r
  ensure
      (equal kind
        (codes "UnityEngine.ResourceManagement.ResourceProviders.AssetBundleRequestOptions"))
      "unsupported options"
  a ← u32 d (extra + 4)
  _ ← take_at d a 20
  at ← u32 d a
  raw ← take_at d at 16
  n ← u32 d (a + 4)
  (name, r₂) ← string d n b'_' r₁
  crc ← u32 d (a + 8)
  size ← u32 d (a + 12)
  ok (some (record { hash = hex raw; bundle_name = name; crc = crc; size = size }), r₂))

abbrev pub is_empty {ℓ} : {A : Type ℓ} → List A → Bool
is_empty [] = true
is_empty (x ∷ xs) = false

unfoldable pub location : Bytes → ℕ → Reader → Result (Location × Reader)
location d id r = do
  _ ← take_at d id 28
  k ← u32 d id
  (key, r₁) ← string d k b'/' r
  i ← u32 d (id + 4)
  (internal, r₂) ← string d i b'/' r₁
  p ← u32 d (id + 8)
  (provider, r₃) ← string d p b'.' r₂
  at ← u32 d (id + 12)
  entries ← array d at 4
  dependencies ← collect (u32 d) entries
  t ← u32 d (id + 24)
  (resource_type, r₄) ← type_name d t r₃
  extra ← u32 d (id + 20)
  (opts, r₅) ← options d extra r₄
  ensure (not (is_empty internal) && not (is_empty provider)) "empty location"
  ok (
    record {
      id = id;
      key = key;
      internal = internal;
      provider = provider;
      resource_type = resource_type;
      dependencies = dependencies;
      options = opts;
    },
    r₅,
  )

-- ===== src/SplitAcb.antt =====
-- src/split_acb.rs: the references of a split ACB, `append` for each chunk, `validate` for the
-- whole, and `read`. The JSON value and the Unity objects are those of serde_json and
-- unity-rs-core, which are parameters.
pub mod Assembly
use moenotes_assets.Base.{
  ℕ, ◌+◌, ◌-◌, ◌<◌, bit_xor, Bool, true, false, not, ◌&&◌, Option, none, some, List, [], ◌∷◌, ◌++◌,
  map, leb, ◌==◌, if◌then◌else◌, length, take, drop, all, ltb, ◌^◌,
}
use moenotes_assets.Base.Outcome.{Result, ok, err, ensure, context, collect, ◌>>=◌, ◌>>◌}
use moenotes_assets.Base.Bytes.{Bytes, codes, starts_with, checked_add, be}

-- The integers that the code reads from JSON, `negsuc n` for -(n + 1).
pub data ℤ : Type 0 where
  pos : ℕ → ℤ
  negsuc : ℕ → ℤ

-- What is used of `serde_json::Value`: indexing by a key, and the three accessors.
pub record Json : Type 1 where
  pub Value : Type 0
  pub field : Value → Bytes → Value
  pub as_str : Value → Option Bytes
  pub as_array : Value → Option (List Value)
  pub as_i64 : Value → Option ℤ

pub record ObjectReference : Type 0 where
  pub file_id : ℤ
  pub path_id : ℤ

-- `i32::try_from` of an `i64`
abbrev pub to_i32 : ℤ → Result ℤ
to_i32 (pos n) = do
  ensure (ltb n (2 ^ 31)) "out of range integral type conversion attempted"
  ok (pos n)
to_i32 (negsuc n) = do
  ensure (ltb n (2 ^ 31)) "out of range integral type conversion attempted"
  ok (negsuc n)

abbrev not_negative : ℤ → Bool
not_negative (pos n) = true
not_negative (negsuc n) = false

abbrev not_zero : ℤ → Bool
not_zero (pos n) = not (n == 0)
not_zero (negsuc n) = true

abbrev pub is_valid : ObjectReference → Bool
is_valid r = not_negative r.file_id && not_zero r.path_id

abbrev pub is_empty {ℓ} : {A : Type ℓ} → List A → Bool
is_empty [] = true
is_empty (x ∷ xs) = false

module _ (j : Json) where
  open j use {Value, field, as_str, as_array, as_i64}

  pub reference : Value → Result ObjectReference
  reference v = do
    file ← context (as_i64 (field v (codes "m_FileID"))) "split ACB file ID"
    file_id ← to_i32 file
    path_id ← context (as_i64 (field v (codes "m_PathID"))) "split ACB path ID"
    ok (record { file_id = file_id; path_id = path_id })

  unfoldable pub references : Value → Result (Bytes × List ObjectReference)
  unfolding reference
  references tree = do
    name ← context (as_str (field tree (codes "_cueSheetName"))) "split ACB cue sheet name missing"
    ensure (not (is_empty name) && leb (length name) 4096) "split ACB cue sheet name limit"
    values ← context (as_array (field tree (codes "_chunks"))) "split ACB chunks missing"
    ensure (not (is_empty values) && leb (length values) 4096) "split ACB chunk count"
    refs ← collect reference values
    ensure (all is_valid refs) "invalid split ACB reference"
    ok (name, refs)

-- `checked_add(..).is_some_and(|n| n <= limit)`
abbrev pub fits : Option ℕ → ℕ → Bool
fits none limit = false
fits (some n) limit = leb n limit

abbrev pub masked : Bytes → Bytes
masked = map (λ v. bit_xor v 0x5a)

-- The buffer is the result. `try_reserve` is taken to find the memory.
unfoldable pub append : Bytes → Bytes → ℕ → Result Bytes
append out chunk limit = do
  ensure (not (is_empty chunk) && fits (checked_add (length out) (length chunk)) limit)
      "split ACB byte budget or empty chunk"
  ok (out ++ masked chunk)

unfoldable pub table_size : Bytes → ℕ
table_size bytes = be (take 4 (drop 4 bytes)) + 8

unfoldable pub validate : Bytes → Result (Unit {0})
validate bytes = do
  ensure (leb 32 (length bytes) && starts_with bytes (codes "@UTF"))
      "split ACB reconstructed header invalid"
  ensure (leb 32 (table_size bytes) && leb (table_size bytes) (length bytes))
      "split ACB table truncated"

-- What is used of unity-rs-core: `Object` is an object of the loaded collection. `read_json` is
-- `serde_json::from_slice` of the type tree that `read_type_tree_json(false, 1 << 20)` gives.
pub record Studio (j : Json) : Type 1 where
  pub Object : Type 0
  pub class_id : Object → ℕ
  pub read_json : Object → Result j.Value
  pub resolve : Object → ObjectReference → Result (Option (Option Object))
  pub read_text_bytes : Object → ℕ → Result Bytes

module _ (j : Json) (s : Studio j) where
  open s use {Object, class_id, read_json, resolve, read_text_bytes}

  -- The chunk that one reference names, of at most `room` bytes. `resolve` gives `none` where the
  -- reference does not resolve, `some none` where the studio has no such object.
  unfoldable pub read_chunk : Object → ObjectReference → ℕ → Result Bytes
  read_chunk object r room = do
    resolved ← (resolve object r)
    found ← context resolved "split ACB chunk reference missing"
    chunk ← context found "split ACB chunk object missing"
    ensure (class_id chunk == 49) "split ACB chunk is not TextAsset"
    read_text_bytes chunk room

  -- `for reference in &refs`
  unfoldable pub assemble : Object → List ObjectReference → Bytes → ℕ → Result Bytes
  assemble object [] bytes limit = ok bytes
  assemble object (r ∷ refs) bytes limit = do
    raw ← read_chunk object r (limit - length bytes)
    more ← append bytes raw limit
    assemble object refs more limit

  unfoldable pub read : Object → ℕ → Result (Bytes × Bytes × ℕ)
  read object limit = do
    ensure (class_id object == 114) "split ACB wrapper class"
    tree ← read_json object
    (name, refs) ← references j tree
    bytes ← assemble object refs [] limit
    validate bytes
    ok (bytes, name, length refs)

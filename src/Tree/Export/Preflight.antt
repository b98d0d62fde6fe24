-- ===== src/Tree/Export/Preflight.antt =====
-- What `export_profile` of src/tree.rs checks of the tree that is there, and its whole planning.
use moenotes_assets.Base.{true, none, some, List, [], ◌∷◌, ◌++◌, map, ◌==◌, if◌then◌else◌, length}
use moenotes_assets.Base.Outcome.{Result, ok, ensure, ◌>>=◌, ◌>>◌}
use moenotes_assets.Base.Bytes.{Bytes, equal}
use moenotes_assets.Base.Percent.{split}
use moenotes_assets.Crypto.{Primitives, to_ascii_lowercase}
use moenotes_assets.Tree.{Object, verify, safe_destination, component}
use moenotes_assets.Tree.Export.{
  Disk, Manifest, Progress, insert, lookup, lower_key, is_nil, plan_manifests,
}

-- `index.objects.iter().map(...).collect()`
unfoldable pub index_map : List (Bytes × Object) → List Object → List (Bytes × Object)
index_map m [] = m
index_map m (o ∷ os) = index_map (insert (lower_key o) o m) os

module _ (p : Primitives) (disk : Disk) (root : List Bytes) where
  -- The loop over `index.objects`.
  unfoldable pub verify_objects : List Object → List (Bytes × Bytes) → Result (List (Bytes × Bytes))
  verify_objects [] logical = ok logical
  verify_objects (old ∷ rest) logical = do
    path ← safe_destination disk.links root old.object_key
    verify p (disk.at path) old.bytes old.sha256
    verify_objects rest (insert old.asset_key old.export_id logical)

-- The loop over `index.empty_exports`, of an asset key and an export each.
unfoldable pub add_empty : List (Bytes × Bytes) → List (Bytes × Bytes) → List (Bytes × Bytes)
add_empty [] logical = logical
add_empty ((key, id) ∷ rest) logical = add_empty rest (insert key id logical)

abbrev extended : Bytes → Bytes → Bytes → Bytes
extended tested sofar part = if is_nil tested then sofar ++ part else (sofar ++ b'/' ∷ []) ++ part

-- The loop over the parts of a key.
unfoldable pub walk :
    Primitives → Bytes → Bytes → List Bytes → List (Bytes × Bytes) → Result (List (Bytes × Bytes))
walk p encoded original [] directories = ok directories
walk p encoded original (part ∷ parts) directories = do
  let encoded' = extended encoded encoded (component p part)
  let original' = extended encoded original part
  ensure
      (elim (lookup (to_ascii_lowercase encoded') directories) [
        | none ↦ true
        | some old ↦ equal old original'
      ])
      "asset key directory case/encoding collision"
  walk p encoded' original' parts (insert (to_ascii_lowercase encoded') original' directories)

unfoldable pub check_directories :
    Primitives → List Bytes → List (Bytes × Bytes) → Result (List (Bytes × Bytes))
unfolding walk
check_directories p [] directories = ok directories
check_directories p (key ∷ keys) directories = do
  more ← walk p [] [] (split b'/' key) directories
  check_directories p keys more

-- From the index that is there to the last line of the planning loop; `manifests` are those of the
-- snapshot and the profile, in order.
unfoldable pub plan_export :
    Primitives
    → Disk
    → List Bytes
    → List Bytes
    → List Object
    → List (Bytes × Bytes)
    → List Manifest
    → Result Progress
unfolding index_map add_empty check_directories
plan_export p disk data_dir root objects empty_exports manifests = do
  let existing = index_map [] objects
  ensure (length existing == length objects) "tree case collision"
  logical ← verify_objects p disk root objects []
  directories ←
      check_directories p (map (λ m. m.key) manifests ++ map (λ o. o.asset_key) objects) []
  plan_manifests p disk data_dir root manifests (record {
    existing = existing;
    logical = add_empty empty_exports logical;
    empty_exports = empty_exports;
    planned = [];
  })

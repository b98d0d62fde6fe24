-- ===== src/Tests/Exports.antt =====
-- An export of two files into a tree that holds one object.
use moenotes_assets.Base.{
  ◌≤◌, ◌<◌, Bool, true, false, none, some, List, [], ◌∷◌, ◌++◌, map, ◌≡◌, ◌≢◌, refl, arith, length,
  All,
}
use moenotes_assets.Base.Outcome.{Result, ok}
use moenotes_assets.Base.Bytes.{Bytes, IsBytes, codes, equal, starts_with}
use moenotes_assets.Base.Percent.{escape, split, join, is_ascii_alphanumeric, is_ascii_hexdigit}
use moenotes_assets.Crypto.{Primitives, digest, hex, to_ascii_lowercase}
use moenotes_assets.Tree.{
  Object, is_plain, mem, undot, ends_blank, escape_end, escape_ends, stem, to_uppercase, numbered,
  reserved, unreserve, shorten, component, contents, verify, safe_text, descend, safe_destination,
}
use moenotes_assets.Tree.Names.{IsPortable}
use moenotes_assets.Tree.Portable.{component-IsPortable}
use moenotes_assets.Tree.Destination.{IsBelow, safe_destination-IsBelow, safe_destination-component}
use moenotes_assets.Tree.Export.{
  Disk, Manifest, Progress, insert, lookup, file_name, extension, object_of, file_title,
  safe_source, verify_there, plan_file, plan_files, name_export, plan_manifest, plan_manifests,
  same_object,
}
use moenotes_assets.Tree.Export.Distinct.{Distinct, entry, keys}
use moenotes_assets.Tree.Export.Preflight.{
  index_map, verify_objects, add_empty, walk, check_directories, plan_export,
}
use moenotes_assets.Tree.Export.Whole.{Verified, Stored, plan_export-IsWhole}

abbrev constant_hash : Primitives
constant_hash = record { sha256 = λ b. 171 ∷ 18 ∷ []; keystream = λ k iv n. 0 }

abbrev ab : Bytes
ab = codes "ab12"

constant_hash-IsBytes : (s : Bytes) → IsBytes (constant_hash.sha256 s)
constant_hash-IsBytes s = (omega arith, (omega arith, tt))

unfolds_component : component constant_hash (codes "CON") ≡ codes "_CON"
unfolding component escape is_plain is_ascii_alphanumeric mem undot escape_ends ends_blank
    escape_end unreserve stem to_uppercase reserved numbered shorten equal starts_with
unfolds_component = refl

component_dots : component constant_hash (codes "..") ≡ codes "_%2E%2E"
unfolding component escape is_plain is_ascii_alphanumeric mem undot escape_ends ends_blank
    escape_end unreserve stem to_uppercase reserved numbered shorten equal starts_with
component_dots = refl

component_end : component constant_hash (codes "a.") ≡ codes "a%2E"
unfolding component escape is_plain is_ascii_alphanumeric mem undot escape_ends ends_blank
    escape_end unreserve stem to_uppercase reserved numbered shorten equal starts_with
component_end = refl

component-IsPortable_example : IsPortable (component constant_hash (codes "con.png"))
component-IsPortable_example =
    component-IsPortable constant_hash constant_hash-IsBytes (codes "con.png") (omega arith)

abbrev no_links : List Bytes → Bool
no_links path = false

abbrev tree_root : List Bytes
tree_root = codes "tree" ∷ []

destination_lem :
    safe_destination no_links tree_root (codes "a/b")
    ≡ ok (codes "tree" ∷ codes "a" ∷ codes "b" ∷ [])
unfolding safe_destination safe_text descend split equal starts_with
destination_lem = refl

safe_destination-IsBelow_example :
    IsBelow no_links tree_root
      (split b'/' (codes "a/b"))
      (codes "tree" ∷ codes "a" ∷ codes "b" ∷ [])
    × (0 < length (split b'/' (codes "a/b")))
    × (length (codes "a/b") ≤ 1024)
    × All
        (λ part. (part ≢ []) × (part ≢ codes ".") × (part ≢ codes ".."))
        (split b'/' (codes "a/b"))
safe_destination-IsBelow_example =
    safe_destination-IsBelow no_links tree_root (codes "a/b") destination_lem

short_name :
    length (join b'/' (map (component constant_hash) (codes "a." ∷ codes "CON" ∷ []))) ≤ 1024
unfolding join component escape is_plain is_ascii_alphanumeric mem undot escape_ends ends_blank
    escape_end unreserve stem to_uppercase reserved numbered shorten equal starts_with
short_name = omega arith

joined_components :
    safe_destination no_links tree_root
      (join b'/' (map (component constant_hash) (codes "a." ∷ codes "CON" ∷ [])))
    ≡ ok (tree_root ++ map (component constant_hash) (codes "a." ∷ codes "CON" ∷ []))
joined_components =
    safe_destination-component constant_hash no_links tree_root (codes "a.") (codes "CON" ∷ [])
      constant_hash-IsBytes (omega arith) short_name (λ n. refl)

abbrev disk : Disk
disk = record {
  links = no_links;
  exists = λ path. false;
  at = λ path. record {
    is_link = false;
    is_file = true;
    len = 3;
    reads = ok (1 ∷ 2 ∷ 3 ∷ []) ∷ ok [] ∷ [];
  };
}

abbrev old_object : Object
old_object = record {
  object_key = codes "Voice/a/x.ogg";
  asset_key = codes "Voice/a";
  artifact_id = codes "x";
  label = codes "x";
  content_type = codes "audio/ogg";
  bytes = 3;
  sha256 = ab;
  snapshot = codes "s";
  profile = codes "p";
  role = codes "asset";
  export_id = codes "e0";
}

abbrev manifest : Manifest
manifest = record {
  id = codes "e1";
  snapshot = codes "s";
  key = codes "movie/b";
  profile = codes "p";
  files =
      record {
        id = codes "f1";
        artifact = record {
          name = codes "f.mkv";
          label = codes "main";
          media_type = codes "video/x-matroska";
          bytes = 3;
          sha256 = ab;
          stable_id = none;
          role = some (codes "color");
        };
      }
      ∷ record {
        id = codes "f2";
        artifact = record {
          name = codes "g.wav";
          label = codes "BGM";
          media_type = codes "audio/wav";
          bytes = 3;
          sha256 = ab;
          stable_id = some (codes "g");
          role = none;
        };
      }
      ∷ [];
  empty = false;
}

abbrev result : Result Progress
result =
    plan_export constant_hash disk (codes "data" ∷ []) tree_root (old_object ∷ []) []
      (manifest ∷ [])

abbrev video_object : Object
video_object = record {
  object_key = codes "movie/b/b.mkv";
  asset_key = codes "movie/b";
  artifact_id = codes "f1";
  label = codes "main";
  content_type = codes "video/x-matroska";
  bytes = 3;
  sha256 = ab;
  snapshot = codes "s";
  profile = codes "p";
  role = codes "color";
  export_id = codes "e1";
}

abbrev audio_object : Object
audio_object = record video_object {
  object_key = codes "movie/b/BGM~ab12.wav";
  artifact_id = codes "f2";
  label = codes "BGM";
  content_type = codes "audio/wav";
  role = codes "asset";
}

abbrev plan : Progress
plan = record {
  existing = map entry (old_object ∷ video_object ∷ audio_object ∷ []);
  logical = (codes "Voice/a", codes "e0") ∷ (codes "movie/b", codes "e1") ∷ [];
  empty_exports = [];
  planned =
      record {
        source = codes "data" ∷ codes "exports" ∷ codes "e1" ∷ codes "f.mkv" ∷ [];
        to = codes "tree" ∷ codes "movie" ∷ codes "b" ∷ codes "b.mkv" ∷ [];
        object = video_object;
      }
      ∷ record {
        source = codes "data" ∷ codes "exports" ∷ codes "e1" ∷ codes "g.wav" ∷ [];
        to = codes "tree" ∷ codes "movie" ∷ codes "b" ∷ codes "BGM~ab12.wav" ∷ [];
        object = audio_object;
      }
      ∷ [];
}

plan_lem : result ≡ ok plan
unfolding plan_export index_map insert lookup equal to_ascii_lowercase verify_objects
    safe_destination safe_text descend split starts_with verify contents digest hex add_empty
    check_directories walk component escape is_plain is_ascii_alphanumeric mem undot escape_ends
    ends_blank escape_end unreserve stem to_uppercase reserved numbered shorten join plan_manifests
    plan_manifest name_export plan_files plan_file object_of extension file_name file_title
    safe_source is_ascii_hexdigit verify_there same_object
plan_lem = refl

plan_export-IsWhole_example :
    Distinct (keys (old_object ∷ video_object ∷ audio_object ∷ []))
    × All (Verified constant_hash disk (codes "data" ∷ []) tree_root) plan.planned
    × All
        (λ m.
          All
            (Stored constant_hash disk
              (codes "data" ∷ [])
              tree_root
              m
              (map entry (old_object ∷ video_object ∷ audio_object ∷ [])))
            m.files)
        (manifest ∷ [])
plan_export-IsWhole_example =
    plan_export-IsWhole constant_hash disk (codes "data" ∷ []) tree_root (old_object ∷ []) []
      (manifest ∷ []) plan_lem

-- ===== src/Tree/Export.antt =====
-- The planning of `export_profile` in src/tree.rs: the names and contents of all objects are checked
-- before one is written. The maps are association lists; the disk is a parameter.
pub mod Distinct
pub mod Preflight
pub mod Whole
pub mod Listed
use moenotes_assets.Base.{
  ℕ, zero, suc, ◌+◌, ◌-◌, ◌*◌, ◌/◌, ◌%◌, ◌^◌, ◌≤◌, ◌<◌, min, bit_xor, Bool, true, false, not, ◌&&◌,
  ◌||◌, Option, none, some, List, [], ◌∷◌, ◌++◌, map, ◌≡◌, ◌≢◌, ◌↔◌, ◌⊎◌, inl, inr, refl, sym, ap,
  ◌∙◌, arith, leb, ltb, ◌==◌, within, if◌then◌else◌, length, take, drop, replicate, get_or,
  get_elem?, all, any, All, String, Bool-cases, Option-cases,
}
use moenotes_assets.Base.Outcome.{
  Result, ok, err, ensure, context, collect, ◌>>=◌, ◌>>◌, >>=-eq-ok, ensure-eq-ok,
}
use moenotes_assets.Base.Bytes.{
  Bytes, IsBytes, codes, equal, starts_with, range, checked_add, be, le,
}
use mathlib.Core.Option.{some_inj, none-ne-some}
use mathlib.Core.Path.{subst, ap₂}
use mathlib.Core.List.{Memᴰ}
use mathlib.Core.List.Memᴰ
use moenotes_assets.Base.Outcome.{ok_injective, Result-cases}
use moenotes_assets.Base.{leb→le, and_split, ℕ_discrete, dec_le, dec_lt}
use moenotes_assets.Base.Percent.{is_ascii_alphanumeric, split, join, is_ascii_hexdigit}
use moenotes_assets.Crypto.{Primitives, digest, to_ascii_lowercase}
use moenotes_assets.Tree.{Object, File, component, verify, safe_destination}

-- The part of `worker::Artifact` that an export uses; `stable_id` and `role` are texts of its metadata.
pub record Artifact : Type 0 where
  pub name : Bytes
  pub label : Bytes
  pub media_type : Bytes
  pub bytes : ℕ
  pub sha256 : Bytes
  pub stable_id : Option Bytes
  pub role : Option Bytes

pub record PublishedFile : Type 0 where
  pub id : Bytes
  pub artifact : Artifact

pub record Manifest : Type 0 where
  pub id : Bytes
  pub snapshot : Bytes
  pub key : Bytes
  pub profile : Bytes
  pub files : List PublishedFile
  pub empty : Bool

pub record Disk : Type 0 where
  pub links : List Bytes → Bool
  pub exists : List Bytes → Bool
  pub at : List Bytes → File

module _ {V : Type 0} where
  unfoldable pub lookup : Bytes → List (Bytes × V) → Option V
  lookup k [] = none
  lookup k ((j, v) ∷ m) = if equal j k then some v else lookup k m

  unfoldable pub insert : Bytes → V → List (Bytes × V) → List (Bytes × V)
  insert k v [] = (k, v) ∷ []
  insert k v ((j, w) ∷ m) = if equal j k then (k, v) ∷ m else (j, w) ∷ insert k v m

unfoldable pub same_object : Object → Object → Bool
same_object a b =
    equal a.object_key b.object_key
    && equal a.asset_key b.asset_key
    && equal a.artifact_id b.artifact_id
    && equal a.label b.label
    && equal a.content_type b.content_type
    && a.bytes == b.bytes
    && equal a.sha256 b.sha256
    && equal a.snapshot b.snapshot
    && equal a.profile b.profile
    && equal a.role b.role
    && equal a.export_id b.export_id

abbrev last_part : Option Bytes → List Bytes → Option Bytes
last_part found [] = found
last_part found (p ∷ ps) =
    if equal p [] || equal p (codes ".") then last_part found ps else last_part (some p) ps

-- `Path::file_name`
unfoldable pub file_name : Bytes → Option Bytes
file_name name = elim (last_part none (split b'/' name)) [
  | none ↦ none
  | some p ↦ if equal p (codes "..") then none else some p
]

-- `rsplit_once('.')` of a list of the parts between dots, first part apart
abbrev last_of : Bytes → List Bytes → Bytes
last_of p [] = p
last_of p (q ∷ ps) = last_of q ps

abbrev extension_of : List Bytes → Option Bytes
extension_of [] = none
extension_of (p ∷ []) = none
extension_of (p ∷ q ∷ []) = if equal p [] then none else some q
extension_of (p ∷ q ∷ r ∷ ps) = some (last_of r ps)

-- `Path::extension`
unfoldable pub extension : Bytes → Option Bytes
unfolding file_name
extension name = elim (file_name name) [ none ↦ none | some f ↦ extension_of (split b'.' f) ]

abbrev pub or_default : Option Bytes → Bytes → Bytes
or_default (some b) d = b
or_default none d = d

unfoldable pub file_title : Primitives → Bytes → PublishedFile → Bytes → Bytes → Bytes
file_title p base f role ext =
    if equal role (codes "alpha-mask")
    then base ++ codes ".alpha.mkv"
    else if equal role (codes "color") || equal role (codes "video")
    then base ++ b'.' ∷ ext
    else component p f.artifact.label
      ++ b'~' ∷ take 16 (digest p (or_default f.artifact.stable_id f.id))
      ++ b'.' ∷ ext

abbrev pub is_nil : Bytes → Bool
is_nil [] = true
is_nil (c ∷ cs) = false

-- `m.id` and the artifact's name are used in a path below the service's storage.
unfoldable pub safe_source : Manifest → PublishedFile → Bool
unfolding is_ascii_hexdigit file_name
safe_source m f =
    not (is_nil m.id)
    && all (λ b. is_ascii_hexdigit b || b == b'-') m.id
    && elim (file_name f.artifact.name) [ none ↦ false | some n ↦ equal n f.artifact.name ]

-- The object of a file, and the path that it is copied to.
unfoldable pub object_of :
    Primitives → Disk → List Bytes → Manifest → PublishedFile → Result (List Bytes × Object)
unfolding extension file_title
object_of p disk root m f = do
  ext ← context (extension f.artifact.name) "artifact extension"
  ensure (all is_ascii_alphanumeric ext && leb (length ext) 12) "unsafe artifact extension"
  let parts = map (component p) (split b'/' m.key)
  let role = or_default f.artifact.role (codes "asset")
  let name = file_title p (last_of [] parts) f role ext
  let object_key = join b'/' parts ++ b'/' ∷ name
  to ← safe_destination disk.links root object_key
  ok (
    to,
    record {
      object_key = object_key;
      asset_key = m.key;
      artifact_id = f.id;
      label = f.artifact.label;
      content_type = f.artifact.media_type;
      bytes = f.artifact.bytes;
      sha256 = f.artifact.sha256;
      snapshot = m.snapshot;
      profile = m.profile;
      role = role;
      export_id = m.id;
    },
  )

-- One object that is to be written.
pub record Planned : Type 0 where
  pub source : List Bytes
  pub to : List Bytes
  pub object : Object

-- The variables that the planning loop changes.
pub record Progress : Type 0 where
  pub existing : List (Bytes × Object)
  pub logical : List (Bytes × Bytes)
  pub empty_exports : List (Bytes × Bytes)
  pub planned : List Planned

abbrev pub lower_key : Object → Bytes
lower_key o = to_ascii_lowercase o.object_key

module _ (p : Primitives) (disk : Disk) (data_dir root : List Bytes) where
  -- `if to.exists()`
  unfoldable pub verify_there : List Bytes → Object → Result (Unit {0})
  verify_there to o = elim (disk.exists to) [
    | true ↦ verify p (disk.at to) o.bytes o.sha256
    | false ↦ ok tt
  ]

  -- The body of the loop over `m.files`.
  unfoldable pub plan_file : Manifest → PublishedFile → Progress → Result Progress
  unfolding object_of safe_source verify_there
  plan_file m f s = do
    (to, o) ← object_of p disk root m f
    ensure (safe_source m f) "unsafe source identity"
    source ←
        safe_destination disk.links data_dir (codes "exports/" ++ m.id ++ b'/' ∷ f.artifact.name)
    verify p (disk.at source) o.bytes o.sha256
    elim (lookup (lower_key o) s.existing) [
      | some old ↦ do
        ensure (same_object old o) "tree path/case/content collision; explicit migration required"
        ok s
      | none ↦ do
        verify_there to o
        ok (record s {
          existing = insert (lower_key o) o s.existing;
          planned = s.planned ++ record { source = source; to = to; object = o } ∷ [];
        })
    ]

  unfoldable pub plan_files : Manifest → List PublishedFile → Progress → Result Progress
  plan_files m [] s = ok s
  plan_files m (f ∷ fs) s = do t ← plan_file m f s; plan_files m fs t

  abbrev pub first_part : List Bytes → Option Bytes
  first_part [] = none
  first_part (c ∷ cs) = some c

  abbrev pub is_meta : Option Bytes → Bool
  is_meta none = true
  is_meta (some c) = equal (to_ascii_lowercase c) (codes "_meta")

  unfoldable pub name_export : Manifest → Progress → Result Progress
  name_export m s = do
    ensure (elim (lookup m.key s.logical) [ none ↦ true | some prior ↦ equal prior m.id ])
        "multiple exports for one key; choose snapshot and a fresh tree for migration"
    let known = any (λ e. equal e.1 m.id) s.empty_exports
    let t = record s { logical = insert m.key m.id s.logical }
    ok (
        if m.empty && not known
        then record t { empty_exports = s.empty_exports ++ (m.key, m.id) ∷ [] }
        else t)

  -- The body of the loop over the manifests.
  unfoldable pub plan_manifest : Manifest → Progress → Result Progress
  unfolding plan_files name_export
  plan_manifest m s = do
    t ← name_export m s
    ensure (not (is_meta (first_part (map (component p) (split b'/' m.key)))))
        "reserved _meta asset key"
    plan_files m m.files t

  unfoldable pub plan_manifests : List Manifest → Progress → Result Progress
  plan_manifests [] s = ok s
  plan_manifests (m ∷ ms) s = do t ← plan_manifest m s; plan_manifests ms t

-- ===== src/Worker/Archive.antt =====
-- src/worker.rs: the output with its budget, and the archive branch of `run`. What the file system
-- and the decoders say of an input is part of the input.
use moenotes_assets.Base.{
  ℕ, ◌+◌, ◌-◌, ◌/◌, ◌%◌, Bool, true, false, not, ◌||◌, Option, none, some, List, [], ◌∷◌, ◌++◌, leb,
  ltb, ◌==◌, if◌then◌else◌, length,
}
use moenotes_assets.Base.Outcome.{Result, ok, ensure, context, ◌>>=◌, ◌>>◌}
use moenotes_assets.Base.Bytes.{Bytes, codes, equal, checked_add}
use moenotes_assets.Crypto.{Primitives, digest}
use moenotes_assets.Catalog.{Location, Options, cri}
use moenotes_assets.Plan.{remote}
use moenotes_assets.Tree.{contents}
use moenotes_assets.Tree.Export.{Artifact}

-- `files` and `total` of `Output`.
pub record Output : Type 0 where
  pub files : List Artifact
  pub total : ℕ

-- `format!("{:05}.{ext}")` of a number below 100000
abbrev digit : ℕ → ℕ
digit n = b'0' + n % 10

unfoldable pub file_name : ℕ → Bytes → Bytes
file_name n ext =
    digit (n / 10000) ∷ digit (n / 1000) ∷ digit (n / 100) ∷ digit (n / 10) ∷ digit n ∷ b'.' ∷ ext

-- What is found at the path of a file that was written: its metadata, and its reads if it opens.
pub record Written : Type 0 where
  pub len : Result ℕ
  pub reads : Result (List (Result Bytes))

-- `Output::add`: the file at the path, with its label, type, role and stable id
unfoldable pub add :
    Primitives
    → ℕ
    → Bytes
    → Written
    → Bytes
    → Bytes
    → Option Bytes × Option Bytes
    → Output
    → Result Output
unfolding contents
add p output_bytes name file label media metadata out = do
  n ← file.len
  total ← context (checked_add out.total n) "output overflow"
  ensure (leb total output_bytes) "output budget exceeded"
  ensure (ltb (length out.files) 10000) "output file count limit"
  reads ← file.reads
  hashed ← contents [] reads
  ok (record {
    files =
        out.files
        ++ record {
          name = name;
          label = label;
          media_type = media;
          bytes = n;
          sha256 = digest p hashed;
          stable_id = metadata.1;
          role = metadata.0;
        }
          ∷ [];
    total = total;
  })

-- `File::create` with `write_all` of the bytes, and `std::fs::copy` of a file that holds the bytes, at
-- a path in the output folder; what is found there after it.
pub record Folder : Type 0 where
  pub create : Bytes → Bytes → Result Written
  pub copy : Bytes → Bytes → Result Written

-- `Output::bytes`
unfoldable pub add_bytes :
    Primitives
    → Folder
    → ℕ
    → Bytes
    → Bytes
    → Bytes
    → Bytes
    → Option Bytes × Option Bytes
    → Output
    → Result Output
add_bytes p folder output_bytes text ext label media metadata out = do
  ensure (leb (length text) (output_bytes - out.total)) "output budget"
  file ← folder.create (file_name (length out.files) ext) text
  add p output_bytes (file_name (length out.files) ext) file label media metadata out

-- `held` is what the file of the input holds, `magic` its first four bytes as they are read, `crc` what `bundle_crc` gives; `id` is the location's id in
-- decimal digits.
pub record Input : Type 0 where
  pub location : Location
  pub id : Bytes
  pub held : Bytes
  pub magic : Result Bytes
  pub crc : Result ℕ

abbrev pub container_extension : Bytes → Option Bytes
container_extension magic =
    if equal magic (codes "CRID")
    then some (codes "usm")
    else if equal magic (codes "@UTF")
    then some (codes "acb")
    else if equal magic (codes "AFS2")
    then some (codes "awb")
    else if equal magic (codes "CPK ")
    then some (codes "cpk")
    else none

abbrev pub crc_agrees : Option Options → ℕ → Bool
crc_agrees none crc = true
crc_agrees (some o) crc = o.crc == 0 || o.crc == crc

-- The extension, the media type, the role and the stable id of an archived input.
unfoldable pub classify : Input → Result (Bytes × Bytes × Bytes × Bytes)
classify i =
    if equal i.location.provider cri
    then (do
      magic ← i.magic
      ext ← context (container_extension magic) "unsupported CRI container signature"
      ok (ext, codes "application/octet-stream", codes "cri-container", codes "container-" ++ i.id))
    else (do
      crc ← i.crc
      ensure (crc_agrees i.location.options crc) "bundle CRC mismatch"
      ok (
        codes "bundle",
        codes "application/vnd.unity",
        codes "unity-bundle",
        codes "bundle-" ++ i.id,
      ))

-- The body of the loop over `job.inputs`.
unfoldable pub archive_input : Primitives → Folder → ℕ → Input → Output → Result Output
archive_input p folder output_bytes i out = do
  ensure (remote i.location) "archive accepts only HTTP resources"
  (ext, mime, role, stable) ← classify i
  file ← folder.copy (file_name (length out.files) ext) i.held
  add p output_bytes (file_name (length out.files) ext) file i.location.key mime
      (some role, some stable) out

unfoldable pub archive_inputs : Primitives → Folder → ℕ → List Input → Output → Result Output
archive_inputs p folder output_bytes [] out = ok out
archive_inputs p folder output_bytes (i ∷ is) out = do
  next ← archive_input p folder output_bytes i out
  archive_inputs p folder output_bytes is next

-- `run` of an archive job, from the checks of the job on; `reference` is the font reference.
unfoldable pub archive :
    Primitives → Folder → ℕ → Bytes → Option Bytes → List Input → Result (List Artifact)
archive p folder output_bytes key reference inputs = do
  ensure (not (length inputs == 0) || elim reference [ none ↦ false | some r ↦ true ])
      "empty worker inputs"
  let empty : Output = record { files = []; total = 0 }
  first ← elim reference [
    | none ↦ ok empty
    | some r ↦
        add_bytes p folder output_bytes r (codes "json") key (codes "application/json")
          (some (codes "font-reference"), some (codes "font-reference")) empty
  ]
  out ← archive_inputs p folder output_bytes inputs first
  ok out.files

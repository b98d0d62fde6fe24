-- ===== src/Embedded/Schema.antt =====
-- `schema` and `read` of src/embedded.rs. The serialized file is the third-party reader's; here are
-- the parts of it that the code looks at.
use moenotes_assets.Base.{
  ℕ, Bool, true, false, not, ◌&&◌, Option, none, some, List, [], ◌∷◌, ◌==◌, if◌then◌else◌,
  get_elem?, String,
}
use moenotes_assets.Base.Outcome.{Result, ensure, context, ◌>>=◌, ◌>>◌}
use moenotes_assets.Base.Bytes.{Bytes, codes, equal}
use moenotes_assets.SplitAcb.{ℤ, pos, negsuc}
use moenotes_assets.Embedded.{extract}

-- `aligned` is the flag 0x4000 of `meta_flags`.
pub record Node : Type 0 where
  pub type_name : Bytes
  pub field_name : Bytes
  pub level : ℕ
  pub byte_size : ℤ
  pub aligned : Bool

abbrev node : String → String → ℕ → ℤ → Bool → Node
node ty name level size align = record {
  type_name = codes ty;
  field_name = codes name;
  level = level;
  byte_size = size;
  aligned = align;
}

abbrev same_size : ℤ → ℤ → Bool
same_size (pos a) (pos b) = a == b
same_size (negsuc a) (negsuc b) = a == b
same_size _ _ = false

abbrev same_flag : Bool → Bool → Bool
same_flag true b = b
same_flag false b = not b

unfoldable pub schema : List Node → List Node → Bool
schema [] [] = true
schema (n ∷ ns) (e ∷ es) =
    equal n.type_name e.type_name
    && equal n.field_name e.field_name
    && n.level == e.level
    && same_size n.byte_size e.byte_size
    && same_flag n.aligned e.aligned
    && schema ns es
schema _ _ = false

abbrev wrapper_schema : List Node
wrapper_schema =
    node "MonoBehaviour" "Base" 0 (negsuc 0) false
    ∷ node "PPtr<GameObject>" "m_GameObject" 1 (pos 12) false
    ∷ node "int" "m_FileID" 2 (pos 4) false
    ∷ node "SInt64" "m_PathID" 2 (pos 8) false
    ∷ node "UInt8" "m_Enabled" 1 (pos 1) true
    ∷ node "PPtr<MonoScript>" "m_Script" 1 (pos 12) false
    ∷ node "int" "m_FileID" 2 (pos 4) false
    ∷ node "SInt64" "m_PathID" 2 (pos 8) false
    ∷ node "string" "m_Name" 1 (negsuc 0) false
    ∷ node "Array" "Array" 2 (negsuc 0) true
    ∷ node "int" "size" 3 (pos 4) false
    ∷ node "char" "data" 3 (pos 1) false
    ∷ node "managedReference" "implementation" 1 (pos 8) false
    ∷ node "SInt64" "rid" 2 (pos 8) false
    ∷ node "PPtr<$CriAtomAwbAsset>" "awb" 1 (pos 12) false
    ∷ node "int" "m_FileID" 2 (pos 4) false
    ∷ node "SInt64" "m_PathID" 2 (pos 8) false
    ∷ node "vector" "additionalAwbs" 1 (negsuc 0) false
    ∷ node "Array" "Array" 2 (negsuc 0) false
    ∷ node "int" "size" 3 (pos 4) false
    ∷ node "PPtr<$CriAtomAwbAsset>" "data" 3 (pos 12) false
    ∷ node "int" "m_FileID" 4 (pos 4) false
    ∷ node "SInt64" "m_PathID" 4 (pos 8) false
    ∷ node "ManagedReferencesRegistry" "references" 1 (negsuc 0) false
    ∷ node "int" "version" 2 (pos 4) false
    ∷ node "vector" "RefIds" 2 (negsuc 0) false
    ∷ node "Array" "Array" 3 (negsuc 0) true
    ∷ node "int" "size" 4 (pos 4) false
    ∷ node "ReferencedObject" "data" 4 (negsuc 0) false
    ∷ node "SInt64" "rid" 5 (pos 8) false
    ∷ node "ReferencedManagedType" "type" 5 (negsuc 0) false
    ∷ node "string" "class" 6 (negsuc 0) false
    ∷ node "Array" "Array" 7 (negsuc 0) true
    ∷ node "int" "size" 8 (pos 4) false
    ∷ node "char" "data" 8 (pos 1) false
    ∷ node "string" "ns" 6 (negsuc 0) false
    ∷ node "Array" "Array" 7 (negsuc 0) true
    ∷ node "int" "size" 8 (pos 4) false
    ∷ node "char" "data" 8 (pos 1) false
    ∷ node "string" "asm" 6 (negsuc 0) false
    ∷ node "Array" "Array" 7 (negsuc 0) true
    ∷ node "int" "size" 8 (pos 4) false
    ∷ node "char" "data" 8 (pos 1) false
    ∷ node "ReferencedObjectData" "data" 5 (pos 0) false
    ∷ []

abbrev bytes_schema : List Node
bytes_schema =
    node "CriSerializedBytesAssetImpl" "Base" 0 (negsuc 0) false
    ∷ node "vector" "data" 1 (negsuc 0) true
    ∷ node "Array" "Array" 2 (negsuc 0) true
    ∷ node "int" "size" 3 (pos 4) false
    ∷ node "UInt8" "data" 3 (pos 1) false
    ∷ []

pub record FileType : Type 0 where
  pub class_name : Option Bytes
  pub namespace : Option Bytes
  pub assembly_name : Option Bytes
  pub type_tree : Option (List Node)

-- `objects` holds the index of each object's type.
pub record SerializedFile : Type 0 where
  pub endianness : ℕ
  pub objects : List (Option ℕ)
  pub types : List FileType
  pub reference_types : List FileType

abbrev is_text : Option Bytes → String → Bool
is_text none s = false
is_text (some b) s = equal b (codes s)

unfoldable pub is_bytes_type : FileType → Bool
is_bytes_type t =
    is_text t.class_name "CriSerializedBytesAssetImpl"
    && is_text t.namespace "CriWare.Assets"
    && is_text t.assembly_name "CriMw.CriWare.Assets.Runtime"

abbrev filter {ℓ} : {A : Type ℓ} → (A → Bool) → List A → List A
filter p [] = []
filter p (x ∷ xs) = let rest = filter p xs in if p x then x ∷ rest else rest

abbrev has_schema : Option (List Node) → List Node → Bool
has_schema none es = false
has_schema (some ns) es = schema ns es

-- Exactly one type, of the expected schema
abbrev only_bytes : List FileType → Bool
only_bytes (t ∷ []) = has_schema t.type_tree bytes_schema
only_bytes _ = false

-- `read_raw` reads the object's bytes within a limit.
unfoldable pub read : SerializedFile → ℕ → (ℕ → Result Bytes) → ℕ → Result Bytes
read file index read_raw limit = do
  ensure (file.endianness == 0) "embedded CRI little-endian layout required"
  info ← context (get_elem? file.objects index) "embedded object index"
  type_index ← context info "embedded type missing"
  kind ← context (get_elem? file.types type_index) "embedded type index"
  ensure (has_schema kind.type_tree wrapper_schema) "unsupported embedded CRI wrapper schema"
  ensure (only_bytes (filter is_bytes_type file.reference_types))
      "unsupported embedded CRI byte schema"
  raw ← read_raw limit
  extract raw limit

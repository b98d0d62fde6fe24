-- ===== src/Tests/Sources.antt =====
-- A split ACB of two chunks and a cipher that is easy to compute, as instances of the parameters.
use moenotes_assets.Embedded.{extract, behaviour, registry, payload, take_next, word, align, string}
use moenotes_assets.Embedded.Payload.{IsPayload, extract-IsPayload}
use moenotes_assets.Base.Bytes.{range, le}
use moenotes_assets.Base.Utf8.{from_utf8}
use moenotes_assets.Base.{
  ℕ, zero, suc, ◌*◌, ◌%◌, ◌≤◌, true, Option, none, some, List, [], ◌∷◌, ◌++◌, map, ◌≡◌, inr, refl,
  arith, leb, ◌==◌, if◌then◌else◌, length, replicate,
}
use moenotes_assets.Base.Outcome.{Result, ok, err, ◌>>=◌}
use moenotes_assets.Base.Bytes.{Bytes, codes, be_from, equal, starts_with}
use moenotes_assets.SplitAcb.{
  ℤ, pos, negsuc, Json, Studio, ObjectReference, masked, references, validate, read, assemble,
  append, read_chunk, table_size,
}
use moenotes_assets.SplitAcb.Assembly.{Holds, WereRead, IsAcb, read-Holds, read_sound}
use moenotes_assets.Crypto.{Primitives, decrypt, valid_basename}
use moenotes_assets.Crypto.Stream.{decrypt-append, deciphered, decrypt-deciphered}
use moenotes_assets.Download.{receive}
use moenotes_assets.Download.Whole.{receive_whole, receive-receive_whole, joined}
use mathlib.Core.List.{flatten}

data Node : Type 0 where
  text : Bytes → Node
  number : ℤ → Node
  chunk : ℤ → ℤ → Node
  chunks : List (ℤ × ℤ) → Node
  wrapper : Bytes → List (ℤ × ℤ) → Node
  absent : Node

abbrev field_of : Node → Bytes → Node
field_of (wrapper n cs) k =
    if equal k (codes "_cueSheetName")
    then text n
    else if equal k (codes "_chunks")
    then chunks cs
    else absent
field_of (chunk f p) k =
    if equal k (codes "m_FileID")
    then number f
    else if equal k (codes "m_PathID")
    then number p
    else absent
field_of _ k = absent

abbrev text_of : Node → Option Bytes
text_of (text b) = some b
text_of _ = none

abbrev elements_of : Node → Option (List Node)
elements_of (chunks cs) = some (map (λ c. chunk c.0 c.1) cs)
elements_of _ = none

abbrev number_of : Node → Option ℤ
number_of (number n) = some n
number_of _ = none

abbrev nodes : Json
nodes = record {
  Value = Node;
  field = field_of;
  as_str = text_of;
  as_array = elements_of;
  as_i64 = number_of;
}

abbrev part : ℕ → Bytes
part (suc zero) = codes "@UTF" ++ (0 ∷ 0 ∷ 0 ∷ 24 ∷ replicate 8 0)
part _ = replicate 16 7

abbrev tree_of : ℕ → Result Node
tree_of zero = ok (wrapper (codes "song") ((pos 0, pos 1) ∷ (pos 0, pos 2) ∷ []))
tree_of _ = err "no type tree"

abbrev resolved : ObjectReference → Option (Option ℕ)
resolved r = elim r.path_id [ pos n ↦ some (some n) | negsuc n ↦ none ]

abbrev studio : Studio nodes
studio = record {
  Object = ℕ;
  class_id = λ o. if o == 0 then 114 else 49;
  read_json = tree_of;
  resolve = λ o r. ok (resolved r);
  read_text_bytes =
      λ o room. if leb (length (part o)) room then ok (masked (part o)) else err "too long";
}

abbrev chunk_at : ℕ → ObjectReference
chunk_at n = record { file_id = pos 0; path_id = pos n }

abbrev song_tree : Node
song_tree = wrapper (codes "song") ((pos 0, pos 1) ∷ (pos 0, pos 2) ∷ [])

song_references : references nodes song_tree ≡ ok (codes "song", chunk_at 1 ∷ chunk_at 2 ∷ [])
unfolding references equal
song_references = refl

song-Holds : Holds nodes studio 0 (chunk_at 1 ∷ chunk_at 2 ∷ []) (part 1 ∷ part 2 ∷ [])
unfolding read_chunk
song-Holds = ((λ room h. ground arith), (λ e. cc), ((λ room h. ground arith), (λ e. cc), tt))

song_valid : validate (flatten (part 1 ∷ part 2 ∷ [])) ≡ ok tt
unfolding validate table_size starts_with flatten be_from
song_valid = refl

read-Holds_example : read nodes studio 0 100 ≡ ok (flatten (part 1 ∷ part 2 ∷ []), codes "song", 2)
unfolding flatten
read-Holds_example =
    read-Holds nodes studio 0 100 song_tree (codes "song") (chunk_at 1 ∷ chunk_at 2 ∷ [])
      (part 1 ∷ part 2 ∷ []) refl refl song_references song-Holds (omega arith) (omega arith)
      song_valid

song_read : read nodes studio 0 100 ≡ ok (flatten (part 1 ∷ part 2 ∷ []), codes "song", 2)
unfolding read read_chunk references assemble append validate table_size equal starts_with flatten
    be_from
song_read = refl

read_sound_example :
    (tree : Node) × (refs : List ObjectReference) × (raws : List Bytes) × (references nodes tree
      ≡ ok (codes "song", refs))
    × WereRead nodes studio 0 refs raws
    × (flatten (part 1 ∷ part 2 ∷ []) ≡ flatten (map masked raws))
    × (2 ≡ length refs)
    × (length (flatten (part 1 ∷ part 2 ∷ [])) ≤ 100)
    × IsAcb (flatten (part 1 ∷ part 2 ∷ []))
read_sound_example = read_sound nodes studio 0 100 song_read

abbrev counter : Primitives
counter = record { sha256 = λ b. replicate 32 9; keystream = λ key iv p. (p * 7) % 256 }

valid : valid_basename (codes "a.bundle") ≡ true
unfolding valid_basename
valid = refl

decrypt-append_example : decrypt counter (codes "moenotes") (codes "a.bundle") 16380 ≡ (
    decrypt counter (codes "moen") (codes "a.bundle") 16380 >>= λ a.
    decrypt counter (codes "otes") (codes "a.bundle") 16384 >>= λ b. ok (a ++ b))
decrypt-append_example =
    decrypt-append counter (codes "a.bundle") 16380 (codes "moen") (codes "otes") valid

decrypt-deciphered_example :
    decrypt counter (codes "moenotes") (codes "a.bundle") 16380
    ≡ ok (deciphered counter (codes "a.bundle") 16380 (codes "moenotes"))
decrypt-deciphered_example =
    decrypt-deciphered counter (codes "a.bundle") (codes "moenotes") 16380 valid

receive-receive_whole_example :
    receive counter 8 true (codes "a.bundle") 0 [] (codes "moe" ∷ codes "notes" ∷ [])
    ≡ receive_whole counter 8 true (codes "a.bundle") (codes "moenotes")
unfolding joined
receive-receive_whole_example =
    receive-receive_whole counter (codes "a.bundle") 8 true (codes "moe" ∷ codes "notes" ∷ [])
      (inr valid)

-- A string with its length and its alignment
abbrev text_field : Bytes → ℕ → Bytes
text_field s pad = (length s ∷ 0 ∷ 0 ∷ 0 ∷ s) ++ replicate pad 0

-- A wrapper of the payload "@UTF!", whose implementation has the id 7.
abbrev wrapper_file : Bytes
wrapper_file =
    replicate 12 0
    ++ (1 ∷ replicate 15 0)
    ++ text_field (codes "song") 0
    ++ (7 ∷ replicate 7 0)
    ++ replicate 16 0
    ++ (2 ∷ 0 ∷ 0 ∷ 0 ∷ 1 ∷ 0 ∷ 0 ∷ 0 ∷ 7 ∷ replicate 7 0)
    ++ text_field (codes "CriSerializedBytesAssetImpl") 1
    ++ text_field (codes "CriWare.Assets") 2
    ++ text_field (codes "CriMw.CriWare.Assets.Runtime") 0
    ++ text_field (codes "@UTF!") 3

extract-wrapper_file : extract wrapper_file 100 ≡ ok (codes "@UTF!")
unfolding extract behaviour registry payload take_next word align string range le equal starts_with
    from_utf8
extract-wrapper_file = refl

extract-IsPayload_example : IsPayload wrapper_file (codes "@UTF!") 100
extract-IsPayload_example = extract-IsPayload wrapper_file 100 extract-wrapper_file

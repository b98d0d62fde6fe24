-- ===== src/Upload/Whole.antt =====
-- `upload` of src/upload.rs: the objects, and after them the manifest.
use moenotes_assets.Base.{
  ℕ, ◌+◌, true, not, List, [], ◌∷◌, map, ◌≡◌, ◌≢◌, inl, inr, sym, ap, ◌∙◌, arith, ◌==◌,
  if◌then◌else◌, length, any, All, Bool-cases, ==_iff,
}
use moenotes_assets.Base.Outcome.{Result, is_ok, ok, ensure, ◌>>=◌, ◌>>◌, >>=-eq-ok, ensure-eq-ok}
use moenotes_assets.Base.Bytes.{equal_iff, Bytes, codes, equal}
use moenotes_assets.Base.Outcome.{ok_injective, Result-cases}
use moenotes_assets.Crypto.{Primitives, digest}
use moenotes_assets.Tree.{Object, safe_destination}
use moenotes_assets.Tree
use moenotes_assets.Tree.Regular.{IsRegular, verify-IsRegular}
use moenotes_assets.Tree.Export.{Disk}
use moenotes_assets.Tree.Export.Distinct.{Distinct}
use moenotes_assets.Upload.{Attempt, Line, upload_object}
use moenotes_assets.Upload.Attempts.{IsDelivered, AreSlices, upload_object-IsDelivered}

module _ (p : Primitives) (disk : Disk) (root : List Bytes) where
  -- The loop over `index.objects`.
  unfoldable pub select : List Bytes → List Object → Result (List Object)
  select seen [] = ok []
  select seen (o ∷ os) = do
    ensure (not (any (equal o.object_key) seen)) "duplicate upload key"
    path ← safe_destination disk.links root o.object_key
    Tree.verify p (disk.at path) o.bytes o.sha256
    rest ← select (o.object_key ∷ seen) os
    ok (o ∷ rest)

-- The loop that counts the failed objects; the order in which they end does not matter to it.
unfoldable pub errors : Primitives → (Bytes → ℕ → Attempt) → List Object → ℕ
errors p turn [] = 0
errors p turn (o ∷ os) =
    let rest = errors p turn os in
    if is_ok (upload_object p o (turn o.object_key)).1 then rest else rest + 1

abbrev pub manifest_key : Bytes
manifest_key = codes "_meta/manifest.json"

unfoldable pub manifest_object : Primitives → Bytes → Object
manifest_object p bytes = record {
  object_key = manifest_key;
  asset_key = codes "_meta";
  artifact_id = codes "manifest";
  label = codes "manifest";
  content_type = codes "application/json";
  bytes = length bytes;
  sha256 = digest p bytes;
  snapshot = [];
  profile = [];
  role = codes "manifest";
  export_id = [];
}

-- `turn` tells what happens in each attempt for each key. The result is an error, or the lines and the
-- result of the upload of the manifest.
unfoldable pub upload :
    Primitives
    → Disk
    → List Bytes
    → Bytes
    → List Object
    → Bytes
    → (Bytes → ℕ → Attempt)
    → Result (List Line × Result (Unit {0}))
unfolding select errors
upload p disk root schema objects manifest turn = do
  ensure (equal schema (codes "moenotes-assets-object-index/v2")) "unsupported upload manifest"
  selected ← select p disk root [] objects
  ensure (errors p turn selected == 0) "objects failed verification; see private upload journal"
  ok (upload_object p (manifest_object p manifest) (turn manifest_key))

any-lacks :
    (k : Bytes) (seen : List Bytes) → not (any (equal k) seen) ≡ true → All (λ j. j ≢ k) seen
any-lacks k [] h = tt
any-lacks k (j ∷ seen) h = elim (Bool-cases (equal k j)) [
  | inl e ↦ absurd (ground arith)
  | inr e ↦ (
    (λ same. absurd (ground (arith, (equal_iff k j).1 (sym same), e))),
    any-lacks k seen (rw e at h),
  )
]

-- What holds of an object before the manifest is put.
pub record IsUploaded (p : Primitives) (disk : Disk) (root : List Bytes)
    (turn : Bytes → ℕ → Attempt) (o : Object) : Type 0 where
  pub path : List Bytes
  pub placed : safe_destination disk.links root o.object_key ≡ ok path
  pub checked : IsRegular p (disk.at path) o.bytes o.sha256
  pub delivered : IsDelivered p o (turn o.object_key) (upload_object p o (turn o.object_key)).0

abbrev pub key_of : Object → Bytes
key_of o = o.object_key

heads_apart :
    (seen : List Bytes) (k : Bytes) (os : List Object)
    → All (λ o. All (λ j. j ≢ o.object_key) (k ∷ seen)) os
    → All (λ o. All (λ j. j ≢ o.object_key) seen) os
heads_apart seen k [] h = tt
heads_apart seen k (o ∷ os) h = (h.0.1, heads_apart seen k os h.1)

tails_apart :
    (k : Bytes) (seen : List Bytes) (os : List Object)
    → All (λ o. All (λ j. j ≢ o.object_key) (k ∷ seen)) os
    → All (λ j. j ≢ k) (map key_of os)
tails_apart k seen [] h = tt
tails_apart k seen (o ∷ os) h = ((λ e. h.0.0 (sym e)), tails_apart k seen os h.1)

module _ (p : Primitives) (disk : Disk) (root : List Bytes) (turn : Bytes → ℕ → Attempt)
    (slices : (key : Bytes) (n : ℕ) → AreSlices (turn key n)) where
  errors_none :
      (o : Object) (os : List Object)
      → errors p turn (o ∷ os) ≡ 0
      → ((upload_object p o (turn o.object_key)).1 ≡ ok tt) × (errors p turn os ≡ 0)
  unfolding errors
  errors_none o os h = elim (Result-cases (upload_object p o (turn o.object_key)).1) [
    | inl (u, e) ↦ (e, rw e at h)
    | inr (s, e) ↦ absurd (omega (arith, rw e at h))
  ]

  select_sound :
      (seen : List Bytes) (os : List Object) {selected : List Object}
      → select p disk root seen os ≡ ok selected
      → errors p turn selected ≡ 0
      → All (λ o. All (λ j. j ≢ o.object_key) seen) os
        × Distinct (map key_of os)
        × All (IsUploaded p disk root turn) os
  unfolding select Distinct
  select_sound seen [] h z = (tt, tt, tt)
  select_sound seen (o ∷ os) h z =
      let (fresh, h₁) = ensure-eq-ok (not (any (equal o.object_key) seen)) _ _ h in
      let (path, placed, h₂) = >>=-eq-ok (safe_destination disk.links root o.object_key) _ h₁ in
      let (_, checked, h₃) = >>=-eq-ok (Tree.verify p (disk.at path) o.bytes o.sha256) _ h₂ in
      let (rest, chosen, h₄) = >>=-eq-ok (select p disk root (o.object_key ∷ seen) os) _ h₃ in
      let z' : errors p turn (o ∷ rest) ≡ 0 = ap (errors p turn) (ok_injective h₄) ∙ z in
      let (done, none_left) = errors_none o rest z' in
      let (apart, distinct, uploaded) = select_sound (o.object_key ∷ seen) os chosen none_left in
      (
        (any-lacks o.object_key seen fresh, heads_apart seen o.object_key os apart),
        (tails_apart o.object_key seen os apart, distinct),
        (
          record {
            path = path;
            placed = placed;
            checked = verify-IsRegular p (disk.at path) o.bytes o.sha256 checked;
            delivered =
                upload_object-IsDelivered p o (turn o.object_key) (slices o.object_key) done;
          },
          uploaded,
        ),
      )

  -- Where each chunk of a response has fewer than 2^63 bytes, and `upload` gets as far as the
  -- manifest: the keys of the objects are all different; each object is in the tree at a safe place,
  -- as a file of its size and hash that is no link; and for one of at most three attempts the PUT was
  -- answered with success or 412, the body that was read back had the size and hash of the object,
  -- and the journal notes it. What `upload` then gives is what the
  -- upload of the manifest, with the manifest's own size and hash, gives.
  pub upload-IsWhole :
      (schema : Bytes) (objects : List Object) (manifest : Bytes) {lines : List Line}
      {r : Result (Unit {0})}
      → upload p disk root schema objects manifest turn ≡ ok (lines, r)
      → Distinct (map key_of objects)
        × All (IsUploaded p disk root turn) objects
        × ((lines, r) ≡ upload_object p (manifest_object p manifest) (turn manifest_key))
  unfolding upload
  upload-IsWhole schema objects manifest h =
      let (_, h₁) = ensure-eq-ok (equal schema (codes "moenotes-assets-object-index/v2")) _ _ h in
      let (selected, chosen, h₂) = >>=-eq-ok (select p disk root [] objects) _ h₁ in
      let (z, h₃) = ensure-eq-ok (errors p turn selected == 0) _ _ h₂ in
      let (_, distinct, uploaded) =
        select_sound [] objects chosen ((==_iff (errors p turn selected) 0).0 z) in
      (distinct, uploaded, sym (ok_injective h₃))

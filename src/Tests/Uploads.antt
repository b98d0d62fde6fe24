-- ===== src/Tests/Uploads.antt =====
-- Uploads whose first attempt is interrupted, against a server that holds what was put.
use mathlib.Core.Path.{subst}
use moenotes_assets.Base.{
  ℕ, true, false, some, List, [], ◌∷◌, map, ◌≡◌, ◌↔◌, inl, inr, refl, sym, arith, ◌==◌,
  if◌then◌else◌, All, Bool-cases, ap, ◌∙◌,
}
use moenotes_assets.Base.Outcome.{Result, ok, err}
use moenotes_assets.Base.Bytes.{codes, equal, starts_with}
use mathlib.Core.Option.{some_inj}
use moenotes_assets.Base.Percent.{escape, is_ascii_alphanumeric, split, join}
use moenotes_assets.Crypto.{Primitives, digest, hex}
use moenotes_assets.Tree
use moenotes_assets.Tree.{Object, File, contents, safe_text, descend, safe_destination, mem}
use moenotes_assets.Tree.Export.{Disk}
use moenotes_assets.Tree.Export.Distinct.{Distinct}
use moenotes_assets.Upload.{
  Item, chunk, broken, Response, Exchange, Attempt, Line, line, readback, verify, put,
  attempt_result, attempts, upload_object,
}
use moenotes_assets.Upload.Readback.{IsSlice, whole, IsReadback, verify_iff}
use moenotes_assets.Upload.Attempts.{
  AreSlices, IsDelivered, upload_object-IsDelivered, upload_object_succeeds,
}
use moenotes_assets.Upload.Whole.{
  select, errors, manifest_object, upload, IsUploaded, key_of, upload-IsWhole,
}
use moenotes_assets.Upload.Address.{IsAddress, object_path-IsAddress}
use moenotes_assets.Upload.Signing.{encode, object_path, is_unreserved}

abbrev ab_hash : Primitives
ab_hash = record { sha256 = λ b. 171 ∷ 18 ∷ []; keystream = λ k iv n. 0 }

abbrev thing : Object
thing = record {
  object_key = codes "a b/c";
  asset_key = codes "a b";
  artifact_id = codes "c";
  label = codes "c";
  content_type = codes "audio/wav";
  bytes = 3;
  sha256 = codes "ab12";
  snapshot = [];
  profile = [];
  role = codes "asset";
  export_id = codes "e";
}

abbrev good_answer : Response
good_answer = record {
  status = 200;
  content_length = some 3;
  body = chunk (1 ∷ 2 ∷ []) ∷ chunk (3 ∷ []) ∷ [];
}

abbrev exchange_of : List Item → ℕ → Exchange
exchange_of body status = record {
  opened = ok tt;
  put_status = some status;
  answer = some (record good_answer { body = body });
}

abbrev calm : Exchange → Attempt
calm x = record {
  exchange = some x;
  journal = ok tt;
  is_cancelled = false;
  cancelled_asleep = false;
}

-- The first readback breaks; then the object is there.
abbrev turn : ℕ → Attempt
turn n =
    if n == 1
    then calm (exchange_of (chunk (1 ∷ []) ∷ broken ∷ []) 200)
    else calm (exchange_of good_answer.body 412)

readback_lem : IsReadback ab_hash thing (some good_answer)
unfolding whole digest hex
readback_lem = record {
  response = good_answer;
  body = 1 ∷ 2 ∷ 3 ∷ [];
  answered = refl;
  success = refl;
  announced = λ n e. sym (some_inj.0 e);
  arrived = refl;
  size = refl;
  hash = refl;
}

verify_iff_example :
    (verify ab_hash thing (some good_answer) ≡ ok tt) ↔ IsReadback ab_hash thing (some good_answer)
verify_iff_example =
    verify_iff ab_hash thing good_answer (omega arith) (omega arith, (omega arith, tt))

second_turn : attempt_result ab_hash thing (turn 2) ≡ ok tt
unfolding attempt_result put verify readback digest hex equal
second_turn = refl

written : (m : ℕ) → (turn m).journal ≡ ok tt
written m = elim (Bool-cases (m == 1)) [ inl e ↦ rw e refl | inr e ↦ rw e refl ]

carried : (m : ℕ) → (turn m).is_cancelled ≡ false
carried m = elim (Bool-cases (m == 1)) [ inl e ↦ rw e refl | inr e ↦ rw e refl ]

awake : (m : ℕ) → (turn m).cancelled_asleep ≡ false
awake m = elim (Bool-cases (m == 1)) [ inl e ↦ rw e refl | inr e ↦ rw e refl ]

upload_object_succeeds_example : (upload_object ab_hash thing turn).1 ≡ ok tt
upload_object_succeeds_example =
    upload_object_succeeds ab_hash thing turn 2 (omega arith) (omega arith) (λ m h. written m)
      (λ m h. carried m) (λ m h. awake m) second_turn

calm_slices :
    (body : List Item) (status : ℕ) → All IsSlice body → AreSlices (calm (exchange_of body status))
calm_slices body status h x e r f =
    subst (λ (y : Response). All IsSlice y.body)
      (some_inj.0 (ap (λ (z : Exchange). z.answer) (some_inj.0 e) ∙ f)) h

turn_slices : (n : ℕ) → AreSlices (turn n)
turn_slices n = elim (Bool-cases (n == 1)) [
  | inl e ↦ rw e (calm_slices (chunk (1 ∷ []) ∷ broken ∷ []) 200 (omega arith, (tt, tt)))
  | inr e ↦ rw e (calm_slices good_answer.body 412 (omega arith, (omega arith, tt)))
]

upload_object-IsDelivered_example :
    IsDelivered ab_hash thing turn (upload_object ab_hash thing turn).0
upload_object-IsDelivered_example =
    upload_object-IsDelivered ab_hash thing turn turn_slices upload_object_succeeds_example

lines_lem :
    (upload_object ab_hash thing turn).0
    ≡ line thing 1 (err "S3 verification interrupted") ∷ line thing 2 (ok tt) ∷ []
unfolding upload_object attempts line attempt_result put verify readback digest hex equal
lines_lem = refl

abbrev upload_disk : Disk
upload_disk = record {
  links = λ path. false;
  exists = λ path. true;
  at =
      λ path. record { is_link = false; is_file = true; len = 3; reads = ok (1 ∷ 2 ∷ 3 ∷ []) ∷ [] };
}

abbrev outcome : List Line × Result (Unit {0})
outcome = (
  line (manifest_object ab_hash (1 ∷ 2 ∷ 3 ∷ [])) 1 (err "S3 verification interrupted")
      ∷ line (manifest_object ab_hash (1 ∷ 2 ∷ 3 ∷ [])) 2 (ok tt)
      ∷ [],
  ok tt,
)

upload_lem :
    upload ab_hash upload_disk
      (codes "t" ∷ [])
      (codes "moenotes-assets-object-index/v2")
      (thing ∷ [])
      (1 ∷ 2 ∷ 3 ∷ [])
      (λ k. turn)
    ≡ ok outcome
unfolding upload select errors manifest_object Tree.verify contents safe_destination safe_text
    descend split starts_with upload_object attempts line attempt_result put verify readback digest
    hex equal
upload_lem = refl

upload-IsWhole_example :
    Distinct (map key_of (thing ∷ []))
    × All (IsUploaded ab_hash upload_disk (codes "t" ∷ []) (λ k. turn)) (thing ∷ [])
    × (outcome ≡ upload_object ab_hash (manifest_object ab_hash (1 ∷ 2 ∷ 3 ∷ [])) turn)
upload-IsWhole_example =
    upload-IsWhole ab_hash upload_disk (codes "t" ∷ []) (λ k. turn) (λ k. turn_slices)
      (codes "moenotes-assets-object-index/v2") (thing ∷ []) (1 ∷ 2 ∷ 3 ∷ []) upload_lem

-- The unit test of `encode`.
encode_lem : encode (97 ∷ 32 ∷ 37 ∷ 47 ∷ 195 ∷ 169 ∷ []) ≡ codes "a%20%25%2F%C3%A9"
unfolding encode escape is_unreserved is_ascii_alphanumeric mem
encode_lem = refl

safe_key : safe_text (codes "a b/c%#?") ≡ true
unfolding safe_text equal split starts_with
safe_key = refl

object_path_lem : object_path (codes "a b/c%#?") ≡ codes "a%20b/c%25%23%3F"
unfolding object_path encode escape is_unreserved is_ascii_alphanumeric mem split join
object_path_lem = refl

object_path-IsAddress_example : IsAddress (codes "a b/c%#?") (object_path (codes "a b/c%#?"))
object_path-IsAddress_example = object_path-IsAddress (codes "a b/c%#?") (omega arith) safe_key

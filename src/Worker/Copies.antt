-- ===== src/Worker/Copies.antt =====
-- The loop of the archive branch of `run` in src/worker.rs: a file of each input, within the budget.
use moenotes_assets.Base.{
  ℕ, ◌+◌, ◌≤◌, ◌<◌, Option, none, some, List, [], ◌∷◌, ◌++◌, ◌≡◌, refl, sym, ap, ◌∙◌, arith, leb,
  ltb, length, append_assoc, append-nil, length-append, leb→le, ltb→lt, String,
}
use moenotes_assets.Base.Outcome.{ok, context, >>=-eq-ok, ensure-eq-ok, ok_injective, Result}
use moenotes_assets.Base.Bytes.{Bytes, checked_add}
use mathlib.Core.Path.{subst}
use moenotes_assets.Crypto.{Primitives, digest}
use moenotes_assets.Plan.{remote}
use moenotes_assets.Tree.Export.{Artifact}
use mathlib.Core.Path.{ap₂}
use moenotes_assets.Tree.{contents}
use moenotes_assets.Tree.Regular.{body, contents-body}
use moenotes_assets.Plan.Kinds.{IsRemote, remote_iff}
use moenotes_assets.Worker.Kinds.{IsKind, classify-IsKind}
use moenotes_assets.Worker.Archive.{
  Written, Folder, Output, Input, file_name, add, classify, archive_input, archive_inputs,
}

unfoldable pub total_bytes : List Artifact → ℕ
total_bytes [] = 0
total_bytes (f ∷ fs) = f.bytes + total_bytes fs

total_bytes-append :
    (xs ys : List Artifact) → total_bytes (xs ++ ys) ≡ total_bytes xs + total_bytes ys
unfolding total_bytes
total_bytes-append [] ys = omega arith
total_bytes-append (x ∷ xs) ys = omega (arith, total_bytes-append xs ys)

pub record IsWithin (limit : ℕ) (out : Output) : Type 0 where
  pub counted : out.total ≡ total_bytes out.files
  pub budget : out.total ≤ limit
  pub few : length out.files ≤ 10000

-- What was written holds the bytes, where it can be read at all.
pub record Holds (text : Bytes) (file : Written) : Type 0 where
  pub length_lem : (n : ℕ) → file.len ≡ ok n → n ≡ length text
  pub reads_lem :
      (reads : List (Result Bytes)) (all_read : Bytes)
      → file.reads ≡ ok reads
      → body reads ≡ some all_read
      → all_read ≡ text

-- Created and copied files hold what was written to them.
pub record IsFaithful (folder : Folder) : Type 0 where
  pub created :
      (name text : Bytes) (file : Written) → folder.create name text ≡ ok file → Holds text file
  pub copied :
      (name text : Bytes) (file : Written) → folder.copy name text ≡ ok file → Holds text file

-- The file `n` of the archive is the input.
pub record IsCopy (p : Primitives) (n : ℕ) (i : Input) (f : Artifact) : Type 0 where
  pub ext : Bytes
  pub kind : IsKind i ext
  pub http : IsRemote i.location
  pub name_lem : f.name ≡ file_name n ext
  pub label_lem : f.label ≡ i.location.key
  pub bytes_lem : f.bytes ≡ length i.held
  pub sha256_lem : f.sha256 ≡ digest p i.held

unfoldable pub Copies : Primitives → ℕ → List Input → List Artifact → Type 0
Copies p n [] [] = Unit
Copies p n [] (f ∷ fs) = ⊥
Copies p n (i ∷ is) [] = ⊥
Copies p n (i ∷ is) (f ∷ fs) = IsCopy p n i f × Copies p (n + 1) is fs

context-ok : {A : Type 0} (o : Option A) (e : String) {a : A} → context o e ≡ ok a → o ≡ some a
context-ok none e h = cc
context-ok (some b) e h = ap some (ok_injective h)

checked_add-some : (a b : ℕ) {t : ℕ} → checked_add a b ≡ some t → t ≡ a + b
checked_add-some a b h = ground arith

-- The file that `add` appends.
abbrev pub added : Bytes → ℕ → Bytes → Bytes → Bytes → Option Bytes × Option Bytes → Artifact
added name n sha label media metadata = record {
  name = name;
  label = label;
  media_type = media;
  bytes = n;
  sha256 = sha;
  stable_id = metadata.1;
  role = metadata.0;
}

append-IsWithin :
    (limit : ℕ) (out next : Output) (f : Artifact)
    → next.files ≡ out.files ++ f ∷ []
    → next.total ≡ out.total + f.bytes
    → next.total ≤ limit
    → length out.files < 10000
    → IsWithin limit out
    → IsWithin limit next
unfolding total_bytes
append-IsWithin limit out next f files total fits room w = record {
  counted =
      total
      ∙ omega (arith, w.counted, total_bytes-append out.files (f ∷ []))
      ∙ sym (ap total_bytes files);
  budget = fits;
  few = omega (arith, ap length files, length-append out.files (f ∷ []), room);
}

module _ (p : Primitives) where
  pub add-IsWithin :
      (limit : ℕ) (name text : Bytes) (file : Written) (label media : Bytes)
      (metadata : Option Bytes × Option Bytes) (out : Output) {next : Output}
      → Holds text file
      → add p limit name file label media metadata out ≡ ok next
      → IsWithin limit out
      → IsWithin limit next
        × (next.files
            ≡ out.files ++ added name (length text) (digest p text) label media metadata ∷ [])
  unfolding add
  add-IsWithin limit name text file label media metadata out {next} holds h w =
      let (n, long, h₀) = >>=-eq-ok file.len _ h in
      let (total, found, h₁) =
        >>=-eq-ok (context (checked_add out.total n) "output overflow") _ h₀ in
      let (fits, h₂) = ensure-eq-ok (leb total limit) _ _ h₁ in
      let (room, h₃) = ensure-eq-ok (ltb (length out.files) 10000) _ _ h₂ in
      let (reads, opened, h₄) = >>=-eq-ok file.reads _ h₃ in
      let (hashed, read, h₅) = >>=-eq-ok (contents [] reads) _ h₄ in
      let (rest, whole, all_read) = contents-body [] reads read in
      let size : n ≡ length text = holds.length_lem n long in
      let same : hashed ≡ text = all_read ∙ holds.reads_lem reads rest opened whole in
      let f = added name (length text) (digest p text) label media metadata in
      let files : next.files ≡ out.files ++ f ∷ [] =
        ap (λ (o : Output). o.files) (sym (ok_injective h₅))
        ∙ ap₂
            (λ (k : ℕ) (b : Bytes).
              out.files ++ added name k (digest p b) label media metadata ∷ [])
            size same in
      let sum : next.total ≡ total = ap (λ (o : Output). o.total) (sym (ok_injective h₅)) in
      let plus : total ≡ out.total + n =
        checked_add-some out.total n (context-ok (checked_add out.total n) _ found) in
      (
        append-IsWithin limit out next f files (sum ∙ plus ∙ ap (λ (k : ℕ). out.total + k) size)
            (subst (λ t. t ≤ limit) (sym sum) (leb→le total limit fits))
            (ltb→lt (length out.files) 10000 room) w,
        files,
      )

module _ (p : Primitives) (folder : Folder) (faithful : IsFaithful folder) (limit : ℕ) where
  archive_input-IsCopy :
      (i : Input) (out : Output) {next : Output}
      → archive_input p folder limit i out ≡ ok next
      → IsWithin limit out
      → IsWithin limit next
        × (f : Artifact) × (next.files ≡ out.files ++ f ∷ [])
        × IsCopy p (length out.files) i f
  unfolding archive_input
  archive_input-IsCopy i out {next} h w =
      let (http, h₁) = ensure-eq-ok (remote i.location) _ _ h in
      let ((ext, mime, role, stable), found, h₂) = >>=-eq-ok (classify i) _ h₁ in
      let name = file_name (length out.files) ext in
      let (file, copied, h₃) = >>=-eq-ok (folder.copy name i.held) _ h₂ in
      let (within, files) =
        add-IsWithin p limit name i.held file i.location.key mime (some role, some stable) out
          (faithful.copied name i.held file copied) h₃ w in
      (
        within,
        added name (length i.held) (digest p i.held) i.location.key mime (some role, some stable),
        files,
        record {
          ext = ext;
          kind = classify-IsKind i found;
          http = (remote_iff i.location).0 http;
          name_lem = refl;
          label_lem = refl;
          bytes_lem = refl;
          sha256_lem = refl;
        },
      )

  pub archive_inputs-Copies :
      (is : List Input) (out : Output) {final : Output}
      → archive_inputs p folder limit is out ≡ ok final
      → IsWithin limit out
      → IsWithin limit final
        × (fs : List Artifact) × (final.files ≡ out.files ++ fs)
        × Copies p (length out.files) is fs
  unfolding archive_inputs Copies
  archive_inputs-Copies [] out {final} h w =
      let same = ok_injective h in
      (
        subst (IsWithin limit) same w,
        [],
        ap (λ (o : Output). o.files) (sym same) ∙ sym (append-nil out.files),
        tt,
      )
  archive_inputs-Copies (i ∷ is) out {final} h w =
      let (next, done, more) = >>=-eq-ok (archive_input p folder limit i out) _ h in
      let (within, f, files, copy) = archive_input-IsCopy i out done w in
      let (end, fs, rest, copies) = archive_inputs-Copies is next more within in
      (
        end,
        f ∷ fs,
        rest ∙ ap (λ (x : List Artifact). x ++ fs) files ∙ append_assoc out.files (f ∷ []) fs,
        (
          copy,
          subst (λ n. Copies p n is fs) (ap length files ∙ length-append out.files (f ∷ [])) copies,
        ),
      )

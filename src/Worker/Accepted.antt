-- ===== src/Worker/Accepted.antt =====
-- The archive branch of `run` in src/worker.rs: the font reference and a file of each input.
use moenotes_assets.Base.{
  ℕ, ◌-◌, ◌≤◌, Option, none, some, List, [], ◌∷◌, ◌++◌, ◌≡◌, refl, sym, ap, ◌∙◌, arith, leb, length,
}
use moenotes_assets.Base.Outcome.{ok, >>=-eq-ok, ensure-eq-ok, ok_injective}
use moenotes_assets.Base.Bytes.{Bytes, codes}
use mathlib.Core.Path.{subst}
use moenotes_assets.Crypto.{Primitives, digest}
use moenotes_assets.Tree.Export.{Artifact}
use moenotes_assets.Worker.Archive.{
  Folder, Output, Input, file_name, add_bytes, archive_inputs, archive,
}
use moenotes_assets.Worker.Copies.{
  total_bytes, IsWithin, Copies, IsFaithful, add-IsWithin, archive_inputs-Copies,
}

-- The files before those of the inputs: the font reference of the job, where it has one.
abbrev pub reference_files : Primitives → Bytes → Option Bytes → List Artifact
reference_files p key none = []
reference_files p key (some r) =
    record {
      name = file_name 0 (codes "json");
      label = key;
      media_type = codes "application/json";
      bytes = length r;
      sha256 = digest p r;
      stable_id = some (codes "font-reference");
      role = some (codes "font-reference");
    }
    ∷ []

abbrev nothing : Output
nothing = record { files = []; total = 0 }

empty_IsWithin : (limit : ℕ) → IsWithin limit nothing
unfolding total_bytes
empty_IsWithin limit = record { counted = refl; budget = omega arith; few = omega arith }

first_files :
    (p : Primitives) (folder : Folder) (faithful : IsFaithful folder) (limit : ℕ) (key r : Bytes)
    {first : Output}
    → add_bytes p folder limit r
        (codes "json")
        key
        (codes "application/json")
        (some (codes "font-reference"), some (codes "font-reference"))
        nothing
      ≡ ok first
    → IsWithin limit first × (first.files ≡ reference_files p key (some r))
unfolding add_bytes
first_files p folder faithful limit key r h =
    let (room, h₁) = ensure-eq-ok (leb (length r) (limit - 0)) _ _ h in
    let name = file_name 0 (codes "json") in
    let (file, created, h₂) = >>=-eq-ok (folder.create name r) _ h₁ in
    add-IsWithin p limit name r file key (codes "application/json")
      (some (codes "font-reference"), some (codes "font-reference")) nothing
      (faithful.created name r file created) h₂ (empty_IsWithin limit)

-- Where a file that was created or copied holds what was written to it, as far as it can be read: when
-- an archive succeeds, its files are that of the font reference, where there is one, and one file of
-- each input, in order: the input is remote, it is a CRI container of a known signature or a bundle
-- whose checksum agrees with the catalog's, and its file has the next number, the extension of its
-- kind, the key of the input, and the length and the hash of what the input's file holds. The sizes of
-- the files sum up to at most the output budget, and there are at most 10000 files.
pub archive-Copies :
    (p : Primitives) (folder : Folder) (limit : ℕ) (key : Bytes) (reference : Option Bytes)
    (inputs : List Input) (files : List Artifact)
    → IsFaithful folder
    → archive p folder limit key reference inputs ≡ ok files
    → (fs : List Artifact) × (files ≡ reference_files p key reference ++ fs)
      × Copies p (length (reference_files p key reference)) inputs fs
      × (total_bytes files ≤ limit)
      × (length files ≤ 10000)
unfolding archive
archive-Copies p folder limit key none inputs files faithful h =
    let (some_inputs, h₁) = ensure-eq-ok _ _ _ h in
    let (out, done, h₂) = >>=-eq-ok (archive_inputs p folder limit inputs nothing) _ h₁ in
    let same : out.files ≡ files = ok_injective h₂ in
    let (w, fs, eq, copies) =
      archive_inputs-Copies p folder faithful limit inputs nothing done (empty_IsWithin limit) in
    (
      fs,
      sym same ∙ eq,
      copies,
      subst (λ n. n ≤ limit) (w.counted ∙ ap total_bytes same) w.budget,
      subst (λ (x : List Artifact). length x ≤ 10000) same w.few,
    )
archive-Copies p folder limit key (some r) inputs files faithful h =
    let (some_inputs, h₁) = ensure-eq-ok _ _ _ h in
    let (first, started, h₀) = >>=-eq-ok _ _ h₁ in
    let (out, done, h₂) = >>=-eq-ok (archive_inputs p folder limit inputs first) _ h₀ in
    let same : out.files ≡ files = ok_injective h₂ in
    let (begun, fronts) = first_files p folder faithful limit key r started in
    let (w, fs, eq, copies) =
      archive_inputs-Copies p folder faithful limit inputs first done begun in
    (
      fs,
      sym same ∙ eq ∙ ap (λ (x : List Artifact). x ++ fs) fronts,
      subst (λ (x : List Artifact). Copies p (length x) inputs fs) fronts copies,
      subst (λ n. n ≤ limit) (w.counted ∙ ap total_bytes same) w.budget,
      subst (λ (x : List Artifact). length x ≤ 10000) same w.few,
    )

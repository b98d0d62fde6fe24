-- ===== src/Tests/Workers.antt =====
-- A bank of two waves, an IVF file of two packets and an archive of two inputs.
use moenotes_assets.Worker.Accepted.{reference_files, archive-Copies}
use moenotes_assets.Worker.Copies.{IsFaithful, Holds, Copies, total_bytes}
use moenotes_assets.Catalog.{cri, Options, Location}
use moenotes_assets.Plan.{remote}
use moenotes_assets.Tree.Export.{Artifact}
use moenotes_assets.Tree.Regular.{body}
use moenotes_assets.Tree.{contents}
use mathlib.Core.Option.{some_inj}
use mathlib.Core.Path.{subst, ap}
use moenotes_assets.Worker.Archive.{
  Written, Folder, Input, file_name, add, archive, archive_inputs, archive_input, add_bytes,
  classify,
}
use moenotes_assets.Crypto.{Primitives, digest}
use moenotes_assets.Base.{
  ◌≤◌, some, List, [], ◌∷◌, ◌++◌, ◌≡◌, refl, length, take, drop, replicate, All, ℕ, Option, none,
  append-nil, sym, ◌∙◌,
}
use moenotes_assets.Base.Outcome.{ok_injective, Result, ok, err}
use moenotes_assets.Base.Bytes.{Bytes, codes, equal, starts_with, range, le}
use moenotes_assets.SplitAcb.{pos}
use moenotes_assets.Usm.Video.{VideoInfo}
use moenotes_assets.Worker.{packet, packets, ivf_header, validate_ivf}
use moenotes_assets.Worker.Packets.{IsPackets, validate_ivf-IsPackets}
use moenotes_assets.Worker.Waves.{
  has, ids_from, offsets_from, known, count_of, offset_size_of, id_size_of, alignment_of,
  offsets_at, table_end, check_awb_references,
}
use moenotes_assets.Worker.Bank.{
  ids_at, waves_at, AreOrdered, NoneTwice, Names, check_awb_references-IsBank,
}

-- Version 1, offsets and ids of two bytes, alignment 4; ids 7 and 9; offsets 26, 31 and 34.
abbrev bank : Bytes
bank =
    codes "AFS2"
    ++ 1
      ∷ 2
      ∷ 2
      ∷ 0
      ∷ 2
      ∷ 0
      ∷ 0
      ∷ 0
      ∷ 4
      ∷ 0
      ∷ 0
      ∷ 0
      ∷ 7
      ∷ 0
      ∷ 9
      ∷ 0
      ∷ 26
      ∷ 0
      ∷ 31
      ∷ 0
      ∷ 34
      ∷ 0
      ∷ replicate 8 1

bank_lem : check_awb_references bank (pos 9 ∷ pos 7 ∷ []) ≡ ok tt
unfolding check_awb_references ids_from offsets_from known has starts_with le
bank_lem = refl

missing_wave : check_awb_references bank (pos 8 ∷ []) ≡ err "ACB references a missing AWB waveform"
unfolding check_awb_references ids_from offsets_from known has starts_with le
missing_wave = refl

check_awb_references-IsBank_example :
    (table_end bank ≤ length bank)
    × NoneTwice (ids_at bank (id_size_of bank) 16 (count_of bank))
    × AreOrdered
        (table_end bank)
        (length bank)
        (waves_at bank (alignment_of bank) (offset_size_of bank) (offsets_at bank) (count_of bank))
    × All (Names (ids_at bank (id_size_of bank) 16 (count_of bank))) (pos 9 ∷ pos 7 ∷ [])
check_awb_references-IsBank_example = check_awb_references-IsBank bank (pos 9 ∷ pos 7 ∷ []) bank_lem

abbrev film : VideoInfo
film = record {
  width = 4;
  height = 2;
  display_width = 4;
  display_height = 2;
  frames = 2;
  fps_n = 30000;
  fps_d = 1000;
  codec = 9;
}

abbrev ivf : Bytes
ivf =
    codes "DKIF"
    ++ 0 ∷ 0 ∷ 32 ∷ 0 ∷ codes "VP90"
    ++ 4 ∷ 0 ∷ 2 ∷ 0 ∷ 30 ∷ 0 ∷ 0 ∷ 0 ∷ 1 ∷ 0 ∷ 0 ∷ 0 ∷ 2 ∷ 0 ∷ 0 ∷ 0 ∷ 0 ∷ 0 ∷ 0 ∷ 0 ∷ 1 ∷ 0 ∷ 0
      ∷ 0 ∷ 0 ∷ 0 ∷ 0 ∷ 0 ∷ 0 ∷ 0 ∷ 0 ∷ 0 ∷ 5 ∷ 2 ∷ 0 ∷ 0 ∷ 0 ∷ 1 ∷ 0 ∷ 0 ∷ 0 ∷ 0 ∷ 0 ∷ 0 ∷ 0 ∷ 6
      ∷ 7 ∷ []

ivf_lem : validate_ivf ivf film ≡ some (ok tt)
unfolding validate_ivf packets packet ivf_header range le equal
ivf_lem = refl

ivf_cut : validate_ivf (take 58 ivf) film ≡ some (err "invalid IVF packet/PTS")
unfolding validate_ivf packets packet ivf_header range le equal
ivf_cut = refl

validate_ivf-IsPackets_example :
    (r : Result (Unit {0})) × (validate_ivf ivf film ≡ some r)
    × (r ≡ ok tt → (ps : List Bytes) × IsPackets 0 ps (drop 32 ivf) × (length ps ≡ film.frames))
validate_ivf-IsPackets_example = validate_ivf-IsPackets ivf film

abbrev hash : Primitives
hash = record { sha256 = λ b. 171 ∷ 18 ∷ []; keystream = λ k iv n. 0 }

-- A folder that keeps what is written; a file is read in one piece.
abbrev kept : Bytes → Written
kept b = record { len = ok (length b); reads = ok (ok b ∷ []) }

abbrev folder : Folder
folder = record { create = λ name b. ok (kept b); copy = λ name b. ok (kept b) }

body_one : (b : Bytes) → body (ok b ∷ []) ≡ some b
unfolding body
body_one [] = refl
body_one (x ∷ xs) = ap some (append-nil (x ∷ xs))

kept-Holds :
    (b : Bytes) (file : Written) → ◌≡◌ {A = Result Written} (ok (kept b)) (ok file) → Holds b file
kept-Holds b file h = subst (Holds b) (ok_injective h) (record {
  length_lem = λ n e. sym (ok_injective e);
  reads_lem = λ reads all_read e g. some_inj.0 (
      sym (subst (λ (x : List (Result Bytes)). body x ≡ some all_read) (sym (ok_injective e)) g)
      ∙ body_one b);
})

folder-IsFaithful : IsFaithful folder
folder-IsFaithful = record {
  created = λ name text file h. kept-Holds text file h;
  copied = λ name text file h. kept-Holds text file h;
}

abbrev located : ℕ → Bytes → Option Options → Location
located id provider options = record {
  id = id;
  key = codes "movie";
  internal = codes "https://host/movie";
  provider = provider;
  resource_type = [];
  dependencies = [];
  options = options;
}

abbrev movie : Input
movie = record {
  location = located 3 cri none;
  id = codes "3";
  held = codes "CRID" ++ 5 ∷ [];
  magic = ok (codes "CRID");
  crc = err "";
}

abbrev textures : Input
textures = record {
  location =
      located 4 (codes "bundled")
        (some (record { hash = []; bundle_name = []; crc = 9; size = 0 }));
  id = codes "4";
  held = 6 ∷ 7 ∷ [];
  magic = err "";
  crc = ok 9;
}

abbrev archived : ℕ → Bytes → Bytes → Bytes → ℕ → Bytes → Bytes → Bytes → Artifact
archived n ext label media bytes sha stable role = record {
  name = file_name n ext;
  label = label;
  media_type = media;
  bytes = bytes;
  sha256 = sha;
  stable_id = some stable;
  role = some role;
}

abbrev archive_files : List Artifact
archive_files =
    archived 0 (codes "json") (codes "font") (codes "application/json") 2 (codes "ab12")
      (codes "font-reference") (codes "font-reference")
    ∷ archived 1 (codes "usm") (codes "movie") (codes "application/octet-stream") 5 (codes "ab12")
        (codes "container-3") (codes "cri-container")
    ∷ archived 2 (codes "bundle") (codes "movie") (codes "application/vnd.unity") 2 (codes "ab12")
        (codes "bundle-4") (codes "unity-bundle")
    ∷ []

archive_lem :
    archive hash folder 9 (codes "font") (some (codes "{}")) (movie ∷ textures ∷ [])
    ≡ ok archive_files
unfolding archive archive_inputs archive_input add_bytes add classify equal remote starts_with
    file_name digest contents
archive_lem = refl

archive_budget :
    archive hash folder 8 (codes "font") (some (codes "{}")) (movie ∷ textures ∷ [])
    ≡ err "output budget exceeded"
unfolding archive archive_inputs archive_input add_bytes add classify equal remote starts_with
    file_name digest contents
archive_budget = refl

archive-Copies_example :
    (fs : List Artifact) × (archive_files
      ≡ reference_files hash (codes "font") (some (codes "{}")) ++ fs)
    × Copies hash
        (length (reference_files hash (codes "font") (some (codes "{}"))))
        (movie ∷ textures ∷ [])
        fs
    × (total_bytes archive_files ≤ 9)
    × (length archive_files ≤ 10000)
archive-Copies_example =
    archive-Copies hash folder 9 (codes "font") (some (codes "{}")) (movie ∷ textures ∷ [])
      archive_files folder-IsFaithful archive_lem

-- ===== src/Worker/Waves.antt =====
-- `check_awb_references` of src/worker.rs: the table of an embedded wave bank.
use moenotes_assets.Base.{
  ℕ, zero, suc, ◌+◌, ◌-◌, ◌*◌, ◌/◌, Bool, false, not, ◌&&◌, ◌||◌, List, [], ◌∷◌, leb, ltb, ◌==◌,
  length, get_or,
}
use moenotes_assets.Base.Outcome.{Result, ok, err, ensure, ◌>>=◌, ◌>>◌}
use moenotes_assets.Base.Bytes.{Bytes, codes, starts_with, le}
use moenotes_assets.SplitAcb.{ℤ, pos, negsuc}
use moenotes_assets.Worker.{slice}

-- `BTreeSet::contains`
unfoldable pub has : ℕ → List ℕ → Bool
has x [] = false
has x (y ∷ ys) = x == y || has x ys

-- The loop over the ids, from the place `p` on; the set of those seen.
unfoldable pub ids_from : Bytes → ℕ → ℕ → ℕ → List ℕ → Result (List ℕ)
ids_from b size p zero seen = ok seen
ids_from b size p (suc n) seen = do
  let id = le (slice b p size)
  ensure (not (has id seen)) "duplicate AWB wave ID"
  ids_from b size (p + size) n (id ∷ seen)

abbrev pub aligned : ℕ → ℕ → ℕ
aligned alignment n = (n + alignment - 1) / alignment * alignment

-- The loop over the offsets; the last of them is the end of the last wave.
unfoldable pub offsets_from : Bytes → ℕ → ℕ → ℕ → ℕ → ℕ → Result (Unit {0})
offsets_from b alignment size p zero previous = do
  let n = le (slice b p size)
  ensure (leb previous n && leb n (length b)) "invalid AWB offset"
  ensure (leb n (length b)) "invalid AWB alignment"
offsets_from b alignment size p (suc left) previous = do
  let n = le (slice b p size)
  ensure (leb previous n && leb n (length b)) "invalid AWB offset"
  ensure (leb (aligned alignment n) (length b)) "invalid AWB alignment"
  offsets_from b alignment size (p + size) left (aligned alignment n)

-- The loop over the tracks, of which only `wav_id` is read.
unfoldable pub known : List ℕ → List ℤ → Result (Unit {0})
known ids [] = ok tt
known ids (pos n ∷ tracks) = do
  ensure (has n ids) "ACB references a missing AWB waveform"
  known ids tracks
known ids (negsuc n ∷ tracks) = err "ACB references a missing AWB waveform"

abbrev pub count_of : Bytes → ℕ
count_of b = le (slice b 8 4)

abbrev pub offset_size_of : Bytes → ℕ
offset_size_of b = get_or b 5 0

abbrev pub id_size_of : Bytes → ℕ
id_size_of b = get_or b 6 0

abbrev pub alignment_of : Bytes → ℕ
alignment_of b = le (slice b 12 2)

abbrev pub offsets_at : Bytes → ℕ
offsets_at b = 16 + count_of b * id_size_of b

abbrev pub table_end : Bytes → ℕ
table_end b = offsets_at b + (count_of b + 1) * offset_size_of b

unfoldable pub check_awb_references : Bytes → List ℤ → Result (Unit {0})
check_awb_references b tracks = do
  ensure (leb 16 (length b) && starts_with b (codes "AFS2")) "invalid embedded AWB"
  ensure
      (leb (count_of b) 10000
        && (offset_size_of b == 2 || offset_size_of b == 4)
        && (id_size_of b == 2 || id_size_of b == 4)
        && ltb 0 (alignment_of b))
      "unsupported AWB header"
  ensure (leb (table_end b) (length b)) "truncated AWB table"
  ids ← ids_from b (id_size_of b) 16 (count_of b) []
  offsets_from b (alignment_of b) (offset_size_of b) (offsets_at b) (count_of b) (table_end b)
  known ids tracks

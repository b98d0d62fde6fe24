-- ===== src/Usm/Demux.antt =====
-- src/usm.rs: `extract`, the demuxer. A file is the list of its bytes; the file that a stream is
-- written to is the list of the bytes written. The maps and sets over (signature, channel) are
-- lists sorted by `id_code`, which orders the pairs of four bytes and one as Rust does.
pub mod Total
pub mod Streams
pub mod Returned
use moenotes_assets.Base.{
  ℕ, zero, suc, ◌+◌, ◌-◌, ◌*◌, ◌%◌, ◌^◌, Bool, true, false, not, ◌&&◌, ◌||◌, Option, none, some,
  List, [], ◌∷◌, ◌++◌, map, leb, ltb, ◌==◌, if◌then◌else◌, length, take, drop, get_or, all,
}
use moenotes_assets.Base.Outcome.{Result, ok, err, ensure, context, ◌>>=◌, ◌>>◌}
use moenotes_assets.Base.Bytes.{Bytes, codes, equal, starts_with, range, checked_add, be, be_bytes}
use moenotes_assets.Usm.Table.{Fields, lookup, table, table_row, be32}
use moenotes_assets.Usm.Video.{VideoInfo, from_table}
use moenotes_assets.Usm.Mask.{Masks, get_mask, mask_video, mask_audio}

abbrev pub crid_sig : Bytes
crid_sig = codes "CRID"

abbrev pub video_sig : Bytes
video_sig = codes "@SFV"

abbrev pub audio_sig : Bytes
audio_sig = codes "@SFA"

abbrev pub alpha_sig : Bytes
alpha_sig = codes "@ALP"

abbrev pub is_media : Bytes → Bool
is_media sig = equal sig video_sig || equal sig audio_sig || equal sig alpha_sig

pub record Stream : Type 0 where
  pub signature : Bytes
  pub channel : ℕ
  pub video : Option VideoInfo
  pub audio_codec : Option ℕ
  pub chunks : ℕ
  pub content : Bytes

pub record Pending : Type 0 where
  pub stream : Stream
  pub open stream use *
  pub ended : Bool
  pub header : Bool

abbrev pub id_code : Bytes → ℕ → ℕ
id_code sig channel = be sig * 256 + channel

abbrev pub StreamId : Type 0
StreamId = Bytes × ℕ

abbrev pub before : StreamId → StreamId → Bool
before (sig, channel) (sig', channel') = ltb (id_code sig channel) (id_code sig' channel')

abbrev pub same : StreamId → StreamId → Bool
same (sig, channel) (sig', channel') = equal sig sig' && channel == channel'

abbrev pub Streams : Type 0
Streams = List (StreamId × Pending)

-- One chunk of the file: its signature, the byte `h[12]`, `h[15] & 3` and the payload.
pub record Chunk : Type 0 where
  pub sig : Bytes
  pub channel : ℕ
  pub kind : ℕ
  pub payload : Bytes

pub record State : Type 0 where
  pub total : ℕ
  pub streams : Streams
  pub crid : Bool
  pub declared : List StreamId

-- `BTreeSet::insert`: `none` where the element is there.
unfoldable pub insert_new : StreamId → List StreamId → Option (List StreamId)
insert_new x [] = some (x ∷ [])
insert_new x (y ∷ ys) =
    if same x y
    then none
    else if before x y
    then some (x ∷ y ∷ ys)
    else elim (insert_new x ys) [ none ↦ none | some zs ↦ some (y ∷ zs) ]

unfoldable pub find : StreamId → Streams → Option Pending
find x [] = none
find x ((y, p) ∷ ys) = if same x y then some p else find x ys

-- `BTreeMap::insert`
unfoldable pub put : StreamId → Pending → Streams → Streams
put x p [] = (x, p) ∷ []
put x p ((y, q) ∷ ys) =
    let rest = put x p ys in
    if same x y then (x, p) ∷ ys else if before x y then (x, p) ∷ (y, q) ∷ ys else (y, q) ∷ rest

-- One row of the CRID directory.
unfoldable pub declare : Fields → List StreamId → Result (List StreamId)
declare row declared = elim (lookup (codes "stmid") row) [
  | none ↦ ok declared
  | some id ↦ if id == 0 then ok declared else (do
    ensure (ltb id (2 ^ 32)) "out of range integral type conversion attempted"
    channel ← context (lookup (codes "chno") row) "USM directory channel"
    ensure (ltb channel 256) "out of range integral type conversion attempted"
    let signature = be_bytes 4 id
    ensure (is_media signature) "unsupported/duplicate USM directory stream"
    context (insert_new (signature, channel) declared) "unsupported/duplicate USM directory stream")
]

-- `for index in 0..count`, from `index` on
unfoldable pub directory : Bytes → ℕ → ℕ → List StreamId → Result (List StreamId)
unfolding declare
directory payload index zero declared = ok declared
directory payload index (suc left) declared = do
  (name, row) ← table_row payload index
  next ← declare row declared
  directory payload (index + 1) left next

unfoldable pub crid_chunk : Chunk → State → Result State
unfolding directory
crid_chunk c s = do
  ensure (not s.crid && c.kind == 1) "duplicate/invalid CRID"
  (name, fields) ← table c.payload
  ensure (equal name (codes "CRIUSF_DIR_STREAM")) "unexpected CRID directory table"
  count ← be32 c.payload 28
  ensure (leb count 4) "USM directory stream count"
  declared ← directory c.payload 0 count s.declared
  ok (record s { crid = true; declared = declared })

unfoldable pub demask : Option Masks → Bytes → Option ℕ → Bytes → Bytes
demask none sig codec payload = payload
demask (some m) sig codec payload =
    if equal sig audio_sig
    then (elim codec [
      | none ↦ payload
      | some n ↦ if n == 2 then mask_audio payload m.audio else payload
    ])
    else mask_video payload m

unfoldable pub fresh : Chunk → Pending
fresh c = record {
  stream = record {
    signature = c.sig;
    channel = c.channel;
    video = none;
    audio_codec = none;
    chunks = 0;
    content = [];
  };
  ended = false;
  header = false;
}

-- kind 0
unfoldable pub payload_chunk : Option Masks → ℕ → Chunk → ℕ → Pending → Result (ℕ × Pending)
payload_chunk masks limit c total p = do
  ensure p.header "USM payload before header"
  sum ← context (checked_add total (length c.payload)) "USM size overflow"
  ensure (leb sum limit) "USM expansion limit"
  ok (
    sum,
    record p {
      stream = record p.stream {
        content = p.content ++ demask masks c.sig p.audio_codec c.payload;
        chunks = p.chunks + 1;
      };
    },
  )

-- `t.get("audio_codec").copied().unwrap_or(2)`
unfoldable pub codec_of : Fields → ℕ
codec_of t = elim (lookup (codes "audio_codec") t) [ none ↦ 2 | some n ↦ n ]

unfoldable pub audio_header : Bytes → Fields → Pending → Result Pending
audio_header name t p = do
  ensure (equal name (codes "AUDIO_HDRINFO")) "USM audio header table"
  let codec = codec_of t
  ensure (codec == 2 || codec == 4) "unsupported USM audio codec"
  ok (record p { stream = record p.stream { audio_codec = some codec }; header = true })

unfoldable pub video_header : Bytes → Fields → Pending → Result Pending
video_header name t p = do
  ensure (equal name (codes "VIDEO_HDRINFO")) "USM video header table"
  info ← from_table t
  ok (record p { stream = record p.stream { video = some info }; header = true })

-- kind 1
unfoldable pub header_chunk : Chunk → Pending → Result Pending
unfolding audio_header video_header
header_chunk c p = do
  ensure (not p.header) "duplicate USM stream header"
  (name, t) ← table c.payload
  if equal c.sig audio_sig then audio_header name t p else video_header name t p

-- kind 2
unfoldable pub marker_chunk : Chunk → Pending → Result Pending
marker_chunk c p =
    if starts_with c.payload (codes "#CONTENTS END")
    then (do ensure (ltb 0 p.chunks) "empty USM stream"; ok (record p { ended = true }))
    else (do
      ensure
          (starts_with c.payload (codes "#HEADER END")
            || starts_with c.payload (codes "#METADATA END"))
          "unknown USM marker"
      ok p)

unfoldable pub stream_chunk : Option Masks → ℕ → Chunk → ℕ → Pending → Result (ℕ × Pending)
unfolding payload_chunk header_chunk marker_chunk
stream_chunk masks limit c total p = do
  ensure (not p.ended) "USM data after stream end"
  if c.kind == 0
      then payload_chunk masks limit c total p
      else if c.kind == 1
      then (do q ← header_chunk c p; ok (total, q))
      else if c.kind == 2
      then (do q ← marker_chunk c p; ok (total, q))
      else (do t ← table c.payload; ok (total, p))

-- The stream of a chunk, opened where it is not there.
unfoldable pub opened : Chunk → Streams → Result Pending
unfolding fresh
opened c streams = elim (find (c.sig, c.channel) streams) [
  | some p ↦ ok p
  | none ↦ (do ensure (ltb (length streams) 3) "unsupported USM track count"; ok (fresh c))
]

unfoldable pub step : Option Masks → ℕ → Chunk → State → Result State
unfolding crid_chunk opened stream_chunk
step masks limit c s = if equal c.sig crid_sig then crid_chunk c s else (do
  p ← opened c s.streams
  (total, q) ← stream_chunk masks limit c s.total p
  ok (record s { total = total; streams = put (c.sig, c.channel) q s.streams }))

-- The chunk at `pos` and its size in the file.
unfoldable pub read_chunk : Bytes → ℕ → ℕ → Result (Chunk × ℕ)
read_chunk input limit pos = do
  h ← context (range input pos (pos + 32)) "truncated USM chunk header"
  let sig = take 4 h
  let n = be (take 4 (drop 4 h)) + 8
  let header = be (take 2 (drop 8 h))
  let padding = be (take 2 (drop 10 h))
  ensure (leb 32 n && leb n (length input - pos) && leb 24 header && leb (header + padding) (n - 8))
      "invalid USM chunk bounds"
  ensure (equal sig crid_sig || is_media sig) "unsupported USM stream type"
  ensure (not (pos == 0) || equal sig crid_sig) "missing USM CRID"
  let kind = get_or h 15 0 % 4
  let len = n - 8 - header - padding
  ensure (leb len limit && (kind == 0 || leb len (2 ^ 24))) "USM chunk budget"
  payload ←
      context (range input (pos + 8 + header) (pos + 8 + header + len))
        "failed to fill whole buffer"
  ok (record { sig = sig; channel = get_or h 12 0; kind = kind; payload = payload }, n)

-- One round of the loop: the size of the chunk, and the state behind it.
unfoldable pub advance : Option Masks → ℕ → Bytes → ℕ → State → Result (ℕ × State)
unfolding read_chunk step
advance masks limit input pos s = do
  (c, n) ← read_chunk input limit pos
  next ← step masks limit c s
  ok (n, next)

-- `while pos < size`, on fuel; `none` where it runs out.
unfoldable pub chunks_loop : ℕ → Option Masks → ℕ → Bytes → ℕ → State → Option (Result State)
unfolding advance
chunks_loop zero masks limit input pos s = none
chunks_loop (suc fuel) masks limit input pos s =
    if ltb pos (length input)
    then (elim (advance masks limit input pos s) [
      | err e ↦ some (err e)
      | ok (n, next) ↦ chunks_loop fuel masks limit input (pos + n) next
    ])
    else some (ok s)

abbrev pub count_sig : Bytes → Streams → ℕ
count_sig sig [] = 0
count_sig sig ((k, p) ∷ rest) = (if equal p.signature sig then 1 else 0) + count_sig sig rest

abbrev pub ids : Streams → List StreamId
ids = map (λ e. e.0)

abbrev pub is_none : List StreamId → Bool
is_none [] = true
is_none (x ∷ xs) = false

unfoldable pub same_ids : List StreamId → List StreamId → Bool
same_ids [] [] = true
same_ids (x ∷ xs) (y ∷ ys) = same x y && same_ids xs ys
same_ids _ _ = false

-- The checks behind the loop, and the streams.
unfoldable pub finish : State → Result (List Stream)
finish s = do
  ensure (is_none s.declared || same_ids s.declared (ids s.streams))
      "USM directory stream missing or unexpected"
  ensure (s.crid && all (λ e. e.1.header && e.1.ended) s.streams) "incomplete USM streams"
  ensure
      (count_sig video_sig s.streams == 1
        && leb (count_sig audio_sig s.streams) 1
        && leb (count_sig alpha_sig s.streams) 1)
      "unsupported USM tracks"
  ok (map (λ e. e.1.stream) s.streams)

abbrev pub initial : State
initial = record { total = 0; streams = []; crid = false; declared = [] }

abbrev pub masks_of : Option ℕ → Option Masks
masks_of none = none
masks_of (some k) = some (get_mask k)

-- The loop, then the checks behind it.
unfoldable pub conclude : Option (Result State) → Option (Result (List Stream))
unfolding finish
conclude none = none
conclude (some r) = some (do s ← r; finish s)

-- Each chunk has at least 32 bytes, so the length of the file is fuel enough.
unfoldable pub extract : Bytes → Option ℕ → ℕ → Option (Result (List Stream))
unfolding chunks_loop conclude
extract input key limit =
    conclude (chunks_loop (length input + 1) (masks_of key) limit input 0 initial)

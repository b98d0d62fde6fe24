-- ===== src/Usm/Table.antt =====
-- src/usm.rs: the metadata reader `table_row` for CRI UTF tables, with `be16`, `be32` and `string`.
-- The map of integer fields is an association list, the last insertion first.
use moenotes_assets.Base.{
  ℕ, zero, suc, ◌+◌, ◌-◌, ◌*◌, ◌/◌, ◌%◌, ◌^◌, ◌&&◌, ◌||◌, Option, none, some, List, [], ◌∷◌, leb,
  ltb, ◌==◌, if◌then◌else◌, length, take, get_elem?, any,
}
use moenotes_assets.Base.Outcome.{Result, ok, err, ensure, context, ◌>>=◌, ◌>>◌}
use moenotes_assets.Base.Bytes.{Bytes, codes, equal, starts_with, range, be}
use moenotes_assets.Base.Utf8.{from_utf8}

unfoldable pub be16 : Bytes → ℕ → Result ℕ
be16 b p = do v ← context (range b p (p + 2)) "truncated UTF"; ok (be v)

unfoldable pub be32 : Bytes → ℕ → Result ℕ
be32 b p = do v ← context (range b p (p + 4)) "truncated UTF"; ok (be v)

-- `iter().position(|v| *v == 0)`
unfoldable pub position_nul : Bytes → Option ℕ
position_nul [] = none
position_nul (x ∷ xs) =
    if x == 0 then some 0 else elim (position_nul xs) [ none ↦ none | some n ↦ some (suc n) ]

unfoldable pub string : Bytes → ℕ → ℕ → Result Bytes
unfolding position_nul
string b p end = do
  v ← context (range b p end) "UTF string bounds"
  n ← context (position_nul v) "unterminated UTF string"
  ensure (leb n 4096) "UTF string limit"
  from_utf8 (take n v)

abbrev pub Fields : Type 0
Fields = List (Bytes × ℕ)

unfoldable pub lookup : Bytes → Fields → Option ℕ
lookup k [] = none
lookup k ((j, v) ∷ m) = if equal j k then some v else lookup k m

-- The offsets of the header, each from the start of the table.
pub record Layout : Type 0 where
  pub end : ℕ
  pub rows : ℕ
  pub strings : ℕ
  pub data_at : ℕ

unfoldable pub layout : Bytes → Result Layout
layout b = do
  ensure (starts_with b (codes "@UTF") && leb 32 (length b) && leb (length b) (2 ^ 24))
      "invalid UTF table"
  end ← (do n ← be32 b 4; ok (8 + n))
  ensure (leb end (length b) && leb 32 end) "UTF length"
  rows ← (do n ← be32 b 8; ok (8 + n))
  strings ← (do n ← be32 b 12; ok (8 + n))
  data_at ← (do n ← be32 b 16; ok (8 + n))
  ensure (leb 32 rows && leb rows strings && leb strings data_at && leb data_at end) "UTF offsets"
  ok (record { end = end; rows = rows; strings = strings; data_at = data_at })

-- The width of a column's values by the low four bits of its flags.
unfoldable pub value_size : ℕ → Result ℕ
value_size kind =
    if leb kind 1
    then ok 1
    else if leb kind 3
    then ok 2
    else if kind == 4 || kind == 5 || kind == 8 || kind == 10
    then ok 4
    else if kind == 6 || kind == 7 || kind == 9 || kind == 11
    then ok 8
    else err "UTF column type"

-- The loop's variables `schema`, `row` and `out`.
pub record Cursor : Type 0 where
  pub schema : ℕ
  pub row : ℕ
  pub out : Fields

-- Where the value stands, by the high four bits: `none` for the default, in the schema for a
-- constant, in the row otherwise. Moves the cursor over it.
unfoldable pub storage : Layout → ℕ → ℕ → ℕ → ℕ → Cursor → Result (Option ℕ × Cursor)
storage l row_end count flags size c =
    let kind = flags / 16 % 16 in
    if kind == 1
    then ok (none, c)
    else if kind == 3 || kind == 7
    then (do
      ensure (leb (c.schema + size) l.rows) "UTF constant bounds"
      ok (some c.schema, record c { schema = c.schema + size }))
    else if kind == 5
    then (do
      ensure (leb (c.row + size) row_end && ltb 0 count) "UTF row width"
      ok (some c.row, record c { row = c.row + size }))
    else err "UTF storage"

-- The checks on a value that is not the default, and the integer that is kept.
unfoldable pub stored_value : Bytes → Layout → ℕ → ℕ → ℕ → Bytes → Cursor → Result Cursor
stored_value b l kind size at key c = do
  value ← context (range b at (at + size)) "UTF value bounds"
  if leb kind 7
      then ok (record c { out = (key, be value) ∷ c.out })
      else if kind == 10
      then (do
        start ← (do n ← be32 b at; ok (l.strings + n))
        text ← context (range b start l.data_at) "UTF string bounds"
        ensure (any (λ v. v == 0) (take 4097 text)) "UTF string bounds"
        ok c)
      else if kind == 11
      then (do
        off ← be32 b at
        len ← be32 b (at + 4)
        ensure (leb off (l.end - l.data_at) && leb len (l.end - l.data_at - off)) "UTF data bounds"
        ok c)
      else ok c

unfoldable pub read_value : Bytes → Layout → ℕ → ℕ → Option ℕ → Bytes → Cursor → Result Cursor
unfolding stored_value
read_value b l kind size (some at) key c = stored_value b l kind size at key c
read_value b l kind size none key c =
    ok (if leb kind 7 then record c { out = (key, 0) ∷ c.out } else c)

unfoldable pub column : Bytes → Layout → ℕ → ℕ → Cursor → Result Cursor
unfolding string value_size storage read_value
column b l row_end count c = do
  flags ← context (get_elem? b c.schema) "UTF column"
  key ← (do at ← be32 b (c.schema + 1); string b (l.strings + at) l.data_at)
  let kind = flags % 16
  size ← value_size kind
  (at, moved) ← storage l row_end count flags size (record c { schema = c.schema + 5 })
  next ← read_value b l kind size at key moved
  ensure (leb next.schema l.rows) "UTF schema bounds"
  ok next

-- `for _ in 0..columns`
unfoldable pub columns_loop : Bytes → Layout → ℕ → ℕ → ℕ → Cursor → Result Cursor
unfolding column
columns_loop b l row_end count zero c = ok c
columns_loop b l row_end count (suc k) c = do
  next ← column b l row_end count c
  columns_loop b l row_end count k next

unfoldable pub table_row : Bytes → ℕ → Result (Bytes × Fields)
unfolding layout be16 be32 string columns_loop
table_row b row_index = do
  l ← layout b
  name ← (do at ← be32 b 20; string b (l.strings + at) l.data_at)
  columns ← be16 b 24
  stride ← be16 b 26
  count ← be32 b 28
  ensure
      (leb columns 256
        && leb count 1_000_000
        && ltb (count * stride) (2 ^ 64)
        && leb (count * stride) (l.strings - l.rows))
      "UTF row bounds"
  ensure (ltb row_index count) "UTF row index"
  let row = l.rows + row_index * stride
  done ← columns_loop b l (row + stride) count columns (record { schema = 32; row = row; out = [] })
  ok (name, done.out)

abbrev pub table : Bytes → Result (Bytes × Fields)
table b = table_row b 0

-- ===== src/Usm/Demux/Returned.antt =====
-- The streams that `extract` of src/usm.rs returns.
use mathlib.Core.Path.{subst}
use moenotes_assets.Base.{
  ℕ, zero, suc, ◌+◌, ◌≤◌, ◌<◌, true, ◌&&◌, ◌||◌, Option, none, some, List, [], ◌∷◌, map, ◌≡◌, inl,
  inr, refl, sym, ap, ◌∙◌, arith, ltb, if◌then◌else◌, length, all, All, Bool-cases, Option-cases,
  and_split,
}
use moenotes_assets.Base.Outcome.{Result, ok, err, >>=-eq-ok, ensure-eq-ok, Result-cases}
use moenotes_assets.Base.Bytes.{Bytes, equal, equal_iff}
use moenotes_assets.Usm.Demux.{
  Masks, Chunk, Stream, Pending, State, Streams, step, stream_chunk, fresh, opened, put, find,
  crid_chunk, read_chunk, advance, chunks_loop, finish, extract, masks_of, initial, is_media,
  audio_sig, video_sig, alpha_sig, crid_sig, StreamId, same, count_sig, conclude, is_none, same_ids,
  ids,
}
use moenotes_assets.Usm.Demux.Streams.{IsSound, Known, fresh-IsSound, stream_chunk-IsSound}

-- Each stream stands under its own signature.
abbrev Filed : StreamId × Pending → Type 0
Filed (id, p) = (p.signature ≡ id.0) × IsSound p

put-All :
    (x : StreamId) (p : Pending) (ss : Streams)
    → Filed (x, p)
    → All Filed ss
    → All Filed (put x p ss)
unfolding put
put-All x p [] f h = (f, tt)
put-All x p ((y, q) ∷ ss) f h = ground (arith, put-All x p ss f h.1)

find-Filed :
    (x : StreamId) (ss : Streams) {p : Pending}
    → All Filed ss
    → find x ss ≡ some p
    → (p.signature ≡ x.0) × IsSound p
unfolding find
find-Filed x [] h e = absurd (cc)
find-Filed x ((y, q) ∷ ss) {p} h e = elim (Bool-cases (same x y)) [
  | inl hit ↦
      let is : q ≡ p = ground arith in
      let key : x.0 ≡ y.0 = (equal_iff x.0 y.0).0 (and_split _ _ hit).0 in
      rw (← is) (h.0.0 ∙ sym key, h.0.1)
  | inr miss ↦ find-Filed x ss h.1 (rw miss at e)
]

opened-IsSound :
    (c : Chunk) (ss : Streams) {p : Pending}
    → is_media c.sig ≡ true
    → All Filed ss
    → opened c ss ≡ ok p
    → (p.signature ≡ c.sig) × IsSound p
unfolding opened
opened-IsSound c ss {p} m h e = elim (Option-cases (find (c.sig, c.channel) ss)) [
  | inl none' ↦
      let is : p ≡ fresh c = ground arith in rw is (unfold fresh in refl, fresh-IsSound c m)
  | inr (q, found) ↦
      let is : q ≡ p = ground arith in rw (← is) (find-Filed (c.sig, c.channel) ss h found)
]

streams-crid_chunk :
    (c : Chunk) (s : State) {t : State} → crid_chunk c s ≡ ok t → t.streams ≡ s.streams
unfolding crid_chunk
streams-crid_chunk c s h = ground arith

step-Filed :
    (masks : Option Masks) (limit : ℕ) (c : Chunk) (s : State) {t : State}
    → (equal c.sig crid_sig || is_media c.sig) ≡ true
    → All Filed s.streams
    → step masks limit c s ≡ ok t
    → All Filed t.streams
unfolding step
step-Filed masks limit c s {t} m h e = elim (Bool-cases (equal c.sig crid_sig)) [
  | inl crid ↦
      let is : t.streams ≡ s.streams = streams-crid_chunk c s (rw crid at e) in
      subst (All Filed) (sym is) h
  | inr media ↦
      let (p, at, e₁) = >>=-eq-ok (opened c s.streams) _ (rw media at e) in
      let ((total, q), done, e₂) = >>=-eq-ok (stream_chunk masks limit c s.total p) _ e₁ in
      let is : t.streams ≡ put (c.sig, c.channel) q s.streams = ground arith in
      let was = opened-IsSound c s.streams (ground arith) h at in
      let now = stream_chunk-IsSound c p was.1 masks limit s.total was.0 done in
      subst (All Filed) (sym is) (put-All (c.sig, c.channel) q s.streams (now.1 ∙ was.0, now.0) h)
]

read_chunk-sig :
    (input : Bytes) (limit pos : ℕ) {c : Chunk} {n : ℕ}
    → read_chunk input limit pos ≡ ok (c, n)
    → (equal c.sig crid_sig || is_media c.sig) ≡ true
unfolding read_chunk
read_chunk-sig input limit pos h = ground arith

chunks_loop-Filed :
    (fuel : ℕ) (masks : Option Masks) (limit : ℕ) (input : Bytes) (pos : ℕ) (s : State) {t : State}
    → All Filed s.streams
    → chunks_loop fuel masks limit input pos s ≡ some (ok t)
    → All Filed t.streams
unfolding chunks_loop
chunks_loop-Filed zero masks limit input pos s h e = absurd (cc)
chunks_loop-Filed (suc fuel) masks limit input pos s {t} h e =
    elim (Bool-cases (ltb pos (length input))) [
      | inr done ↦ let is : s ≡ t = ground arith in rw (← is) h
      | inl more ↦ elim (Result-cases (advance masks limit input pos s)) [
        | inr (m, failed) ↦ absurd (ground arith)
        | inl ((n, u), moved) ↦
            let ((c, k), r, e₁) =
              >>=-eq-ok (read_chunk input limit pos) _ (unfold advance in moved) in
            let (v, st, e₂) = >>=-eq-ok (step masks limit c s) _ e₁ in
            let is : v ≡ u = ground arith in
            let kept = step-Filed masks limit c s (read_chunk-sig input limit pos r) h st in
            let rest : chunks_loop fuel masks limit input (pos + n) u ≡ some (ok t) =
              ground arith in
            chunks_loop-Filed fuel masks limit input (pos + n) u
              (subst (λ (x : State). All Filed x.streams) is kept) rest
      ]
    ]

-- What holds of each stream that is returned.
pub record IsDone (s : Stream) : Type 0 where
  pub media : is_media s.signature ≡ true
  pub known : Known s
  pub fed : 0 < s.chunks

abbrev pub count_stream : Bytes → List Stream → ℕ
count_stream sig [] = 0
count_stream sig (s ∷ rest) = (if equal s.signature sig then 1 else 0) + count_stream sig rest

streams-IsDone :
    (ss : Streams)
    → All Filed ss
    → all (λ (e : StreamId × Pending). e.1.header && e.1.ended) ss ≡ true
    → All IsDone (map (λ (e : StreamId × Pending). e.1.stream) ss)
streams-IsDone [] f h = tt
streams-IsDone ((x, p) ∷ ss) f h =
    let (both, rest) = and_split (p.header && p.ended) _ h in
    let (head, end) = and_split p.header p.ended both in
    let i = f.0.1 in
    (
      record { media = i.media; known = i.known head; fed = i.closed end },
      streams-IsDone ss f.1 rest,
    )

count_sig-map :
    (sig : Bytes) (ss : Streams)
    → count_stream sig (map (λ (e : StreamId × Pending). e.1.stream) ss) ≡ count_sig sig ss
count_sig-map sig [] = refl
count_sig-map sig ((x, p) ∷ ss) =
    ap (λ n. (if equal p.signature sig then 1 else 0) + n) (count_sig-map sig ss)

conclude-eq-ok :
    (o : Option (Result State)) {ss : List Stream}
    → conclude o ≡ some (ok ss)
    → (t : State) × (o ≡ some (ok t)) × (finish t ≡ ok ss)
unfolding conclude
conclude-eq-ok none h = absurd (cc)
conclude-eq-ok (some (err e)) h = absurd (cc)
conclude-eq-ok (some (ok t)) h = (t, refl, cc)

pub record AreTracks (ss : List Stream) : Type 0 where
  pub each : All IsDone ss
  pub one_video : count_stream video_sig ss ≡ 1
  pub audio : count_stream audio_sig ss ≤ 1
  pub alpha : count_stream alpha_sig ss ≤ 1

finish-AreTracks :
    (t : State) {ss : List Stream} → All Filed t.streams → finish t ≡ ok ss → AreTracks ss
unfolding finish
finish-AreTracks t {ss} f h =
    let (directory, h₁) =
      ensure-eq-ok (is_none t.declared || same_ids t.declared (ids t.streams)) _ _ h in
    let (complete, h₂) =
      ensure-eq-ok (t.crid && all (λ (e : StreamId × Pending). e.1.header && e.1.ended) t.streams) _
        _ h₁ in
    let counts : (count_sig video_sig t.streams ≡ 1)
        × (count_sig audio_sig t.streams ≤ 1)
        × (count_sig alpha_sig t.streams ≤ 1)
        × (map (λ (e : StreamId × Pending). e.1.stream) t.streams ≡ ss) =
      ground arith in
    subst AreTracks counts.3 (record {
      each = streams-IsDone t.streams f (and_split t.crid _ complete).1;
      one_video = count_sig-map video_sig t.streams ∙ counts.0;
      audio = rw count_sig-map counts.1;
      alpha = rw count_sig-map counts.2;
    })

-- When `extract` returns streams, exactly one has signature "@SFV", at most one "@SFA", at most one
-- "@ALP" and none any other; each has at least one payload; an "@SFA" stream has audio codec 2 or
-- 4, and each other stream has a video description that passes all checks of `from_table`.
pub extract-AreTracks :
    (input : Bytes) (key : Option ℕ) (limit : ℕ) {ss : List Stream}
    → extract input key limit ≡ some (ok ss)
    → AreTracks ss
unfolding extract
extract-AreTracks input key limit {ss} h =
    let run = chunks_loop (length input + 1) (masks_of key) limit input 0 initial in
    let (t, looped, ended) = conclude-eq-ok run h in
    finish-AreTracks t
      (chunks_loop-Filed (length input + 1) (masks_of key) limit input 0 initial tt looped) ended

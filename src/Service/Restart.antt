-- ===== src/Service/Restart.antt =====
-- The restart of src/service.rs goes through all tasks, a hundred at a time, and settles each.
use moenotes_assets.Base.{
  ℕ, zero, suc, ◌+◌, ◌<◌, true, false, some, List, [], ◌∷◌, ◌++◌, map, ◌≡◌, inl, inr, refl, sym, ap,
  ◌∙◌, arith, if◌then◌else◌, length, take, drop, All, Bool-cases, append_assoc, append-nil,
  take-append-drop, All-append, length-drop,
}
use moenotes_assets.Base.Bytes.{equal_iff, Bytes, equal}
use mathlib.Core.Path.{subst}
use mathlib.Core.List.{map-append}
use moenotes_assets.Service.{
  less, Task, is_active, recovered, later, replace, process, last_id, recover,
}
use moenotes_assets.Service.Order.{
  less_irrefl, less-ne, Ascending, Below, Ascending-later, Below-later,
}

recovered-id : (now : ℕ) (t : Task) → (recovered now t).id ≡ t.id
unfolding recovered
recovered-id now t = elim (Bool-cases (is_active t)) [ inl e ↦ rw e refl | inr e ↦ rw e refl ]

recovered_idle : (now : ℕ) (t : Task) → is_active t ≡ false → recovered now t ≡ t
unfolding recovered
recovered_idle now t e = rw e refl

replace_below :
    (u : Task) (ts rest : List Task)
    → All (λ t. equal t.id u.id ≡ false) ts
    → replace u (ts ++ rest) ≡ ts ++ replace u rest
unfolding replace
replace_below u [] rest h = refl
replace_below u (t ∷ ts) rest h =
    rw h.0 (ap (λ (x : List Task). t ∷ x) (replace_below u ts rest h.1))

replace_none :
    (u : Task) (ts : List Task) → All (λ t. equal t.id u.id ≡ false) ts → replace u ts ≡ ts
unfolding replace
replace_none u [] h = refl
replace_none u (t ∷ ts) h = rw h.0 (ap (λ (x : List Task). t ∷ x) (replace_none u ts h.1))

-- The ids below or above one are not it.
apart-Below :
    (previous id : Bytes) (ts : List Task)
    → less previous id ≡ true
    → Below previous ts
    → All (λ t. equal t.id id ≡ false) ts
apart-Below previous id [] h k = tt
apart-Below previous id (t ∷ ts) h k = (
  elim (Bool-cases (equal t.id id)) [
    | inl e ↦ absurd (ground (arith, ap (less previous) ((equal_iff t.id id).0 e), h, k.0))
    | inr e ↦ e
  ],
  apart-Below previous id ts h k.1,
)

apart_above : (id : Bytes) (ts : List Task) → Ascending id ts → All (λ t. equal t.id id ≡ false) ts
unfolding Ascending
apart_above id [] h = tt
apart_above id (t ∷ ts) h =
    (less-ne id t.id h.0, apart_above id ts (Ascending-later id t.id ts h.0 h.1))

snoc-append : (xs : List Task) (y : Task) (ys : List Task) → (xs ++ y ∷ []) ++ ys ≡ xs ++ y ∷ ys
snoc-append xs y ys = simp append_assoc

-- One row of a page.
process_row :
    (now : ℕ) (previous : Bytes) (row : Task) (done rest : List Task)
    → Below previous done
    → Ascending previous (row ∷ rest)
    → (if is_active row
        then replace (recovered now row) (done ++ row ∷ rest)
        else done ++ row ∷ rest)
      ≡ (done ++ recovered now row ∷ []) ++ rest
unfolding Ascending replace
process_row now previous row done rest b a = elim (Bool-cases (is_active row)) [
  | inr e ↦ rw e (rw (recovered_idle now row e) (sym (snoc-append done row rest)))
  | inl e ↦
      let u = recovered now row in
      let same : row.id ≡ u.id = sym (recovered-id now row) in
      let below =
        subst (λ (x : Bytes). All (λ t. equal t.id x ≡ false) done) same
          (apart-Below previous row.id done a.0 b) in
      let above =
        subst (λ (x : Bytes). All (λ t. equal t.id x ≡ false) rest) same
          (apart_above row.id rest a.1) in
      let here : equal row.id u.id ≡ true = (equal_iff row.id u.id).1 same in
      rw e (
        replace_below u done (row ∷ rest) below
        ∙ rw here (
            ap (λ (x : List Task). done ++ u ∷ x) (replace_none u rest above)
            ∙ sym (snoc-append done u rest)))
]

-- What a page leaves.
record Advanced (now : ℕ) (previous : Bytes) (rows done rest : List Task) : Type 0 where
  table : process now rows (done ++ (rows ++ rest)) ≡ (done ++ map (recovered now) rows) ++ rest
  below : Below (last_id previous rows) (done ++ map (recovered now) rows)
  above : Ascending (last_id previous rows) rest

not_less : {a b : Bytes} → a ≡ b → less b a ≡ false
not_less {a} {b} e = ap (less b) e ∙ less_irrefl b

advance :
    (now : ℕ) (previous : Bytes) (rows done rest : List Task)
    → Below previous done
    → Ascending previous (rows ++ rest)
    → Advanced now previous rows done rest
unfolding process last_id Ascending
advance now previous [] done rest b a = record {
  table = ap (λ (x : List Task). x ++ rest) (sym (append-nil done));
  below = subst (Below previous) (sym (append-nil done)) b;
  above = a;
}
advance now previous (row ∷ rows) done rest b a =
    let u = recovered now row in
    let fresh = not_less (recovered-id now row) in
    let below =
      All-append (λ t. less row.id t.id ≡ false) done (u ∷ [])
        (Below-later previous row.id done a.0 b) (fresh, tt) in
    let more = advance now row.id rows (done ++ u ∷ []) rest below a.1 in
    let one = process_row now previous row done (rows ++ rest) b a in
    let grouped = snoc-append done u (map (recovered now) rows) in
    record {
      table = ap (process now rows) one ∙ more.table ∙ ap (λ (x : List Task). x ++ rest) grouped;
      below = subst (Below (last_id row.id rows)) grouped more.below;
      above = more.above;
    }

later-Below :
    (previous : Bytes) (done rest : List Task)
    → Below previous done
    → later previous (done ++ rest) ≡ later previous rest
unfolding later
later-Below previous [] rest b = refl
later-Below previous (t ∷ done) rest b = rw b.0 (later-Below previous done rest b.1)

later_all :
    (previous : Bytes) (rest : List Task) → Ascending previous rest → later previous rest ≡ rest
unfolding later Ascending
later_all previous [] a = refl
later_all previous (t ∷ rest) a = rw a.0 (
    ap (λ (x : List Task). t ∷ x)
      (later_all previous rest (Ascending-later previous t.id rest a.0 a.1)))

joined :
    (done : List Task) (f : Task → Task) (rows left ts : List Task)
    → rows ++ left ≡ ts
    → (done ++ map f rows) ++ map f left ≡ done ++ map f ts
joined done f rows left ts e =
    append_assoc done (map f rows) (map f left)
    ∙ ap (λ (x : List Task). done ++ x) (sym (map-append f rows left) ∙ ap (map f) e)

recover_from :
    (fuel now : ℕ) (previous : Bytes) (done rest : List Task)
    → length rest < fuel
    → Below previous done
    → Ascending previous rest
    → recover fuel now previous (done ++ rest) ≡ some (done ++ map (recovered now) rest)
unfolding recover
recover_from zero now previous done rest l b a = absurd (omega arith)
recover_from (suc fuel) now previous done [] l b a =
    let page = later-Below previous done [] b ∙ later_all previous [] a in rw (recover, page) refl
recover_from (suc fuel) now previous done (t ∷ rest) l b a =
    let page = later-Below previous done (t ∷ rest) b ∙ later_all previous (t ∷ rest) a in
    let rows = take 100 (t ∷ rest) in
    let left = drop 100 (t ∷ rest) in
    let whole = take-append-drop 100 (t ∷ rest) in
    let a' = subst (Ascending previous) (sym whole) a in
    let step = advance now previous rows done left b a' in
    let shorter : length left < fuel = omega (arith, length-drop 100 (t ∷ rest)) in
    let next =
      recover_from fuel now (last_id previous rows) (done ++ map (recovered now) rows) left shorter
        step.below step.above in
    let table = ap (λ (x : List Task). process now rows (done ++ x)) (sym whole) ∙ step.table in
    rw (recover, page)
      (rw (page, table) (next ∙ ap some (joined done (recovered now) rows left (t ∷ rest) whole)))

-- The restart ends with one page more than the tasks, at most, and leaves the table of the same
-- tasks, where their ids ascend from the empty one; each task is as `recovered` makes it.
pub recover-map :
    (now : ℕ) (table : List Task)
    → Ascending [] table
    → recover (length table + 1) now [] table ≡ some (map (recovered now) table)
recover-map now table a = recover_from (length table + 1) now [] [] table (omega arith) tt a

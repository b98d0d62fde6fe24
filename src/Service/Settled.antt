-- ===== src/Service/Settled.antt =====
-- What the restart of src/service.rs makes of one task.
use moenotes_assets.Base.{
  ℕ, Bool, true, false, List, [], ◌∷◌, ◌++◌, ◌≡◌, ◌≢◌, ◌⊎◌, inl, inr, refl, sym, length, any, All,
  String, Bool-cases, none, some,
}
use moenotes_assets.Base.Bytes.{equal_iff, Bytes, codes, equal}
use mathlib.Core.Path.{subst}
use moenotes_assets.TaskRunner.{ItemResult, failed_item}
use moenotes_assets.Service.{Task, is_active, reported, interrupted, recovered}

false-ne-true : ◌≢◌ {A = Bool} false true
false-ne-true h = cc

any-append_left :
    {A : Type 0} (f : A → Bool) (xs ys : List A) → any f xs ≡ true → any f (xs ++ ys) ≡ true
any-append_left f [] ys h = absurd (false-ne-true h)
any-append_left f (x ∷ xs) ys h = elim (Bool-cases (f x)) [
  | inl e ↦ rw e refl
  | inr e ↦ rw e (any-append_left f xs ys (rw e at h))
]

any-append_right :
    {A : Type 0} (f : A → Bool) (xs ys : List A) → any f ys ≡ true → any f (xs ++ ys) ≡ true
any-append_right f [] ys h = h
any-append_right f (x ∷ xs) ys h = elim (Bool-cases (f x)) [
  | inl e ↦ rw e refl
  | inr e ↦ rw e (any-append_right f xs ys h)
]

named_here :
    (key : Bytes) (e : String) (rest : List ItemResult)
    → reported (failed_item key e ∷ rest) key ≡ true
unfolding failed_item
named_here key e rest = rw ((equal_iff key key).1 refl) refl

widened :
    (results : List ItemResult) (r : ItemResult) (more : List ItemResult) (keys : List Bytes)
    → All (λ key. (reported results key ≡ true) ⊎ (reported more key ≡ true)) keys
    → All (λ key. (reported results key ≡ true) ⊎ (reported (r ∷ more) key ≡ true)) keys
widened results r more [] h = tt
widened results r more (key ∷ keys) h = (
  elim h.0 [
    | inl e ↦ inl e
    | inr e ↦ inr (any-append_right (λ x. equal x.key key) (r ∷ []) more e)
  ],
  widened results r more keys h.1,
)

abbrev Covered : List ItemResult → List Bytes → List ItemResult → Type 0
Covered results keys more =
    All (λ key. (reported results key ≡ true) ⊎ (reported more key ≡ true)) keys

interrupted_old :
    (results : List ItemResult) (key : Bytes) (keys : List Bytes)
    → reported results key ≡ true
    → interrupted results keys ≡ interrupted results (key ∷ keys)
unfolding interrupted
interrupted_old results key keys e = rw e refl

interrupted_new :
    (results : List ItemResult) (key : Bytes) (keys : List Bytes)
    → reported results key ≡ false
    → failed_item key "interrupted by service restart" ∷ interrupted results keys
      ≡ interrupted results (key ∷ keys)
unfolding interrupted
interrupted_new results key keys e = rw e refl

reported-interrupted :
    (results : List ItemResult) (keys : List Bytes)
    → Covered results keys (interrupted results keys)
reported-interrupted results [] = tt
reported-interrupted results (key ∷ keys) =
    let rest = reported-interrupted results keys in
    elim (Bool-cases (reported results key)) [
      | inl e ↦
          subst (Covered results (key ∷ keys)) (interrupted_old results key keys e) (inl e, rest)
      | inr e ↦
          let r = failed_item key "interrupted by service restart" in
          subst (Covered results (key ∷ keys)) (interrupted_new results key keys e) (
            inr (named_here key "interrupted by service restart" (interrupted results keys)),
            widened results r (interrupted results keys) keys rest,
          )
    ]

all_reported :
    (results more : List ItemResult) (keys : List Bytes)
    → All (λ key. (reported results key ≡ true) ⊎ (reported more key ≡ true)) keys
    → All (λ key. reported (results ++ more) key ≡ true) keys
all_reported results more [] h = tt
all_reported results more (key ∷ keys) h = (
  elim h.0 [
    | inl e ↦ any-append_left (λ x. equal x.key key) results more e
    | inr e ↦ any-append_right (λ x. equal x.key key) results more e
  ],
  all_reported results more keys h.1,
)

-- The results that the restart adds are failures.
interrupted_fail :
    (results : List ItemResult) (keys : List Bytes)
    → All (λ (r : ItemResult). r.export_id ≡ none) (interrupted results keys)
unfolding interrupted failed_item
interrupted_fail results [] = tt
interrupted_fail results (key ∷ keys) = elim (Bool-cases (reported results key)) [
  | inl e ↦ rw e (interrupted_fail results keys)
  | inr e ↦ rw e (refl, interrupted_fail results keys)
]

-- What the restart leaves of a task that was queued or running.
pub record IsFailed (t u : Task) : Type 0 where
  pub state : u.state ≡ codes "failed"
  pub error : u.error ≡ some (codes "interrupted by service restart; resubmit failed keys")
  pub added : List ItemResult
  pub kept : u.results ≡ t.results ++ added
  pub failures : All (λ (r : ItemResult). r.export_id ≡ none) added
  pub all_keys : All (λ key. reported u.results key ≡ true) t.keys
  pub counted : equal t.kind (codes "export") ≡ true → u.completed ≡ length u.results
  pub same_task : (u.id ≡ t.id) × (u.kind ≡ t.kind) × (u.keys ≡ t.keys) × (u.total ≡ t.total)

-- What a restart leaves of a task that was queued or running: it has failed with the error of an
-- interrupted task, its results are those that were there, followed by failures only, every key
-- that was asked for has a result, of an export the number completed is that of the results, and
-- its id, kind, keys and total are the same. Any other task is left as it is.
pub recovered-IsSettled :
    (now : ℕ) (t : Task)
    → (is_active t ≡ true → IsFailed t (recovered now t))
      × (is_active t ≡ false → recovered now t ≡ t)
unfolding recovered
recovered-IsSettled now t = elim (Bool-cases (is_active t)) [
  | inl e ↦ rw e (
    (λ _. record {
      state = refl;
      error = refl;
      added = interrupted t.results t.keys;
      kept = refl;
      failures = interrupted_fail t.results t.keys;
      all_keys =
          all_reported t.results (interrupted t.results t.keys) t.keys
            (reported-interrupted t.results t.keys);
      counted = λ k. rw k refl;
      same_task = (refl, refl, refl, refl);
    }),
    (λ f. absurd (false-ne-true (sym f))),
  )
  | inr e ↦ rw e ((λ f. absurd (false-ne-true f)), (λ _. refl))
]

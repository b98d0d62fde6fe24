-- ===== src/TaskRunner/Accounting.antt =====
-- `run` of src/task_runner.rs accounts for every key.
use mathlib.Core.Path.{subst}
use moenotes_assets.Base.{
  ℕ, false, none, some, List, [], ◌∷◌, ◌++◌, map, ◌≡◌, inl, inr, refl, sym, ◌∙◌, arith,
  if◌then◌else◌, length, length-map, Bool, Option, ◌&&◌, true, ltb, ap,
}
use moenotes_assets.Base.Bytes.{Bytes, equal, codes}
use moenotes_assets.TaskRunner.{
  ItemResult, Event, Runner, failed_item, fill, successes, verdict, finish, loop, begin, run,
  succeeded, start, failed, run_export,
}
use moenotes_assets.TaskRunner.Load.{weigh, keys_of, loop-cases, loop-last, loop-load, begin-load}

-- How often a key occurs
unfoldable pub count : Bytes → List Bytes → ℕ
unfolding weigh
count key = weigh (λ k. if equal k key then 1 else 0)

-- A task succeeds only if nothing failed.
pub record IsAccount (keys : List Bytes) (t : Runner) : Type 0 where
  pub every : (key : Bytes) → count key (keys_of t.results) ≡ count key keys
  pub completed_all : t.completed ≡ length keys
  pub success :
      t.state ≡ succeeded → (t.error ≡ none) × (t.token ≡ false) × (successes t.results ≡ t.total)

weigh-length : (ks : List Bytes) → weigh (λ k. 1) ks ≡ length ks
unfolding weigh
weigh-length [] = refl
weigh-length (k ∷ ks) = let e = weigh-length ks in omega arith

finish-success :
    (s : Runner)
    → (finish s).state ≡ succeeded
    → ((finish s).error ≡ none)
      × ((finish s).token ≡ false)
      × (successes (finish s).results ≡ (finish s).total)
unfolding finish verdict
finish-success s h = (ground arith, ground arith, ground arith)

finish-completed : (s : Runner) → (finish s).completed ≡ length (keys_of (finish s).results)
unfolding finish
finish-completed s = sym (
    length-map (λ (r : ItemResult). r.key)
      (s.results ++ map (λ key. failed_item key "cancelled") s.pending))

and_false : (b : Bool) → (b && false) ≡ false
and_false b = ground arith

module _ (execute : Bytes → ℕ → ItemResult)
    (named : (key : Bytes) (n : ℕ) → (execute key n).key ≡ key) where
  loop-finish :
      (c : ℕ) (es : List Event) (s : Runner) {t : Runner}
      → loop execute c es s ≡ some t
      → (u : Runner) × (finish u ≡ t)
  loop-finish c [] s h = (fill c s, (loop-last (λ k. 0) execute named c s h).1)
  loop-finish c (e ∷ es) s h = elim (loop-cases (λ k. 0) execute named c e es s h) [
    | inl (a, f) ↦ (fill c s, f)
    | inr (u, n, rest) ↦ loop-finish c es u rest
  ]

-- Where `execute` gives an item of its own key: whenever the loop ends, whatever the order of the
-- ends, the panics and the failed checkpoints, whether or not the task has an error at the start, and
-- whenever the token is cancelled, before the run, between two starts or in a wait: each key has as
-- many results as it was asked for, and the number completed is that of the keys. A task that
-- succeeded has no error, was not cancelled, and has as many exports as its total.
pub run-IsAccount :
    (execute : Bytes → ℕ → ItemResult) (concurrency : ℕ) (error : Option Bytes) (token : Bool)
    (cancels : ℕ → Bool) (keys : List Bytes) (events : List Event) {t : Runner}
    → ((key : Bytes) (n : ℕ) → (execute key n).key ≡ key)
    → run execute concurrency error token cancels keys events ≡ some t
    → IsAccount keys t
unfolding run count
run-IsAccount execute concurrency error token cancels keys events named h =
    let first = begin error token cancels keys in
    let load_of = λ (w : Bytes → ℕ).
      loop-load w execute named concurrency events first h
      ∙ begin-load w error token cancels keys in
    let (u, e) = loop-finish execute named concurrency events first h in
    record {
      every = λ key. load_of (λ k. if equal k key then 1 else 0);
      completed_all =
          subst (λ (x : Runner). x.completed ≡ length (keys_of x.results)) e (finish-completed u)
          ∙ sym (weigh-length (keys_of _))
          ∙ load_of (λ k. 1)
          ∙ weigh-length keys;
      success =
          subst
            (λ (x : Runner).
              x.state ≡ succeeded
              → (x.error ≡ none) × (x.token ≡ false) × (successes x.results ≡ x.total))
            e (finish-success u);
    }

-- With a cancelled token nothing is started.
start_cancelled :
    (cancels : ℕ → Bool) (c n : ℕ) (keys : List Bytes)
    → start cancels c n true keys [] ≡ (keys, ([], true))
unfolding start
start_cancelled cancels c n [] = refl
start_cancelled cancels c n (key ∷ keys) = rw (and_false (ltb (length []) c)) refl

abbrev pub unsaved : Bytes
unsaved = codes "task persistence failed; resubmit unsuccessful keys"

fill-begin :
    (c : ℕ) (error : Option Bytes) (cancels : ℕ → Bool) (keys : List Bytes)
    → fill c (begin error true cancels keys) ≡ begin error true cancels keys
unfolding fill begin
fill-begin c error cancels keys =
    ap
      (λ (x : List Bytes × (List Bytes × Bool)). record (begin error true cancels keys) {
        pending = x.0;
        active = x.1.0;
        token = x.1.1;
      })
      (start_cancelled cancels c 0 keys)

begin_active :
    (error : Option Bytes) (cancels : ℕ → Bool) (keys : List Bytes)
    → (begin error true cancels keys).active ≡ []
unfolding begin
begin_active error cancels keys = refl

-- Where nothing is at work nor started, the loop ends at once.
loop_idle :
    (execute : Bytes → ℕ → ItemResult) (c : ℕ) (es : List Event) (s : Runner)
    → fill c s ≡ s
    → s.active ≡ []
    → loop execute c es s ≡ some (finish s)
unfolding loop
loop_idle execute c [] s e a =
    let idle : (fill c s).active ≡ [] = ap (λ (x : Runner). x.active) e ∙ a in
    let ends : loop execute c [] s ≡ some (finish (fill c s)) = ground arith in
    ends ∙ ap (λ (x : Runner). some (finish x)) e
loop_idle execute c (x ∷ es) s e a =
    let idle : (fill c s).active ≡ [] = ap (λ (x : Runner). x.active) e ∙ a in
    let ends : loop execute c (x ∷ es) s ≡ some (finish (fill c s)) = ground arith in
    ends ∙ ap (λ (x : Runner). some (finish x)) e

-- A task of which no resource has run: every key is cancelled, in the order of the request.
pub record IsUnstarted (keys : List Bytes) (t : Runner) : Type 0 where
  pub results : t.results ≡ map (λ key. failed_item key "cancelled") keys
  pub completed : t.completed ≡ length keys
  pub state : t.state ≡ failed
  pub error : t.error ≡ some unsaved

-- An export whose start could not be saved ends, whatever the concurrency and the events, without
-- running a resource: each key in order has the result of a cancelled one, all are completed, and the
-- task has failed with the error of the persistence.
pub run_export-IsUnstarted :
    (execute : Bytes → ℕ → ItemResult) (concurrency : ℕ) (token : Bool) (cancels : ℕ → Bool)
    (keys : List Bytes) (events : List Event)
    → (t : Runner) × (run_export execute false concurrency token cancels keys events ≡ some t)
      × IsUnstarted keys t
unfolding run_export run finish verdict begin
run_export-IsUnstarted execute c token cancels keys events = (
  finish (begin (some unsaved) true cancels keys),
  loop_idle execute c events (begin (some unsaved) true cancels keys)
      (fill-begin c (some unsaved) cancels keys) (begin_active (some unsaved) cancels keys),
  record { results = refl; completed = length-map _ keys; state = refl; error = refl },
)

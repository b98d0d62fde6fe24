-- ===== src/Tests/Processes.antt =====
-- Processes that write in pieces.
use moenotes_assets.Base.{◌*◌, ◌≤◌, true, List, [], ◌∷◌, ◌≡◌, refl, length}
use moenotes_assets.Base.Outcome.{Result, ok, err, ◌>>=◌}
use moenotes_assets.Base.Bytes.{Bytes, codes, equal}
use moenotes_assets.Tree.{contents}
use moenotes_assets.Diagnostics.{
  append, drain_from, drain, Child, ExitStatus, success, signalled, capture, stdout_limit,
  stderr_limit, failure_code, is_success,
}
use moenotes_assets.Diagnostics.Bounded.{summary, drain-summary, capture-whole}

abbrev reads : List (Result Bytes)
reads = ok (codes "ab") ∷ ok (codes "cde") ∷ ok [] ∷ []

last_two : drain reads 2 true ≡ ok (record { bytes = codes "de"; total = 5 })
unfolding drain drain_from append
last_two = refl

drain-summary_example :
    drain reads 2 true ≡ (contents [] reads >>= λ output. ok (summary output 2 true))
drain-summary_example = drain-summary reads 2 true

abbrev process : Child
process = record { spawned = true; waited = ok success; stdout = reads; stderr = ok [] ∷ [] }

process_lem : capture process (codes "probe") ≡ ok (codes "abcde")
unfolding capture drain drain_from append stdout_limit stderr_limit failure_code equal
process_lem = refl

capture-whole_example :
    (process.spawned ≡ true)
    × ((status : ExitStatus) × (process.waited ≡ ok status) × (is_success status ≡ true))
    × (contents [] process.stdout ≡ ok (codes "abcde"))
    × (length (codes "abcde") ≤ 1024 * 1024)
capture-whole_example = capture-whole process (codes "probe") process_lem

-- SIGXCPU
over_time :
    capture (record process { waited = ok (signalled 24) }) (codes "probe")
    ≡ err "process_cpu_limit"
unfolding capture drain drain_from append stdout_limit stderr_limit failure_code equal
over_time = refl

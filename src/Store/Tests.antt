-- ===== src/Store/Tests.antt =====
-- The queue at concrete inputs: what its theorems say of them, and runs of its methods.
use mathlib.Core.List.{Perm}
use slack_runtests.Prelude.{
  All, List, Text-discrete, [], arith, codes, count_if, false, if◌then◌else◌, length, none, pos,
  refl, some, true, ℕ, ℕ_discrete, ℤ-discrete, ◌++◌, ◌+◌, ◌==◌, ◌∷◌, ◌≡◌, ◌≢◌, ◌≤◌, ◌⊎◌, text_eq,
  nat_eq, int_eq, option_eq,
}
use slack_runtests.Store.{
  Rows, claim, counts, enqueue, finish, finished, job, last_for, mark_running, newest_first, reap,
  recent, wanted_of,
}
use slack_runtests.Store.Rows.{
  Job, JobRow, JobState-discrete, Outcome, claimed, done, failed, queued, state_eq,
}
use slack_runtests.Store.Updates.{Distinct}
use slack_runtests.Store.History.{Op, claims, enqueues, finishes, reaps, run}
use slack_runtests.Store.Lifecycle.{Evolves}
use slack_runtests.Store.Refines.{run-Evolves}
use slack_runtests.Store.Final.{enqueue_again, is_final, job-run_final}
use slack_runtests.Store.Consistent.{IsConsistent, IsWellFormed, run-IsWellFormed}
use slack_runtests.Store.Order.{IsSorted}
use slack_runtests.Store.Claiming.{IsOldest, NoneFor, claim_cases, handed}
use slack_runtests.Store.Leases.{
  IsForeign, IsHeld, claim_exclusive, job-reap, reaped_row, run-holds,
}
use slack_runtests.Store.Ownership.{
  finish_accepts, finish_once, finish_records, holds, mark_running_accepts, met_by, waits_to_start,
}
use slack_runtests.Store.Attempts.{handouts, handouts-le}
use slack_runtests.Store.Heartbeats.{IsTimely, beats, beats-IsHeld}
use slack_runtests.Store.Queries.{
  IsNewest, count_of, count_of-counts, last_for-IsNewest, recent_newest,
}

abbrev smoke : Job
smoke = record {
  id = codes "j1";
  product = codes "webapp";
  server = codes "dev";
  select_expr = some (codes "smoke");
  marker = none;
  slack_channel = codes "#testing";
  slack_user = codes "U1";
}

abbrev nightly : Job
nightly = record smoke { id = codes "j2"; server = codes "staging" }

abbrev fresh : Job → ℕ → JobRow
fresh j now = record {
  job = j;
  created_at = now;
  state = queued;
  runner_id = none;
  lease_expires = none;
  attempts = 0;
  started_at = none;
  finished_at = none;
  exit_code = none;
  passed = none;
  failed = none;
  skipped = none;
  duration = none;
  summary = none;
}

abbrev taken : JobRow
taken = record (fresh smoke 1) {
  state = claimed;
  runner_id = some (codes "r1");
  lease_expires = some 130;
  attempts = 1;
}

abbrev passing : Outcome
passing = record {
  exit_code = pos 0;
  passed = pos 3;
  failed = pos 0;
  skipped = pos 0;
  duration = some (pos 9);
  summary = codes "";
}

abbrev over_row : JobRow
over_row = finished passing 20 taken

abbrev waiting : Rows
waiting = fresh smoke 1 ∷ fresh nightly 2 ∷ []

abbrev busy : Rows
busy = taken ∷ fresh nightly 2 ∷ []

abbrev ended : Rows
ended = over_row ∷ fresh nightly 2 ∷ []

abbrev rush : List Op
rush =
    enqueues nightly 5
    ∷ claims (codes "r2") [] 6
    ∷ finishes (codes "j1") (codes "r2") passing 7
    ∷ reaps 130
    ∷ []

waiting-Distinct : Distinct waiting
unfolding Text-discrete
waiting-Distinct = (refl, (refl, tt))

busy-Distinct : Distinct busy
unfolding Text-discrete
busy-Distinct = (refl, (refl, tt))

ended-Distinct : Distinct ended
unfolding Text-discrete
ended-Distinct = (refl, (refl, tt))

busy-found : job (codes "j1") busy ≡ some taken
unfolding job Text-discrete
busy-found = refl

taken-IsHeld : IsHeld (codes "r1") 130 taken
taken-IsHeld = record { holder = refl; active = refl; leased = refl }

r2-ne-r1 : codes "r2" ≢ codes "r1"
r2-ne-r1 e = ground arith

rush-IsForeign : All (IsForeign (codes "r1") 130) rush
rush-IsForeign = (tt, (omega arith, (r2-ne-r1, (omega arith, tt))))

-- A claim takes the oldest queued job, and a labelled test server takes its own.
claim_oldest : (claim (codes "r1") [] 120 2 10 waiting).1 ≡ some smoke
unfolding claim Text-discrete JobState-discrete ℕ_discrete
claim_oldest = refl

claim_labelled : (claim (codes "r1") (codes "staging" ∷ []) 120 2 10 waiting).1 ≡ some nightly
unfolding claim Text-discrete JobState-discrete ℕ_discrete
claim_labelled = refl

run-Evolves_example : Evolves 2 busy (run 120 2 busy rush)
run-Evolves_example = run-Evolves 120 2 busy rush

claim_cases_example :
    let reaped = reap 2 10 waiting in
    let result = claim (codes "r1") [] 120 2 10 waiting in
    ((result ≡ (reaped, none)) × NoneFor (wanted_of []) reaped)
    ⊎ ((c : JobRow) × (result ≡ (handed (codes "r1") (10 + 120) c reaped, some c.job))
        × IsOldest (wanted_of []) reaped c)
claim_cases_example = claim_cases (codes "r1") [] 120 2 10 waiting waiting-Distinct

run-holds_example : job (codes "j1") (run 120 2 busy rush) ≡ some taken
run-holds_example =
    run-holds (codes "j1") (codes "r1") 130 taken taken-IsHeld 120 2 busy rush rush-IsForeign
      busy-found

waiting-IsWellFormed : IsWellFormed 2 waiting
unfolding JobState-discrete
waiting-IsWellFormed = record {
  distinct = waiting-Distinct;
  consistent = (fresh-IsConsistent smoke 1, (fresh-IsConsistent nightly 2, tt));
}
  where
    fresh-IsConsistent : (j : Job) (now : ℕ) → IsConsistent 2 (fresh j now)
    fresh-IsConsistent j now = ground arith

run-IsWellFormed_example : IsWellFormed 2 (run 120 2 waiting rush)
run-IsWellFormed_example = run-IsWellFormed 120 2 waiting rush (omega arith) waiting-IsWellFormed

handouts-le_example : handouts 120 2 (codes "j1") waiting rush ≤ 2
handouts-le_example = handouts-le 120 2 (codes "j1") waiting rush (omega arith) waiting-IsWellFormed

finish_accepts_sample :
    ((finish (codes "j1") (codes "r2") passing 9 busy).1
      ≡ met_by (holds (codes "r2")) (job (codes "j1") busy))
    × ((finish (codes "j1") (codes "r2") passing 9 busy).1 ≡ false
        → (finish (codes "j1") (codes "r2") passing 9 busy).0 ≡ busy)
finish_accepts_sample = finish_accepts (codes "j1") (codes "r2") 9 busy busy-Distinct passing

busy-finish : (finish (codes "j1") (codes "r1") passing 20 busy).1 ≡ true
unfolding finish Text-discrete ℕ_discrete
busy-finish = refl

finish_once_sample :
    let rows' = run 120 2 (finish (codes "j1") (codes "r1") passing 20 busy).0 rush in
    finish (codes "j1") (codes "r2") passing 30 rows' ≡ (rows', false)
finish_once_sample =
    finish_once 120 2 (codes "j1") (codes "r1") (codes "r2") passing passing 20 30 busy rush
      busy-Distinct busy-finish

finish_records_sample :
    (r' : JobRow) × (job (codes "j1") (finish (codes "j1") (codes "r1") passing 20 busy).0
      ≡ some r')
    × (r'.state ≡ (if passing.exit_code == pos 0 then done else failed))
    × (r'.finished_at ≡ some 20)
    × (r'.exit_code ≡ some passing.exit_code)
    × (r'.summary ≡ some passing.summary)
    × (r'.runner_id ≡ some (codes "r1"))
    × (r'.lease_expires ≡ none)
finish_records_sample =
    finish_records (codes "j1") (codes "r1") 20 busy busy-Distinct passing taken busy-found
      busy-finish

mark_running_accepts_sample :
    ((mark_running (codes "j1") (codes "r1") 9 busy).1
      ≡ met_by (waits_to_start (codes "r1")) (job (codes "j1") busy))
    × ((mark_running (codes "j1") (codes "r1") 9 busy).1 ≡ false
        → (mark_running (codes "j1") (codes "r1") 9 busy).0 ≡ busy)
mark_running_accepts_sample = mark_running_accepts (codes "j1") (codes "r1") 9 busy busy-Distinct

busy-claim : (claim (codes "r2") [] 120 2 10 busy).1 ≡ some nightly
unfolding claim Text-discrete JobState-discrete ℕ_discrete
busy-claim = refl

claim_exclusive_sample : codes "j2" ≢ codes "j1"
claim_exclusive_sample =
    claim_exclusive (codes "j1") (codes "r1") 130 taken taken-IsHeld 120 2 10 busy (codes "r2") []
      nightly busy-Distinct busy-found (omega arith) busy-claim

abbrev beating : List (List Op × ℕ)
beating = (rush, 100) ∷ (claims (codes "r2") [] 200 ∷ [], 210) ∷ []

beating-IsTimely : IsTimely (codes "r1") 120 10 beating
beating-IsTimely = (rush-IsForeign, ((omega arith, tt), tt))

beats-IsHeld_example :
    (r' : JobRow) × (lease : ℕ) × (job (codes "j1") (run 120 2 busy (beats (codes "r1") beating))
      ≡ some r')
    × IsHeld (codes "r1") lease r'
    × (r'.attempts ≡ 1)
beats-IsHeld_example =
    beats-IsHeld 120 2 10 (codes "j1") (codes "r1") busy beating taken beating-IsTimely taken-IsHeld
      busy-found

ended-found : job (codes "j1") ended ≡ some over_row
unfolding job Text-discrete
ended-found = refl

job-run_final_example : job (codes "j1") (run 120 2 ended rush) ≡ some over_row
job-run_final_example = job-run_final 120 2 (codes "j1") ended rush over_row ended-found final
  where
    final : is_final over_row.state ≡ true
    final = unfold ℤ-discrete in refl

enqueue_again_sample :
    let rows' = run 120 2 (enqueue smoke 1 []).0 rush in enqueue smoke 50 rows' ≡ (rows', false)
enqueue_again_sample = enqueue_again 120 2 smoke smoke 1 50 [] rush refl

job-reap_sample : job (codes "j1") (reap 2 131 busy) ≡ some (reaped_row 2 131 taken)
job-reap_sample = job-reap (codes "j1") 2 131 busy taken busy-found

last_for-IsNewest_sample :
    ((last_for (codes "webapp") waiting ≡ none) × All (λ s. s.product ≢ codes "webapp") waiting)
    ⊎ ((r : JobRow) × (last_for (codes "webapp") waiting ≡ some r)
        × IsNewest (codes "webapp") waiting r)
last_for-IsNewest_sample = last_for-IsNewest (codes "webapp") waiting waiting-Distinct

recent_newest_sample :
    (rest : Rows) × Perm waiting (recent 1 waiting ++ rest)
    × (length (recent 1 waiting) ≤ 1)
    × IsSorted newest_first (recent 1 waiting)
    × All (λ r. All (λ s. s.created_at ≤ r.created_at) rest) (recent 1 waiting)
recent_newest_sample = recent_newest 1 waiting

count_of-counts_sample :
    count_of queued (counts waiting) ≡ count_if (λ r. r.state == queued) waiting
count_of-counts_sample = count_of-counts waiting queued

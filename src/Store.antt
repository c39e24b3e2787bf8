-- ===== src/Store.antt =====
-- edge/edge_server/store.py: the job queue. Each method is a function of the rows of the table
-- `jobs`, in the order of insertion, and returns the rows that it leaves beside its result.
pub mod Rows
mod Updates
pub mod History
pub mod Lifecycle
pub mod Refines
pub mod Final
pub mod Found
pub mod Timed
pub mod Jobs
pub mod Consistent
mod Order
pub mod Claiming
pub mod Leases
pub mod Ownership
pub mod Attempts
pub mod Heartbeats
pub mod Queries
pub mod Runners
pub mod Registry
mod Tests
mod RegistryTests
use slack_runtests.Prelude.{
  Bool, List, Option, Text, [], any, codes, contains, count_if, false, if◌then◌else◌, is_empty,
  keep_if, leb, ltb, none, not, pos, some, take, true, ℕ, ℤ, ◌&&◌, ◌++◌, ◌+◌, ◌==◌, ◌∷◌, text_eq,
  option_eq, int_eq, nat_eq,
}
use Rows.{
  Job, JobRow, JobState, Outcome, abandoned, claimed, done, failed, is_active, is_before, is_text,
  queued, running, update_where, state_eq,
}

abbrev pub Rows : Type 0
Rows = List JobRow

-- `ORDER BY`: a stable sort by a comparison, so that rows with one time keep their order.
pub insert_by : (JobRow → JobRow → Bool) → JobRow → Rows → Rows
insert_by before r [] = r ∷ []
insert_by before r (s ∷ rows) = if before r s then r ∷ s ∷ rows else s ∷ insert_by before r rows

pub order_by : (JobRow → JobRow → Bool) → Rows → Rows
unfolding insert_by
order_by before [] = []
order_by before (r ∷ rows) = insert_by before r (order_by before rows)

-- `created_at ASC` and `created_at DESC`
abbrev pub oldest_first : JobRow → JobRow → Bool
oldest_first r s = leb r.created_at s.created_at

abbrev pub newest_first : JobRow → JobRow → Bool
newest_first r s = leb s.created_at r.created_at

-- `fetchone()`
abbrev pub first : Rows → Option JobRow
first [] = none
first (r ∷ rows) = some r

-- The row that `enqueue` inserts.
pub new_row : Job → ℕ → JobRow
new_row job now = record {
  job = job;
  created_at = now;
  state = queued;
  runner_id = none;
  lease_expires = none;
  attempts = 0;
  started_at = none;
  finished_at = none;
  exit_code = none;
  passed = none;
  failed = none;
  skipped = none;
  duration = none;
  summary = none;
}

abbrev pub has_id : Text → JobRow → Bool
has_id id r = r.id == id

-- `INSERT OR IGNORE`: the primary key refuses an id that is there.
unfoldable pub enqueue : Job → ℕ → Rows → Rows × Bool
unfolding new_row
enqueue job now rows =
    if any (has_id job.id) rows then (rows, false) else (rows ++ new_row job now ∷ [], true)

-- The two statements of `_reap`.
abbrev pub is_expired : ℕ → JobRow → Bool
is_expired now r = is_active r.state && is_before r.lease_expires now

abbrev pub requeued : JobRow → JobRow
requeued r = record r { state = queued; runner_id = none; lease_expires = none }

abbrev pub given_up : JobRow → JobRow
given_up r = record r {
  state = abandoned;
  lease_expires = none;
  summary = some (codes "lease expired and out of attempts");
}

unfoldable pub reap : ℕ → ℕ → Rows → Rows
reap max_attempts now rows =
    update_where (λ r. is_expired now r && leb max_attempts r.attempts) given_up
      (update_where (λ r. is_expired now r && ltb r.attempts max_attempts) requeued rows)

-- The WHERE clause of the UPDATE in `claim`, and its SET.
abbrev pub is_queued : Text → JobRow → Bool
is_queued id r = r.id == id && r.state == queued

abbrev pub handed_to : Text → ℕ → JobRow → JobRow
handed_to runner_id lease r = record r {
  state = claimed;
  runner_id = some runner_id;
  lease_expires = some lease;
  attempts = r.attempts + 1;
}

-- `{x for x in labels if x}`
abbrev pub wanted_of : List Text → List Text
wanted_of = keep_if (λ x. not (is_empty x))

-- `wanted and row["server"] not in wanted`
pub is_skipped : List Text → JobRow → Bool
is_skipped wanted r = not (is_empty wanted) && not (contains wanted r.server)

-- The Job that `claim` returns: the columns of the request alone.
abbrev pub job_of : JobRow → Job
job_of r = r.job

-- The loop of `claim` over the queued rows. Each UPDATE is committed if it changed one row.
pub claim_loop : Text → List Text → ℕ → Rows → Rows → Rows × Option Job
unfolding is_skipped
claim_loop runner_id wanted lease [] rows = (rows, none)
claim_loop runner_id wanted lease (r ∷ rest) rows =
    let rows' = update_where (is_queued r.id) (handed_to runner_id lease) rows in
    let skip = claim_loop runner_id wanted lease rest rows in
    let next = claim_loop runner_id wanted lease rest rows' in
    if is_skipped wanted r
    then skip
    else if count_if (is_queued r.id) rows == 1
    then (rows', some (job_of r))
    else next

unfoldable pub claim : Text → List Text → ℕ → ℕ → ℕ → Rows → Rows × Option Job
unfolding claim_loop reap order_by
claim runner_id labels lease_seconds max_attempts now rows =
    let reaped = reap max_attempts now rows in
    claim_loop runner_id (wanted_of labels) (now + lease_seconds)
      (order_by oldest_first (keep_if (λ r. r.state == queued) reaped)) reaped

abbrev pub is_claimed_by : Text → Text → JobRow → Bool
is_claimed_by job_id runner_id r =
    r.id == job_id && (is_text r.runner_id runner_id && r.state == claimed)

-- `rowcount == 1` of the UPDATE, and the rows after it.
unfoldable pub mark_running : Text → Text → ℕ → Rows → Rows × Bool
mark_running job_id runner_id now rows = (
  update_where (is_claimed_by job_id runner_id)
      (λ r. record r { state = running; started_at = some now }) rows,
  count_if (is_claimed_by job_id runner_id) rows == 1,
)

abbrev pub is_active_of : Text → Text → JobRow → Bool
is_active_of job_id runner_id r =
    r.id == job_id && (is_text r.runner_id runner_id && is_active r.state)

-- `DONE if exit_code == 0 else FAILED`
abbrev pub verdict : ℤ → JobState
verdict exit_code = if exit_code == pos 0 then done else failed

abbrev pub finished : Outcome → ℕ → JobRow → JobRow
finished o now r = record r {
  state = verdict o.exit_code;
  lease_expires = none;
  finished_at = some now;
  exit_code = some o.exit_code;
  passed = some o.passed;
  failed = some o.failed;
  skipped = some o.skipped;
  duration = o.duration;
  summary = some o.summary;
}

-- `finish`, for an outcome that SQLite can store.
unfoldable pub finish : Text → Text → Outcome → ℕ → Rows → Rows × Bool
finish job_id runner_id o now rows = (
  update_where (is_active_of job_id runner_id) (finished o now) rows,
  count_if (is_active_of job_id runner_id) rows == 1,
)

abbrev pub is_held_by : Text → JobRow → Bool
is_held_by runner_id r = is_text r.runner_id runner_id && is_active r.state

unfoldable pub renew : Text → ℕ → ℕ → Rows → Rows × ℕ
renew runner_id lease_seconds now rows = (
  update_where (is_held_by runner_id) (λ r. record r { lease_expires = some (now + lease_seconds) })
      rows,
  count_if (is_held_by runner_id) rows,
)

unfoldable pub job : Text → Rows → Option JobRow
job job_id rows = first (keep_if (has_id job_id) rows)

unfoldable pub recent : ℕ → Rows → Rows
unfolding order_by
recent limit rows = take limit (order_by newest_first rows)

unfoldable pub last_for : Text → Rows → Option JobRow
unfolding order_by
last_for product rows =
    first (take 1 (order_by newest_first (keep_if (λ r. r.product == product) rows)))

-- `SELECT state, COUNT(*) … GROUP BY state`: a state that no row has is absent.
pub count_state : Rows → JobState → List (JobState × ℕ)
count_state rows s = let n = count_if (λ r. r.state == s) rows in if n == 0 then [] else (s, n) ∷ []

unfoldable pub counts : Rows → List (JobState × ℕ)
unfolding count_state
counts rows =
    count_state rows queued
    ++ count_state rows claimed
    ++ count_state rows running
    ++ count_state rows done
    ++ count_state rows failed
    ++ count_state rows abandoned

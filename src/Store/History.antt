-- ===== src/Store/History.antt =====
-- The calls that handlers make on the store, and a history of them in any order: every test
-- server and the Slack door write to one table, one transaction at a time.
use slack_runtests.Prelude.{List, Text, [], ℕ, ◌∷◌}
use slack_runtests.Store.Rows.{Job, Outcome}
use slack_runtests.Store.{Rows, claim, enqueue, finish, mark_running, reap, renew}

pub data Op : Type 0 where
  enqueues : Job → ℕ → Op
  claims : Text → List Text → ℕ → Op
  starts : Text → Text → ℕ → Op
  finishes : Text → Text → Outcome → ℕ → Op
  renews : Text → ℕ → Op
  reaps : ℕ → Op

-- The configuration of the edge server fixes the lease and the cap on attempts.
module _ (lease_seconds max_attempts : ℕ) where
  unfoldable pub step : Rows → Op → Rows
  step rows (enqueues j now) = (enqueue j now rows).0
  step rows (claims runner_id labels now) =
      (claim runner_id labels lease_seconds max_attempts now rows).0
  step rows (starts job_id runner_id now) = (mark_running job_id runner_id now rows).0
  step rows (finishes job_id runner_id o now) = (finish job_id runner_id o now rows).0
  step rows (renews runner_id now) = (renew runner_id lease_seconds now rows).0
  step rows (reaps now) = reap max_attempts now rows

  unfoldable pub run : Rows → List Op → Rows
  unfolding step
  run rows [] = rows
  run rows (op ∷ ops) = run (step rows op) ops

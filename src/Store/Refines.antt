-- ===== src/Store/Refines.antt =====
-- Every method of the store is, on each row, a sequence of legal moves.
use slack_runtests.Prelude.{
  Bool-cases, List, Text, [], any, arith, count_if, inl, inr, some, take, ℕ, ◌+◌, ◌==◌, ◌∷◌, ◌≡◌,
  int_eq, nat_eq, text_eq,
}
use slack_runtests.Store.Rows.{Job, JobRow, Outcome, state_eq}
use slack_runtests.Store.{
  Rows, claim, claim_loop, enqueue, finish, given_up, handed_to, has_id, is_queued, is_skipped, job,
  mark_running, reap, renew, requeued,
}
use slack_runtests.Store.History.{Op, claims, enqueues, finishes, reaps, renews, run, starts, step}
use slack_runtests.Store.Lifecycle.{
  Evolves, Evolves-refl, Evolves-trans, Moves, abandon, extend, hand, job-Evolves, requeue, settle,
  snoc-Evolves, start, update-Evolves,
}

module _ (max_attempts : ℕ) where
  enqueue-Evolves :
      (j : Job) (now : ℕ) (rows : Rows) → Evolves max_attempts rows (enqueue j now rows).0
  enqueue-Evolves j now rows = elim (Bool-cases (any (has_id j.id) rows)) [
    | inl old ↦ unfold enqueue in rw old (Evolves-refl max_attempts rows)
    | inr new ↦ unfold enqueue in rw new (snoc-Evolves max_attempts j now rows)
  ]

  pub reap-Evolves :
      (now : ℕ) (rows : Rows) → Evolves max_attempts rows (reap max_attempts now rows)
  unfolding reap
  reap-Evolves now rows =
      Evolves-trans max_attempts rows _ _
        (update-Evolves max_attempts _ requeued (λ r h. requeue (ground arith) (ground arith)) rows)
        (update-Evolves max_attempts _ given_up (λ r h. abandon (ground arith) (ground arith)) _)

  claim_loop-Evolves :
      (runner_id : Text) (wanted : List Text) (lease : ℕ) (cands rows : Rows)
      → Evolves max_attempts rows (claim_loop runner_id wanted lease cands rows).0
  unfolding claim_loop
  claim_loop-Evolves runner_id wanted lease [] rows = Evolves-refl max_attempts rows
  claim_loop-Evolves runner_id wanted lease (c ∷ cands) rows =
      let handed =
        update-Evolves max_attempts (is_queued c.id) (handed_to runner_id lease)
          (λ r h. hand runner_id lease (ground arith)) rows in
      elim (Bool-cases (is_skipped wanted c)) [
        | inl skip ↦ rw skip (claim_loop-Evolves runner_id wanted lease cands rows)
        | inr take ↦ rw take (elim (Bool-cases (count_if (is_queued c.id) rows == 1)) [
          | inl one ↦ rw one handed
          | inr other ↦ rw other (
              Evolves-trans max_attempts rows _ _ handed
                (claim_loop-Evolves runner_id wanted lease cands _))
        ])
      ]

  claim-Evolves :
      (runner_id : Text) (labels : List Text) (lease_seconds now : ℕ) (rows : Rows)
      → Evolves max_attempts rows (claim runner_id labels lease_seconds max_attempts now rows).0
  unfolding claim
  claim-Evolves runner_id labels lease_seconds now rows =
      Evolves-trans max_attempts rows _ _ (reap-Evolves now rows)
        (claim_loop-Evolves runner_id _ _ _ _)

  mark_running-Evolves :
      (job_id runner_id : Text) (now : ℕ) (rows : Rows)
      → Evolves max_attempts rows (mark_running job_id runner_id now rows).0
  unfolding mark_running
  mark_running-Evolves job_id runner_id now rows =
      update-Evolves max_attempts _ _ (λ r h. start now (ground arith)) rows

  finish-Evolves :
      (job_id runner_id : Text) (o : Outcome) (now : ℕ) (rows : Rows)
      → Evolves max_attempts rows (finish job_id runner_id o now rows).0
  unfolding finish
  finish-Evolves job_id runner_id o now rows =
      update-Evolves max_attempts _ _ (λ r h. settle o now (ground arith)) rows

  renew-Evolves :
      (runner_id : Text) (lease_seconds now : ℕ) (rows : Rows)
      → Evolves max_attempts rows (renew runner_id lease_seconds now rows).0
  unfolding renew
  renew-Evolves runner_id lease_seconds now rows =
      update-Evolves max_attempts _ _ (λ r h. extend (now + lease_seconds) (ground arith)) rows

module _ (lease_seconds max_attempts : ℕ) where
  pub step-Evolves :
      (rows : Rows) (op : Op) → Evolves max_attempts rows (step lease_seconds max_attempts rows op)
  unfolding step
  step-Evolves rows (enqueues j now) = enqueue-Evolves max_attempts j now rows
  step-Evolves rows (claims runner_id labels now) =
      claim-Evolves max_attempts runner_id labels lease_seconds now rows
  step-Evolves rows (starts job_id runner_id now) =
      mark_running-Evolves max_attempts job_id runner_id now rows
  step-Evolves rows (finishes job_id runner_id o now) =
      finish-Evolves max_attempts job_id runner_id o now rows
  step-Evolves rows (renews runner_id now) =
      renew-Evolves max_attempts runner_id lease_seconds now rows
  step-Evolves rows (reaps now) = reap-Evolves max_attempts now rows

  -- Whatever calls are made, in any order and by any test servers, with any clocks: every row
  -- stays where it is and changes by legal moves alone, and every row that is added is a queued
  -- one that changed by legal moves alone.
  pub run-Evolves :
      (rows : Rows) (ops : List Op)
      → Evolves max_attempts rows (run lease_seconds max_attempts rows ops)
  unfolding run
  run-Evolves rows [] = Evolves-refl max_attempts rows
  run-Evolves rows (op ∷ ops) =
      Evolves-trans max_attempts rows _ _ (step-Evolves rows op)
        (run-Evolves (step lease_seconds max_attempts rows op) ops)

  -- So the row that an id finds is still found after any history, at the end of a sequence of
  -- legal moves.
  pub job-run :
      (k : Text) (rows : Rows) (ops : List Op) (r : JobRow)
      → job k rows ≡ some r
      → (r' : JobRow) × (job k (run lease_seconds max_attempts rows ops) ≡ some r')
        × Moves max_attempts r r'
  job-run k rows ops r e = job-Evolves max_attempts k rows _ r (run-Evolves rows ops) e

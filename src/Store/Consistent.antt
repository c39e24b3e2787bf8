-- ===== src/Store/Consistent.antt =====
-- The well-formedness of the table: distinct ids, and the columns of each row agree.
use slack_runtests.Prelude.{
  All, Bool, List, Option-cases, Text, [], ap, arith, false, inl, inr, is_some, not, pos, refl,
  some, true, ℕ, ◌<◌, ◌==◌, ◌∙◌, ◌∷◌, ◌≡◌, ◌≢◌, ◌≤◌, int_eq, nat_eq, option_eq, text_eq,
}
use slack_runtests.Store.Rows.{
  Job, JobRow, JobState, done, failed, is_active, queued, update_where, state_eq,
}
use slack_runtests.Store.{
  Rows, claim, claim_loop, enqueue, finish, given_up, handed_to, is_queued, job, mark_running,
  new_row, reap, renew, requeued,
}
use slack_runtests.Store.Updates.{
  Distinct, Distinct-map, Distinct-snoc, enqueue_new, enqueue_old, job-none_iff,
}
use slack_runtests.Store.History.{Op, claims, enqueues, finishes, reaps, renews, run, starts, step}
use slack_runtests.Store.Lifecycle.{
  Evolves, Move, Moves, abandon, extend, hand, requeue, settle, start, stay, then_move,
}
use slack_runtests.Store.Refines.{run-Evolves}

abbrev pub is_settled : JobState → Bool
is_settled done = true
is_settled failed = true
is_settled _ = false

-- The columns of one row agree with its state.
pub record IsConsistent (max_attempts : ℕ) (r : JobRow) : Type 0 where
  pub owned : is_some r.runner_id ≡ not (r.state == queued)
  pub leased : is_some r.lease_expires ≡ is_active r.state
  pub ended : is_some r.finished_at ≡ is_settled r.state
  pub scored : (r.exit_code == some (pos 0)) ≡ (r.state == done)
  pub tried : r.state ≢ queued → 0 < r.attempts
  pub open_for : r.state ≡ queued → r.attempts < max_attempts
  pub capped : r.attempts ≤ max_attempts

pub record IsWellFormed (max_attempts : ℕ) (rows : Rows) : Type 0 where
  pub distinct : Distinct rows
  pub consistent : All (IsConsistent max_attempts) rows

new_row-IsConsistent :
    (max_attempts : ℕ) (j : Job) (now : ℕ)
    → 0 < max_attempts
    → IsConsistent max_attempts (new_row j now)
unfolding new_row
new_row-IsConsistent max_attempts j now h = ground arith

Move-IsConsistent :
    {max_attempts : ℕ} {r s : JobRow}
    → Move max_attempts r s
    → IsConsistent max_attempts r
    → IsConsistent max_attempts s
Move-IsConsistent (hand runner_id lease q) c = ground (arith, c.open_for)
Move-IsConsistent (start now q) c = ground (arith, c.tried)
Move-IsConsistent (settle o now q) c = ground (arith, c.tried)
Move-IsConsistent (extend lease q) c = ground (arith, c.tried)
Move-IsConsistent (requeue q h) c = ground (arith, c.tried)
Move-IsConsistent (abandon q h) c = ground (arith, c.tried)

Moves-IsConsistent :
    {max_attempts : ℕ} {r s : JobRow}
    → Moves max_attempts r s
    → IsConsistent max_attempts r
    → IsConsistent max_attempts s
Moves-IsConsistent stay c = c
Moves-IsConsistent (then_move p m) c = Move-IsConsistent m (Moves-IsConsistent p c)

Evolves-All :
    (max_attempts : ℕ) (xs ys : Rows)
    → 0 < max_attempts
    → Evolves max_attempts xs ys
    → All (IsConsistent max_attempts) xs
    → All (IsConsistent max_attempts) ys
Evolves-All max_attempts [] [] pos_max h c = tt
Evolves-All max_attempts [] (y ∷ ys) pos_max h c =
    let ((j, now, m), rest) = h in
    (
      Moves-IsConsistent m (new_row-IsConsistent max_attempts j now pos_max),
      Evolves-All max_attempts [] ys pos_max rest c,
    )
Evolves-All max_attempts (x ∷ xs) [] pos_max h c = absurd h
Evolves-All max_attempts (x ∷ xs) (y ∷ ys) pos_max h c =
    (Moves-IsConsistent h.0 c.0, Evolves-All max_attempts xs ys pos_max h.1 c.1)

-- An UPDATE that keeps the ids keeps them distinct.
update-Distinct :
    (p : JobRow → Bool) (f : JobRow → JobRow) (rows : Rows)
    → ((r : JobRow) → (f r).id ≡ r.id)
    → Distinct rows
    → Distinct (update_where p f rows)
update-Distinct p f rows same d = Distinct-map _ rows (λ r. ground (arith, same r)) d

enqueue-Distinct :
    (j : Job) (now : ℕ) (rows : Rows) → Distinct rows → Distinct (enqueue j now rows).0
enqueue-Distinct j now rows d = elim (Option-cases (job j.id rows)) [
  | inl new ↦ rw (enqueue_new j now rows new) (
      Distinct-snoc (new_row j now) rows (unfold new_row in job-none_iff j.id rows ∙ ap is_some new)
        d)
  | inr (r, old) ↦ rw (enqueue_old j now rows r old) d
]

pub reap-Distinct :
    (max_attempts now : ℕ) (rows : Rows) → Distinct rows → Distinct (reap max_attempts now rows)
unfolding reap
reap-Distinct max_attempts now rows d =
    update-Distinct _ given_up _ (λ r. refl) (update-Distinct _ requeued rows (λ r. refl) d)

claim_loop-Distinct :
    (runner_id : Text) (wanted : List Text) (lease : ℕ) (cands rows : Rows)
    → Distinct rows
    → Distinct (claim_loop runner_id wanted lease cands rows).0
unfolding claim_loop
claim_loop-Distinct runner_id wanted lease [] rows d = d
claim_loop-Distinct runner_id wanted lease (c ∷ cands) rows d =
    let handed = update-Distinct (is_queued c.id) (handed_to runner_id lease) rows (λ r. refl) d in
    ground (
      arith,
      handed,
      claim_loop-Distinct runner_id wanted lease cands rows d,
      claim_loop-Distinct runner_id wanted lease cands
          (update_where (is_queued c.id) (handed_to runner_id lease) rows) handed,
    )

module _ (lease_seconds max_attempts : ℕ) where
  pub step-Distinct :
      (rows : Rows) (op : Op) → Distinct rows → Distinct (step lease_seconds max_attempts rows op)
  unfolding step claim mark_running finish renew
  step-Distinct rows (enqueues j now) d = enqueue-Distinct j now rows d
  step-Distinct rows (claims runner_id labels now) d =
      claim_loop-Distinct runner_id _ _ _ _ (reap-Distinct max_attempts now rows d)
  step-Distinct rows (starts job_id runner_id now) d = update-Distinct _ _ rows (λ r. refl) d
  step-Distinct rows (finishes job_id runner_id o now) d = update-Distinct _ _ rows (λ r. refl) d
  step-Distinct rows (renews runner_id now) d = update-Distinct _ _ rows (λ r. refl) d
  step-Distinct rows (reaps now) d = reap-Distinct max_attempts now rows d

  pub run-Distinct :
      (rows : Rows) (ops : List Op)
      → Distinct rows
      → Distinct (run lease_seconds max_attempts rows ops)
  unfolding run
  run-Distinct rows [] d = d
  run-Distinct rows (op ∷ ops) d =
      run-Distinct (step lease_seconds max_attempts rows op) ops (step-Distinct rows op d)

  -- If the cap on attempts is positive, then every history of calls keeps the table well-formed:
  -- ids are distinct; a row has a holder exactly if it is not queued, a lease exactly while it is
  -- claimed or running, an end time exactly if it has a result, and the exit code 0 exactly if it
  -- is done; a row that is not queued was tried; and no row is tried more often than the cap.
  pub run-IsWellFormed :
      (rows : Rows) (ops : List Op)
      → 0 < max_attempts
      → IsWellFormed max_attempts rows
      → IsWellFormed max_attempts (run lease_seconds max_attempts rows ops)
  run-IsWellFormed rows ops pos_max w = record {
    distinct = run-Distinct rows ops w.distinct;
    consistent =
        Evolves-All max_attempts rows _ pos_max (run-Evolves lease_seconds max_attempts rows ops)
          w.consistent;
  }

-- ===== src/Store/Timed.antt =====
-- store.py: the columns `finished_at` and `duration`. SQLite stores a duration that is NaN as NULL.
use slack_runtests.Prelude.{
  All, All-append, Bool, Bool-cases, List, Option-cases, Text, [], count_if, inl, inr, is_some,
  some, true, ℕ, ◌+◌, ◌==◌, ◌∷◌, ◌≡◌, text_eq, nat_eq, option_eq, int_eq,
}
use slack_runtests.Store.{
  Rows, claim, claim_loop, enqueue, finish, finished, given_up, handed_to, is_claimed_by,
  is_held_by, is_queued, is_skipped, job, mark_running, new_row, reap, renew, requeued,
}
use slack_runtests.Store.Rows.{Job, JobRow, running, update_where}
use slack_runtests.Store.Updates.{enqueue_new, enqueue_old}
use slack_runtests.Store.History.{Op, claims, enqueues, finishes, reaps, renews, run, starts, step}

-- A row that has an end time has a duration.
abbrev pub IsTimed : JobRow → Type 0
IsTimed r = is_some r.finished_at ≡ true → is_some r.duration ≡ true

-- No NaN is recorded as a duration.
abbrev pub HasDuration : Op → Type 0
HasDuration (enqueues j now) = Unit
HasDuration (claims runner_id labels now) = Unit
HasDuration (starts job_id runner_id now) = Unit
HasDuration (finishes job_id runner_id o now) = is_some o.duration ≡ true
HasDuration (renews runner_id now) = Unit
HasDuration (reaps now) = Unit

update-AreTimed :
    (p : JobRow → Bool) (f : JobRow → JobRow) (rows : Rows)
    → ((r : JobRow) → IsTimed r → IsTimed (f r))
    → All IsTimed rows
    → All IsTimed (update_where p f rows)
update-AreTimed p f [] keeps h = tt
update-AreTimed p f (r ∷ rows) keeps h = (
  elim (Bool-cases (p r)) [ inl hit ↦ rw hit (keeps r h.0) | inr miss ↦ rw miss h.0 ],
  update-AreTimed p f rows keeps h.1,
)

enqueue-AreTimed :
    (j : Job) (now : ℕ) (rows : Rows) → All IsTimed rows → All IsTimed (enqueue j now rows).0
enqueue-AreTimed j now rows h = elim (Option-cases (job j.id rows)) [
  | inl new ↦
      rw (enqueue_new j now rows new)
        (All-append IsTimed rows (new_row j now ∷ []) h (unfold new_row in (λ e. cc, tt)))
  | inr (r, old) ↦ rw (enqueue_old j now rows r old) h
]

reap-AreTimed :
    (max_attempts now : ℕ) (rows : Rows)
    → All IsTimed rows
    → All IsTimed (reap max_attempts now rows)
unfolding reap
reap-AreTimed max_attempts now rows h =
    update-AreTimed _ given_up _ (λ r t. t) (update-AreTimed _ requeued rows (λ r t. t) h)

handed-AreTimed :
    (p : JobRow → Bool) (runner_id : Text) (lease : ℕ) (rows : Rows)
    → All IsTimed rows
    → All IsTimed (update_where p (handed_to runner_id lease) rows)
handed-AreTimed p runner_id lease rows h = update-AreTimed p _ rows (λ r t. t) h

claim_loop-AreTimed :
    (runner_id : Text) (wanted : List Text) (lease : ℕ) (cands rows : Rows)
    → All IsTimed rows
    → All IsTimed (claim_loop runner_id wanted lease cands rows).0
unfolding claim_loop
claim_loop-AreTimed runner_id wanted lease [] rows h = h
claim_loop-AreTimed runner_id wanted lease (c ∷ cands) rows h =
    let h' = handed-AreTimed (is_queued c.id) runner_id lease rows h in
    elim (Bool-cases (is_skipped wanted c)) [
      | inl skip ↦ rw skip (claim_loop-AreTimed runner_id wanted lease cands rows h)
      | inr fits ↦ elim (Bool-cases (count_if (is_queued c.id) rows == 1)) [
        | inl one ↦ rw (fits, one) h'
        | inr none_left ↦
            rw (fits, none_left) (claim_loop-AreTimed runner_id wanted lease cands _ h')
      ]
    ]

module _ (lease_seconds max_attempts : ℕ) where
  step-AreTimed :
      (rows : Rows) (op : Op)
      → HasDuration op
      → All IsTimed rows
      → All IsTimed (step lease_seconds max_attempts rows op)
  unfolding step claim mark_running finish renew
  step-AreTimed rows (enqueues j now) p h = enqueue-AreTimed j now rows h
  step-AreTimed rows (claims runner_id labels now) p h =
      claim_loop-AreTimed runner_id _ _ _ _ (reap-AreTimed max_attempts now rows h)
  step-AreTimed rows (starts job_id runner_id now) p h =
      update-AreTimed (is_claimed_by job_id runner_id)
        (λ r. record r { state = running; started_at = some now }) rows (λ r t. t) h
  step-AreTimed rows (finishes job_id runner_id o now) p h =
      update-AreTimed _ (finished o now) rows (λ r t e. p) h
  step-AreTimed rows (renews runner_id now) p h =
      update-AreTimed (is_held_by runner_id)
        (λ r. record r { lease_expires = some (now + lease_seconds) }) rows (λ r t. t) h
  step-AreTimed rows (reaps now) p h = reap-AreTimed max_attempts now rows h

  pub run-AreTimed :
      (rows : Rows) (ops : List Op)
      → All HasDuration ops
      → All IsTimed rows
      → All IsTimed (run lease_seconds max_attempts rows ops)
  unfolding run
  run-AreTimed rows [] p h = h
  run-AreTimed rows (op ∷ ops) p h =
      run-AreTimed (step lease_seconds max_attempts rows op) ops p.1 (step-AreTimed rows op p.0 h)

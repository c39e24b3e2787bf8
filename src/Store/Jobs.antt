-- ===== src/Store/Jobs.antt =====
-- What was asked for: the columns of a job that no call changes.
use slack_runtests.Store.Order.{order_by-All, keep_if-All}
use slack_runtests.Prelude.{
  All, All-append, Bool, Bool-cases, List, Option, Option-cases, Text, [], count_if, inl, inr,
  keep_if, none, refl, some, subst, sym, ℕ, ◌+◌, ◌==◌, ◌∷◌, ◌≡◌, text_eq, option_eq, int_eq, nat_eq,
}
use slack_runtests.Store.{
  Rows, claim, claim_loop, enqueue, finish, given_up, handed_to, is_queued, is_skipped, job,
  mark_running, new_row, oldest_first, reap, renew, requeued, wanted_of,
}
use slack_runtests.Store.Rows.{Job, JobRow, queued, update_where, state_eq}
use slack_runtests.Store.Updates.{enqueue_new, enqueue_old}
use slack_runtests.Store.History.{Op, claims, enqueues, finishes, reaps, renews, run, starts, step}

-- A property of every job of the table.
abbrev pub AllJobs : (Job → Type 0) → Rows → Type 0
AllJobs P = All (λ r. P r.job)

module _ (P : Job → Type 0) where
  update-AllJobs :
      (p : JobRow → Bool) (f : JobRow → JobRow) (rows : Rows)
      → ((r : JobRow) → (f r).job ≡ r.job)
      → AllJobs P rows
      → AllJobs P (update_where p f rows)
  update-AllJobs p f [] same h = tt
  update-AllJobs p f (r ∷ rows) same h = (
    elim (Bool-cases (p r)) [
      | inl hit ↦ rw hit (subst P (sym (same r)) h.0)
      | inr miss ↦ rw miss h.0
    ],
    update-AllJobs p f rows same h.1,
  )

  pub enqueue-AllJobs :
      (j : Job) (now : ℕ) (rows : Rows) → P j → AllJobs P rows → AllJobs P (enqueue j now rows).0
  enqueue-AllJobs j now rows p h = elim (Option-cases (job j.id rows)) [
    | inl new ↦
        rw (enqueue_new j now rows new)
          (All-append (λ r. P r.job) rows (new_row j now ∷ []) h (unfold new_row in (p, tt)))
    | inr (r, old) ↦ rw (enqueue_old j now rows r old) h
  ]

  reap-AllJobs :
      (max_attempts now : ℕ) (rows : Rows) → AllJobs P rows → AllJobs P (reap max_attempts now rows)
  unfolding reap
  reap-AllJobs max_attempts now rows h =
      update-AllJobs _ given_up _ (λ r. refl) (update-AllJobs _ requeued rows (λ r. refl) h)

  abbrev IsHanded : Option Job → Type 0
  IsHanded none = Unit
  IsHanded (some j) = P j

  -- What a claim hands out is the job of a row; and the jobs stay.
  claim_loop-AllJobs :
      (runner_id : Text) (wanted : List Text) (lease : ℕ) (cands rows : Rows)
      → AllJobs P cands
      → AllJobs P rows
      → AllJobs P (claim_loop runner_id wanted lease cands rows).0
        × ((j : Job) → (claim_loop runner_id wanted lease cands rows).1 ≡ some j → P j)
  unfolding claim_loop
  claim_loop-AllJobs runner_id wanted lease [] rows hc h = (h, λ j e. cc)
  claim_loop-AllJobs runner_id wanted lease (c ∷ cands) rows hc h =
      let h' = update-AllJobs (is_queued c.id) (handed_to runner_id lease) rows (λ r. refl) h in
      elim (Bool-cases (is_skipped wanted c)) [
        | inl skip ↦ rw skip (claim_loop-AllJobs runner_id wanted lease cands rows hc.1 h)
        | inr fits ↦ elim (Bool-cases (count_if (is_queued c.id) rows == 1)) [
          | inl one ↦ rw (fits, one) (h', λ j e. subst IsHanded e hc.0)
          | inr none_left ↦
              rw (fits, none_left)
                (claim_loop-AllJobs runner_id wanted lease cands
                  (update_where (is_queued c.id) (handed_to runner_id lease) rows) hc.1 h')
        ]
      ]

  pub claim-AllJobs :
      (runner_id : Text) (labels : List Text) (lease_seconds max_attempts now : ℕ) (rows : Rows)
      → AllJobs P rows
      → AllJobs P (claim runner_id labels lease_seconds max_attempts now rows).0
        × ((j : Job)
            → (claim runner_id labels lease_seconds max_attempts now rows).1 ≡ some j
            → P j)
  unfolding claim
  claim-AllJobs runner_id labels lease_seconds max_attempts now rows h =
      let reaped = reap max_attempts now rows in
      let h' = reap-AllJobs max_attempts now rows h in
      claim_loop-AllJobs runner_id (wanted_of labels) (now + lease_seconds) _ reaped
        (order_by-All (λ r. P r.job) oldest_first (keep_if (λ r. r.state == queued) reaped)
          (keep_if-All (λ r. P r.job) (λ r. r.state == queued) reaped h'))
        h'

  -- A call puts no job in the table that lacks the property.
  abbrev pub IsFit : Op → Type 0
  IsFit (enqueues j now) = P j
  IsFit (claims runner_id labels now) = Unit
  IsFit (starts job_id runner_id now) = Unit
  IsFit (finishes job_id runner_id o now) = Unit
  IsFit (renews runner_id now) = Unit
  IsFit (reaps now) = Unit

  step-AllJobs :
      (lease_seconds max_attempts : ℕ) (rows : Rows) (op : Op)
      → IsFit op
      → AllJobs P rows
      → AllJobs P (step lease_seconds max_attempts rows op)
  unfolding step mark_running finish renew
  step-AllJobs lease_seconds max_attempts rows (enqueues j now) p h = enqueue-AllJobs j now rows p h
  step-AllJobs lease_seconds max_attempts rows (claims runner_id labels now) p h =
      (claim-AllJobs runner_id labels lease_seconds max_attempts now rows h).0
  step-AllJobs lease_seconds max_attempts rows (starts job_id runner_id now) p h =
      update-AllJobs _ _ rows (λ r. refl) h
  step-AllJobs lease_seconds max_attempts rows (finishes job_id runner_id o now) p h =
      update-AllJobs _ _ rows (λ r. refl) h
  step-AllJobs lease_seconds max_attempts rows (renews runner_id now) p h =
      update-AllJobs _ _ rows (λ r. refl) h
  step-AllJobs lease_seconds max_attempts rows (reaps now) p h =
      reap-AllJobs max_attempts now rows h

  pub run-AllJobs :
      (lease_seconds max_attempts : ℕ) (rows : Rows) (ops : List Op)
      → All IsFit ops
      → AllJobs P rows
      → AllJobs P (run lease_seconds max_attempts rows ops)
  unfolding run
  run-AllJobs lease_seconds max_attempts rows [] p h = h
  run-AllJobs lease_seconds max_attempts rows (op ∷ ops) p h =
      run-AllJobs lease_seconds max_attempts (step lease_seconds max_attempts rows op) ops p.1
        (step-AllJobs lease_seconds max_attempts rows op p.0 h)

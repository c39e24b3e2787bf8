-- ===== src/Store/Leases.antt =====
-- What a lease promises: until it runs out nobody but its holder touches the job, and what
-- happens to the job when it does run out.
use slack_runtests.Prelude.{
  All, Bool, List, Option, Option-cases, Text, [], ap, arith, false, if◌then◌else◌, inl, inr, leb,
  ltb, refl, some, true, ℕ, ◌&&◌, ◌∙◌, ◌∷◌, ◌≡◌, ◌≢◌, ◌≤◌,
}
use slack_runtests.Store.Rows.{Job, JobRow, is_active, update_where}
use slack_runtests.Store.{
  Rows, claim, claim_loop, enqueue, finish, given_up, handed_to, is_active_of, is_claimed_by,
  is_expired, is_held_by, is_queued, job, mark_running, new_row, reap, renew, requeued,
}
use slack_runtests.Store.Updates.{Distinct, enqueue_new, enqueue_old, job-append, job-map, over}
use slack_runtests.Store.History.{Op, claims, enqueues, finishes, reaps, renews, run, starts, step}
use slack_runtests.Store.Claiming.{claim_cases}

-- The row that an id finds after one UPDATE.
pub job-update :
    (k : Text) (p : JobRow → Bool) (f : JobRow → JobRow) (rows : Rows) (r : JobRow)
    → ((s : JobRow) → (f s).id ≡ s.id)
    → job k rows ≡ some r
    → job k (update_where p f rows) ≡ some (if p r then f r else r)
job-update k p f rows r same e =
    job-map (λ s. if p s then f s else s) k rows (λ s. ground (arith, same s))
    ∙ ap (over (λ s. if p s then f s else s)) e

-- What one reaping makes of a row.
abbrev pub reaped_row : ℕ → ℕ → JobRow → JobRow
reaped_row max_attempts now r =
    if is_expired now r then (if ltb r.attempts max_attempts then requeued r else given_up r) else r

-- The two statements of a reaping act as one choice on every row: a row whose lease has run out
-- is queued again while attempts are left, and is abandoned otherwise; any other row stays.
pub job-reap :
    (k : Text) (max_attempts now : ℕ) (rows : Rows) (r : JobRow)
    → job k rows ≡ some r
    → job k (reap max_attempts now rows) ≡ some (reaped_row max_attempts now r)
unfolding reap
job-reap k max_attempts now rows r e =
    job-update k (λ s. is_expired now s && leb max_attempts s.attempts) given_up _ _ (λ s. refl)
      (job-update k (λ s. is_expired now s && ltb s.attempts max_attempts) requeued rows r
        (λ s. refl) e)
    ∙ ground arith

-- A test server holds the row, under a lease that ends at `lease`.
pub record IsHeld (runner_id : Text) (lease : ℕ) (r : JobRow) : Type 0 where
  pub holder : r.runner_id ≡ some runner_id
  pub active : is_active r.state ≡ true
  pub leased : r.lease_expires ≡ some lease

-- The calls of others: those that no test server `runner_id` makes, up to the time `until`.
abbrev pub IsForeign : Text → ℕ → Op → Type 0
IsForeign runner_id until (enqueues j now) = Unit {0}
IsForeign runner_id until (claims other labels now) = (now ≤ until)
IsForeign runner_id until (starts job_id other now) = (other ≢ runner_id)
IsForeign runner_id until (finishes job_id other o now) = (other ≢ runner_id)
IsForeign runner_id until (renews other now) = (other ≢ runner_id)
IsForeign runner_id until (reaps now) = (now ≤ until)

module _ (k : Text) (runner_id : Text) (until : ℕ) (r : JobRow) (h : IsHeld runner_id until r) where
  reap-holds :
      (max_attempts now : ℕ) (rows : Rows)
      → now ≤ until
      → job k rows ≡ some r
      → job k (reap max_attempts now rows) ≡ some r
  reap-holds max_attempts now rows early e =
      job-reap k max_attempts now rows r e ∙ ground (arith, h.leased)

  claim_loop-holds :
      (other : Text) (wanted : List Text) (lease : ℕ) (cands rows : Rows)
      → job k rows ≡ some r
      → job k (claim_loop other wanted lease cands rows).0 ≡ some r
  unfolding claim_loop
  claim_loop-holds other wanted lease [] rows e = e
  claim_loop-holds other wanted lease (c ∷ cands) rows e =
      let rows' = update_where (is_queued c.id) (handed_to other lease) rows in
      let same : job k rows' ≡ some r =
        job-update k (is_queued c.id) (handed_to other lease) rows r (λ s. refl) e
        ∙ ground (arith, h.active) in
      ground (
        arith,
        same,
        claim_loop-holds other wanted lease cands rows e,
        claim_loop-holds other wanted lease cands rows' same,
      )

  update-holds :
      (p : JobRow → Bool) (f : JobRow → JobRow) (rows : Rows)
      → ((s : JobRow) → (f s).id ≡ s.id)
      → p r ≡ false
      → job k rows ≡ some r
      → job k (update_where p f rows) ≡ some r
  update-holds p f rows same miss e = job-update k p f rows r same e ∙ rw miss

  enqueue-holds :
      (j : Job) (now : ℕ) (rows : Rows)
      → job k rows ≡ some r
      → job k (enqueue j now rows).0 ≡ some r
  enqueue-holds j now rows e = elim (Option-cases (job j.id rows)) [
    | inl new ↦ rw (enqueue_new j now rows new, job-append k rows (new_row j now ∷ []), e)
    | inr (s, old) ↦ rw (enqueue_old j now rows s old) e
  ]

  step-holds :
      (lease_seconds max_attempts : ℕ) (rows : Rows) (op : Op)
      → IsForeign runner_id until op
      → job k rows ≡ some r
      → job k (step lease_seconds max_attempts rows op) ≡ some r
  unfolding step claim mark_running finish renew
  step-holds lease_seconds max_attempts rows (enqueues j now) o e = enqueue-holds j now rows e
  step-holds lease_seconds max_attempts rows (claims other labels now) o e =
      claim_loop-holds other _ _ _ _ (reap-holds max_attempts now rows o e)
  step-holds lease_seconds max_attempts rows (starts job_id other now) o e =
      update-holds (is_claimed_by job_id other) _ rows (λ s. refl) (ground (arith, h.holder)) e
  step-holds lease_seconds max_attempts rows (finishes job_id other out now) o e =
      update-holds (is_active_of job_id other) _ rows (λ s. refl) (ground (arith, h.holder)) e
  step-holds lease_seconds max_attempts rows (renews other now) o e =
      update-holds (is_held_by other) _ rows (λ s. refl) (ground (arith, h.holder)) e
  step-holds lease_seconds max_attempts rows (reaps now) o e = reap-holds max_attempts now rows o e

  -- While the lease runs, no history of calls by others changes anything of a job that a test
  -- server holds: no reaping takes it back, no claim hands it on, and no other test server can
  -- start it, finish it or renew it.
  pub run-holds :
      (lease_seconds max_attempts : ℕ) (rows : Rows) (ops : List Op)
      → All (IsForeign runner_id until) ops
      → job k rows ≡ some r
      → job k (run lease_seconds max_attempts rows ops) ≡ some r
  unfolding run
  run-holds lease_seconds max_attempts rows [] o e = e
  run-holds lease_seconds max_attempts rows (op ∷ ops) o e =
      run-holds lease_seconds max_attempts (step lease_seconds max_attempts rows op) ops o.1
        (step-holds lease_seconds max_attempts rows op o.0 e)

  -- While the lease runs, no claim, by whichever test server, hands the held job out again.
  pub claim_exclusive :
      (lease_seconds max_attempts now : ℕ) (rows : Rows) (other : Text) (labels : List Text)
      (j : Job)
      → Distinct rows
      → job k rows ≡ some r
      → now ≤ until
      → (claim other labels lease_seconds max_attempts now rows).1 ≡ some j
      → j.id ≢ k
  claim_exclusive lease_seconds max_attempts now rows other labels j d e early out same =
      elim (claim_cases other labels lease_seconds max_attempts now rows d) [
        | inl (result, _) ↦ cc (ap (λ (x : Rows × Option Job). x.1) result)
        | inr (c, result, oldest) ↦
            let handed_out = ap (λ (x : Rows × Option Job). x.1) result in
            let kept = reap-holds max_attempts now rows early e in
            ground (arith, handed_out, kept, oldest.found, oldest.waits, h.active)
      ]

-- ===== src/Store/Ownership.antt =====
-- Who may report on a job: `mark_running` and `finish` obey the holder of an active job alone.
use slack_runtests.Prelude.{
  Bool, List, Option, Option-cases, Text, [], ap, arith, count_if, false, if◌then◌else◌, inl, inr,
  none, pos, refl, some, sym, true, ℕ, ℕ_discrete, ◌&&◌, ◌==◌, ◌∙◌, ◌∷◌, ◌≡◌, text_eq, option_eq,
  int_eq, nat_eq,
}
use slack_runtests.Store.Rows.{
  JobRow, Outcome, claimed, done, failed, is_active, is_text, update_where, state_eq,
}
use slack_runtests.Store.{Rows, finish, finished, has_id, job, mark_running}
use slack_runtests.Store.Updates.{Distinct, count_if-found, job-has_id}
use slack_runtests.Store.History.{Op, finishes, run, step}
use slack_runtests.Store.Final.{is_final, job-run_final}
use slack_runtests.Store.Consistent.{run-Distinct, step-Distinct}
use slack_runtests.Store.Leases.{job-update}

-- An UPDATE whose WHERE clause no row meets changes nothing.
update_none :
    (p : JobRow → Bool) (f : JobRow → JobRow) (rows : Rows)
    → count_if p rows ≡ 0
    → update_where p f rows ≡ rows
update_none p f [] h = refl
update_none p f (r ∷ rows) h = ground (arith, update_none p f rows)

abbrev pub met_by : (JobRow → Bool) → Option JobRow → Bool
met_by p none = false
met_by p (some r) = p r

-- `UPDATE … WHERE id=? AND …` with a check of `rowcount`, over distinct ids.
module _ (k : Text) (p : JobRow → Bool) (rows : Rows) (d : Distinct rows) where
  rowcount : (count_if (λ r. has_id k r && p r) rows == 1) ≡ met_by p (job k rows)
  unfolding ℕ_discrete
  rowcount = elim (Option-cases (job k rows)) [
    | inl e ↦ rw (count_if-found k p rows d, e)
    | inr (r, e) ↦ rw (count_if-found k p rows d, e) (ground arith)
  ]

  refused_keeps :
      (f : JobRow → JobRow)
      → (count_if (λ r. has_id k r && p r) rows == 1) ≡ false
      → update_where (λ r. has_id k r && p r) f rows ≡ rows
  refused_keeps f h =
      update_none (λ r. has_id k r && p r) f rows
        (elim (Option-cases (job k rows)) [
          | inl e ↦ rw (count_if-found k p rows d, e)
          | inr (r, e) ↦ count_if-found k p rows d ∙ rw e (ground (arith, rowcount, h, e))
        ])

  accepted_row :
      (f : JobRow → JobRow) (r : JobRow)
      → ((s : JobRow) → (f s).id ≡ s.id)
      → job k rows ≡ some r
      → p r ≡ true
      → job k (update_where (λ s. has_id k s && p s) f rows) ≡ some (f r)
  accepted_row f r same e h =
      job-update k (λ s. has_id k s && p s) f rows r same e ∙ ground (arith, job-has_id k rows r e)

-- The columns that `finish` asks for: the reporting test server holds the job, and it is active.
abbrev pub holds : Text → JobRow → Bool
holds runner_id r = is_text r.runner_id runner_id && is_active r.state

abbrev pub waits_to_start : Text → JobRow → Bool
waits_to_start runner_id r = is_text r.runner_id runner_id && r.state == claimed

module _ (job_id runner_id : Text) (now : ℕ) (rows : Rows) (d : Distinct rows) where
  -- A result is accepted exactly if the id finds a job that is claimed or running and that the
  -- reporting test server holds. If it is refused, nothing changes.
  pub finish_accepts :
      (o : Outcome)
      → ((finish job_id runner_id o now rows).1 ≡ met_by (holds runner_id) (job job_id rows))
        × ((finish job_id runner_id o now rows).1 ≡ false
            → (finish job_id runner_id o now rows).0 ≡ rows)
  unfolding finish
  finish_accepts o = (
    rowcount job_id (holds runner_id) rows d,
    refused_keeps job_id (holds runner_id) rows d (finished o now),
  )

  -- A start is accepted exactly if the id finds a job that is claimed and that the reporting test
  -- server holds. If it is refused, nothing changes.
  pub mark_running_accepts :
      ((mark_running job_id runner_id now rows).1
        ≡ met_by (waits_to_start runner_id) (job job_id rows))
      × ((mark_running job_id runner_id now rows).1 ≡ false
          → (mark_running job_id runner_id now rows).0 ≡ rows)
  unfolding mark_running
  mark_running_accepts = (
    rowcount job_id (waits_to_start runner_id) rows d,
    refused_keeps job_id (waits_to_start runner_id) rows d _,
  )

  -- An accepted result is on record: the job is done if the exit code is 0 and failed otherwise,
  -- it has the end time, the exit code and the summary that were reported, and its lease is gone.
  pub finish_records :
      (o : Outcome) (r : JobRow)
      → job job_id rows ≡ some r
      → (finish job_id runner_id o now rows).1 ≡ true
      → (r' : JobRow) × (job job_id (finish job_id runner_id o now rows).0 ≡ some r')
        × (r'.state ≡ (if o.exit_code == pos 0 then done else failed))
        × (r'.finished_at ≡ some now)
        × (r'.exit_code ≡ some o.exit_code)
        × (r'.summary ≡ some o.summary)
        × (r'.runner_id ≡ some runner_id)
        × (r'.lease_expires ≡ none)
  finish_records o r e ok =
      let held : holds runner_id r ≡ true =
        sym ((finish_accepts o).0 ∙ ap (met_by (holds runner_id)) e) ∙ ok in
      (
        finished o now r,
        unfold finish in
            accepted_row job_id (holds runner_id) rows d (finished o now) r (λ s. refl) e held,
        refl,
        refl,
        refl,
        refl,
        ground arith,
        refl,
      )

-- A result is accepted once: after it, and whatever calls follow, a second result for the job is
-- refused and changes nothing, whoever sends it.
pub finish_once :
    (lease_seconds max_attempts : ℕ) (job_id runner_id other : Text) (o o' : Outcome)
    (now later : ℕ) (rows : Rows) (ops : List Op)
    → Distinct rows
    → (finish job_id runner_id o now rows).1 ≡ true
    → let rows' = run lease_seconds max_attempts (finish job_id runner_id o now rows).0 ops in
      finish job_id other o' later rows' ≡ (rows', false)
finish_once lease_seconds max_attempts job_id runner_id other o o' now later rows ops d ok =
    elim (Option-cases (job job_id rows)) [
      | inl e ↦
          cc (ok, (finish_accepts job_id runner_id now rows d o).0, ap (met_by (holds runner_id)) e)
      | inr (r, e) ↦
          let recorded = finish_records job_id runner_id now rows d o r e ok in
          let r' = recorded.0 in
          let rows' = run lease_seconds max_attempts (finish job_id runner_id o now rows).0 ops in
          let final : is_final r'.state ≡ true = ground (arith, recorded.2) in
          let kept : job job_id rows' ≡ some r' =
            job-run_final lease_seconds max_attempts job_id (finish job_id runner_id o now rows).0
              ops r' recorded.1 final in
          let d' : Distinct rows' =
            run-Distinct lease_seconds max_attempts (finish job_id runner_id o now rows).0 ops (
              unfold step in
              step-Distinct lease_seconds max_attempts rows (finishes job_id runner_id o now) d) in
          let accepts = finish_accepts job_id other later rows' d' o' in
          let refused : (finish job_id other o' later rows').1 ≡ false =
            accepts.0 ∙ ap (met_by (holds other)) kept ∙ ground (arith, final) in
          λ i. (accepts.1 refused i, refused i)
    ]

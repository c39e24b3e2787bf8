-- ===== src/Store/Attempts.antt =====
-- The cap on attempts: how often a job is handed out in the whole of a history.
use slack_runtests.Prelude.{
  All, Bool-cases, List, Option, Option-cases, Text, [], ap, arith, if◌then◌else◌, inl, inr, none,
  refl, some, subst, ℕ, ◌+◌, ◌<◌, ◌==◌, ◌∷◌, ◌≡◌, ◌≤◌, option_eq, nat_eq, int_eq, text_eq,
}
use slack_runtests.Store.Rows.{Job, JobRow, state_eq}
use slack_runtests.Store.{Rows, claim, handed_to, has_id, is_queued, job, reap}
use slack_runtests.Store.Updates.{Distinct, job-cons, job-has_id, job-nil}
use slack_runtests.Store.History.{Op, claims, run, step}
use slack_runtests.Store.Lifecycle.{Evolves, job-Evolves}
use slack_runtests.Store.Refines.{reap-Evolves, step-Evolves}
use slack_runtests.Store.Final.{Moves-attempts}
use slack_runtests.Store.Consistent.{IsConsistent, IsWellFormed, run-IsWellFormed, step-Distinct}
use slack_runtests.Store.Claiming.{claim_cases}
use slack_runtests.Store.Leases.{job-update}

found-All :
    (P : JobRow → Type 0) (k : Text) (rows : Rows) (r : JobRow)
    → All P rows
    → job k rows ≡ some r
    → P r
found-All P k [] r h e = cc (job-nil k)
found-All P k (x ∷ xs) r h e = elim (Bool-cases (has_id k x)) [
  | inl hit ↦ subst P (ground (arith, job-cons k x xs)) h.0
  | inr miss ↦ found-All P k xs r h.1 (ground (arith, job-cons k x xs))
]

-- The attempts on record.
abbrev pub tries : Option JobRow → ℕ
tries none = 0
tries (some r) = r.attempts

-- 1 if a claim hands out the id.
abbrev pub hands_out : Text → Option Job → ℕ
hands_out k none = 0
hands_out k (some j) = if j.id == k then 1 else 0

module _ (lease_seconds max_attempts : ℕ) where
  pub handed_by : Text → Rows → Op → ℕ
  handed_by k rows (claims runner_id labels now) =
      hands_out k (claim runner_id labels lease_seconds max_attempts now rows).1
  handed_by k rows _ = 0

  -- How many claims of a history hand out the id.
  pub handouts : Text → Rows → List Op → ℕ
  unfolding handed_by
  handouts k rows [] = 0
  handouts k rows (op ∷ ops) =
      handed_by k rows op + handouts k (step lease_seconds max_attempts rows op) ops

  Evolves-tries :
      (k : Text) (rows rows' : Rows)
      → Evolves max_attempts rows rows'
      → tries (job k rows) ≤ tries (job k rows')
  Evolves-tries k rows rows' h = elim (Option-cases (job k rows)) [
    | inl e ↦ rw e (omega arith)
    | inr (r, e) ↦
        let (r', e', m) = job-Evolves max_attempts k rows rows' r h e in
        rw (e, e') (Moves-attempts m)
  ]

  claim-tries :
      (k runner_id : Text) (labels : List Text) (now : ℕ) (rows : Rows)
      → Distinct rows
      → let result = claim runner_id labels lease_seconds max_attempts now rows in
        tries (job k rows) + hands_out k result.1 ≤ tries (job k result.0)
  claim-tries k runner_id labels now rows d =
      let reaped = reap max_attempts now rows in
      let before = Evolves-tries k rows reaped (reap-Evolves max_attempts now rows) in
      elim (claim_cases runner_id labels lease_seconds max_attempts now rows d) [
        | inl (result, _) ↦ rw result (omega (arith, before))
        | inr (c, result, o) ↦ rw result (elim (Option-cases (job k reaped)) [
          | inl e ↦ ground (arith, before, e, o.found)
          | inr (r, e) ↦
              let after =
                job-update k (is_queued c.id) (handed_to runner_id (now + lease_seconds)) reaped r
                  (λ s. refl) e in
              ground (arith, before, e, after, o.found, o.waits, job-has_id k reaped r e)
        ])
      ]

  step-tries :
      (k : Text) (rows : Rows) (op : Op)
      → Distinct rows
      → tries (job k rows) + handed_by k rows op
        ≤ tries (job k (step lease_seconds max_attempts rows op))
  unfolding handed_by
  step-tries k rows (claims runner_id labels now) d =
      unfold step in claim-tries k runner_id labels now rows d
  step-tries k rows op d =
      omega (arith, Evolves-tries k rows _ (step-Evolves lease_seconds max_attempts rows op))

  run-tries :
      (k : Text) (rows : Rows) (ops : List Op)
      → Distinct rows
      → tries (job k rows) + handouts k rows ops
        ≤ tries (job k (run lease_seconds max_attempts rows ops))
  unfolding handouts run
  run-tries k rows [] d = omega arith
  run-tries k rows (op ∷ ops) d =
      let rows' = step lease_seconds max_attempts rows op in
      omega (
        arith,
        step-tries k rows op d,
        run-tries k rows' ops (step-Distinct lease_seconds max_attempts rows op d),
      )

  -- If the cap is positive, then in the whole of any history that starts from a well-formed table
  -- no job is handed to a test server more often than the cap allows, whatever becomes of the
  -- test servers that took it.
  pub handouts-le :
      (k : Text) (rows : Rows) (ops : List Op)
      → 0 < max_attempts
      → IsWellFormed max_attempts rows
      → handouts k rows ops ≤ max_attempts
  handouts-le k rows ops pos_max w =
      let rows' = run lease_seconds max_attempts rows ops in
      let tried = run-tries k rows ops w.distinct in
      elim (Option-cases (job k rows')) [
        | inl e ↦ omega (arith, tried, ap tries e)
        | inr (r, e) ↦
            let c =
              found-All (IsConsistent max_attempts) k rows' r
                (run-IsWellFormed lease_seconds max_attempts rows ops pos_max w).consistent e in
            omega (arith, tried, ap tries e, c.capped)
      ]

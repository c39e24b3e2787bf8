-- ===== src/Store/Final.antt =====
-- What no history of calls can undo: an ending, a request, a count of attempts.
use slack_runtests.Prelude.{
  Bool, List, Option-cases, Text, ap, arith, false, false≢true, inl, inr, refl, some, subst, sym,
  true, ℕ, ◌∙◌, ◌≡◌, ◌≤◌,
}
use slack_runtests.Store.Rows.{Job, JobRow, JobState, abandoned, done, failed}
use slack_runtests.Store.{Rows, enqueue, job, new_row}
use slack_runtests.Store.Updates.{enqueue_old, job-enqueue}
use slack_runtests.Store.History.{Op, run}
use slack_runtests.Store.Lifecycle.{
  Move, Moves, Moves-job, abandon, extend, hand, requeue, settle, start, stay, then_move,
}
use slack_runtests.Store.Refines.{job-run}

abbrev pub is_final : JobState → Bool
is_final done = true
is_final failed = true
is_final abandoned = true
is_final _ = false

Move-not_final :
    {max_attempts : ℕ} {r s : JobRow} → Move max_attempts r s → is_final r.state ≡ false
Move-not_final (hand _ _ q) = ground arith
Move-not_final (start _ q) = ground arith
Move-not_final (settle _ _ q) = ground arith
Move-not_final (extend _ q) = ground arith
Move-not_final (requeue q _) = ground arith
Move-not_final (abandon q _) = ground arith

Moves-final :
    {max_attempts : ℕ} (r : JobRow) {s : JobRow}
    → Moves max_attempts r s
    → is_final r.state ≡ true
    → s ≡ r
Moves-final r stay h = refl
Moves-final r (then_move {s} p m) h =
    let same = Moves-final r p h in
    absurd (false≢true (subst (λ x. false ≡ is_final x.state) same (sym (Move-not_final m)) ∙ h))

Move-attempts : {max_attempts : ℕ} {r s : JobRow} → Move max_attempts r s → r.attempts ≤ s.attempts
Move-attempts (hand _ _ _) = omega arith
Move-attempts (start _ _) = omega arith
Move-attempts (settle _ _ _) = omega arith
Move-attempts (extend _ _) = omega arith
Move-attempts (requeue _ _) = omega arith
Move-attempts (abandon _ _) = omega arith

Move-created_at :
    {max_attempts : ℕ} {r s : JobRow} → Move max_attempts r s → s.created_at ≡ r.created_at
Move-created_at (hand _ _ _) = refl
Move-created_at (start _ _) = refl
Move-created_at (settle _ _ _) = refl
Move-created_at (extend _ _) = refl
Move-created_at (requeue _ _) = refl
Move-created_at (abandon _ _) = refl

pub Moves-attempts :
    {max_attempts : ℕ} {r s : JobRow} → Moves max_attempts r s → r.attempts ≤ s.attempts
Moves-attempts stay = omega arith
Moves-attempts (then_move p m) = omega (arith, Moves-attempts p, Move-attempts m)

Moves-created_at :
    {max_attempts : ℕ} {r s : JobRow} → Moves max_attempts r s → s.created_at ≡ r.created_at
Moves-created_at stay = refl
Moves-created_at (then_move p m) = Move-created_at m ∙ Moves-created_at p

enqueue-found :
    (j : Job) (now : ℕ) (rows : Rows) → (r : JobRow) × (job j.id (enqueue j now rows).0 ≡ some r)
enqueue-found j now rows = elim (Option-cases (job j.id rows)) [
  | inl new ↦ (new_row j now, rw (job-enqueue j now rows, new))
  | inr (r, old) ↦ (r, rw (job-enqueue j now rows, old))
]

module _ (lease_seconds max_attempts : ℕ) where
  -- A job that has ended, done, failed or abandoned, keeps its whole row whatever calls follow: no
  -- later result, claim, renewal or reaping touches it.
  pub job-run_final :
      (k : Text) (rows : Rows) (ops : List Op) (r : JobRow)
      → job k rows ≡ some r
      → is_final r.state ≡ true
      → job k (run lease_seconds max_attempts rows ops) ≡ some r
  job-run_final k rows ops r e h =
      let (r', found, moves) = job-run lease_seconds max_attempts k rows ops r e in
      found ∙ ap some (Moves-final r moves h)

  -- Whatever calls follow, a job keeps its request and its time of creation, and never loses an
  -- attempt.
  pub job-run_request :
      (k : Text) (rows : Rows) (ops : List Op) (r : JobRow)
      → job k rows ≡ some r
      → (r' : JobRow) × (job k (run lease_seconds max_attempts rows ops) ≡ some r')
        × (r'.job ≡ r.job)
        × (r'.created_at ≡ r.created_at)
        × (r.attempts ≤ r'.attempts)
  job-run_request k rows ops r e =
      let (r', found, moves) = job-run lease_seconds max_attempts k rows ops r e in
      (r', found, Moves-job moves, Moves-created_at moves, Moves-attempts moves)

  -- Once a request is in the table, a retry of it is refused and changes nothing, however many
  -- calls came between and whatever they did to the job.
  pub enqueue_again :
      (j retry : Job) (now later : ℕ) (rows : Rows) (ops : List Op)
      → retry.id ≡ j.id
      → let rows' = run lease_seconds max_attempts (enqueue j now rows).0 ops in
        enqueue retry later rows' ≡ (rows', false)
  enqueue_again j retry now later rows ops e =
      let (r, first_found) = enqueue-found j now rows in
      let (r', found, moves) =
        job-run lease_seconds max_attempts j.id (enqueue j now rows).0 ops r first_found in
      enqueue_old retry later (run lease_seconds max_attempts (enqueue j now rows).0 ops) r'
        (rw e found)

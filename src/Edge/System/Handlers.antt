-- ===== src/Edge/System/Handlers.antt =====
-- The handlers of edge/edge_server/app.py, the Slack door's aside, as histories of store calls.
use slack_runtests.Edge.Polling.{Round, result, claim_request, poll}
use slack_runtests.Store.Rows.{Outcome}
use slack_runtests.Edge.{started, heartbeat, Enrolment, Request, State, enroll}
use slack_runtests.Prelude.{
  All, All-append, Bool-cases, List, Option-cases, Text, [], ap, inl, inr, leb, refl, sym, ℕ, ◌++◌,
  ◌+◌, ◌∙◌, ◌∷◌, ◌≡◌, text_eq, int_eq, option_eq, nat_eq,
}
use slack_runtests.Edge.System.{AreFit, IsOrdered, Setting}
use slack_runtests.Python.{Result, ok, raised}
use slack_runtests.Store.{Rows, claim}
use slack_runtests.Store.History.{Op, claims, finishes, renews, run, starts, step}
use slack_runtests.Store.Jobs.{IsFit}
use slack_runtests.Store.Heartbeats.{run-append}
use slack_runtests.Store.Runners.{labels_of}
use slack_runtests.Edge.Laws.{authenticate_cases, enroll_cases}

-- The queue came about by a history of store calls that enqueue ordered jobs alone.
abbrev pub IsHistory : Setting → Rows → Rows → Type 0
IsHistory g rows rows' =
    (ops : List Op) × All (IsFit (IsOrdered g)) ops
    × (rows' ≡ run g.edge.lease_seconds g.max_attempts rows ops)

module _ (g : Setting) where
  pub same-IsHistory : (rows : Rows) → IsHistory g rows rows
  unfolding run
  same-IsHistory rows = ([], tt, refl)

  pub one-IsHistory :
      (rows : Rows) (op : Op)
      → IsFit (IsOrdered g) op
      → IsHistory g rows (step g.edge.lease_seconds g.max_attempts rows op)
  unfolding run
  one-IsHistory rows op fit = (op ∷ [], (fit, tt), refl)

  pub append-IsHistory :
      (rows rows' rows'' : Rows)
      → IsHistory g rows rows'
      → IsHistory g rows' rows''
      → IsHistory g rows rows''
  append-IsHistory rows rows' rows'' (ops, fit, e) (ops', fit', e') = (
    ops ++ ops',
    All-append (IsFit (IsOrdered g)) ops ops' fit fit',
    e'
        ∙ ap (λ x. run g.edge.lease_seconds g.max_attempts x ops') e
        ∙ sym (run-append g.edge.lease_seconds g.max_attempts rows ops ops'),
  )

  poll-IsHistory :
      (runner_id : Text) (labels : List Text) (deadline : ℕ) (rounds : List Round) (jobs : Rows)
      → AreFit g rounds
      → IsHistory g jobs
          (poll runner_id labels g.edge.lease_seconds g.max_attempts deadline rounds jobs).0
  unfolding poll step
  poll-IsHistory runner_id labels deadline [] jobs fit = same-IsHistory jobs
  poll-IsHistory runner_id labels deadline (r ∷ rounds) jobs fit =
      let claimed_now = claim runner_id labels g.edge.lease_seconds g.max_attempts r.now jobs in
      let once : IsHistory g jobs claimed_now.0 =
        one-IsHistory jobs (claims runner_id labels r.now) tt in
      elim (Option-cases claimed_now.1) [
        | inr (j, got) ↦ rw (got, poll) once
        | inl nothing ↦ elim (Bool-cases (leb deadline r.monotonic)) [
          | inl late ↦ rw (nothing, late, poll) once
          | inr early ↦
              rw (nothing, early, poll)
                (append-IsHistory jobs claimed_now.0 _ once (
                  append-IsHistory claimed_now.0 _ _ (r.others, fit.0, refl)
                    (poll-IsHistory runner_id labels deadline rounds _ fit.1)))
        ]
      ]

  -- What a handler leaves of the queue, if it answers.
  abbrev pub Keeps : {A : Type 0} → State → Result (State × A) → Type 0
  Keeps s (ok (t, reply)) = IsHistory g s.jobs t.jobs
  Keeps s (raised x) = Unit

  pub enroll-Keeps :
      (r : Request) (e : Enrolment) (now : ℕ) (s : State)
      → Keeps s (enroll g.c g.beyond g.edge g.trusted r e now s)
  enroll-Keeps r e now s = elim (enroll_cases g.c g.beyond g.edge g.trusted r e now s) [
    | inl (x, raises) ↦ rw raises tt
    | inr (inl bad) ↦ rw bad (same-IsHistory s.jobs)
    | inr (inr (inl denied)) ↦ rw denied (same-IsHistory s.jobs)
    | inr (inr (inr (written, fine))) ↦ rw written (same-IsHistory s.jobs)
  ]

  pub heartbeat-Keeps :
      (r : Request) (now : ℕ) (s : State) → Keeps s (heartbeat g.c g.beyond g.edge r now s)
  unfolding heartbeat step
  heartbeat-Keeps r now s = elim (authenticate_cases g.c g.beyond r now s.runners) [
    | inl (x, raises) ↦ rw raises tt
    | inr (inl denied) ↦ rw denied (same-IsHistory s.jobs)
    | inr (inr (row, passes, caller)) ↦
        rw passes (one-IsHistory s.jobs (renews row.runner_id now) tt)
  ]

  pub started-Keeps :
      (job_id : Text) (r : Request) (now : ℕ) (s : State)
      → Keeps s (started g.c g.beyond job_id r now s)
  unfolding started step
  started-Keeps job_id r now s = elim (authenticate_cases g.c g.beyond r now s.runners) [
    | inl (x, raises) ↦ rw raises tt
    | inr (inl denied) ↦ rw denied (same-IsHistory s.jobs)
    | inr (inr (row, passes, caller)) ↦
        rw passes (one-IsHistory s.jobs (starts job_id row.runner_id now) tt)
  ]

  pub result-Keeps :
      (job_id : Text) (o : Outcome) (r : Request) (now : ℕ) (s : State)
      → Keeps s (result g.c g.beyond job_id o r now s)
  unfolding result step
  result-Keeps job_id o r now s = elim (authenticate_cases g.c g.beyond r now s.runners) [
    | inl (x, raises) ↦ rw raises tt
    | inr (inl denied) ↦ rw denied (same-IsHistory s.jobs)
    | inr (inr (row, passes, caller)) ↦
        rw passes (one-IsHistory s.jobs (finishes job_id row.runner_id o now) tt)
  ]

  pub claim_request-Keeps :
      (r : Request) (now monotonic : ℕ) (rounds : List Round) (s : State)
      → AreFit g rounds
      → Keeps s
          (claim_request g.c g.beyond g.edge g.poll_timeout g.max_attempts r now monotonic rounds s)
  unfolding claim_request
  claim_request-Keeps r now monotonic rounds s fit =
      elim (authenticate_cases g.c g.beyond r now s.runners) [
        | inl (x, raises) ↦ rw raises tt
        | inr (inl denied) ↦ rw denied (same-IsHistory s.jobs)
        | inr (inr (row, passes, caller)) ↦ rw passes (
            poll-IsHistory row.runner_id (labels_of row.labels) (monotonic + g.poll_timeout) rounds
              s.jobs fit)
      ]

-- ===== src/Edge/System/Delivery.antt =====
-- From the Slack door of the edge to the test server: the jobs that a claim hands out.
use slack_runtests.Edge.Polling.{
  Round, ClaimReply, Polled, answered_claim, claim_request, dispatched, poll,
}
use slack_runtests.Prelude.{
  All, Bool-cases, List, Option-cases, Text, [], inl, inr, leb, none, subst, true, ℕ, ◌+◌, ◌<◌, ◌∷◌,
  ◌≡◌,
}
use slack_runtests.Edge.{Request, State}
use slack_runtests.Edge.System.{AreFit, IsOrdered, Reach, Setting}
use slack_runtests.Python.{Bytes, Result, is_ascii, ok}
use slack_runtests.Forms.{parse_form}
use slack_runtests.Gate.Laws.{text_of}
use slack_runtests.Store.Rows.{Job}
use slack_runtests.Store.{Rows, claim}
use slack_runtests.Store.Jobs.{AllJobs, IsFit, claim-AllJobs, run-AllJobs}
use slack_runtests.Store.Runners.{RunnerRow, labels_of}
use slack_runtests.Edge.Laws.{IsCaller, authenticate_cases}
use slack_runtests.Edge.System.Orders.{Reach-IsWellFormed}
use slack_runtests.Agent.{validate}
use slack_runtests.Agent.Dispatch.{as_dispatch, dispatched-IsAccepted}

dispatched-injective : {a b : Job} → dispatched a ≡ dispatched b → a ≡ b
dispatched-injective e = cc

answered-injective :
    {a b : State} {p q : Polled}
    → ◌≡◌ {A = Result (State × ClaimReply)} (ok (a, answered_claim p)) (ok (b, answered_claim q))
    → p ≡ q
answered-injective e = cc

-- The long poll hands out a job of the table, or one that was put there while it waited.
pub poll-AllJobs :
    (P : Job → Type 0) (runner_id : Text) (labels : List Text)
    (lease_seconds max_attempts deadline : ℕ) (rounds : List Round) (jobs : Rows) (j : Job)
    → AllJobs P jobs
    → All (λ r. All (IsFit P) r.others) rounds
    → (poll runner_id labels lease_seconds max_attempts deadline rounds jobs).1 ≡ dispatched j
    → P j
unfolding poll
poll-AllJobs P runner_id labels lease_seconds max_attempts deadline [] jobs j h fit e = cc
poll-AllJobs P runner_id labels lease_seconds max_attempts deadline (r ∷ rounds) jobs j h fit e =
    let claimed_now = claim runner_id labels lease_seconds max_attempts r.now jobs in
    let (jobs_stay, good) =
      claim-AllJobs P runner_id labels lease_seconds max_attempts r.now jobs h in
    elim (Option-cases claimed_now.1) [
      | inr (k, got) ↦ subst P (dispatched-injective (rw (got, poll) at e)) (good k got)
      | inl nothing ↦ elim (Bool-cases (leb deadline r.monotonic)) [
        | inl late ↦ cc (rw (nothing, late, poll) at e)
        | inr early ↦
            poll-AllJobs P runner_id labels lease_seconds max_attempts deadline rounds _ j
              (run-AllJobs P lease_seconds max_attempts claimed_now.0 r.others fit.0 jobs_stay)
              fit.1 (rw (nothing, early, poll) at e)
      ]
    ]

-- A test server that asks for work is given a job only if it is authenticated: its row is of the
-- table, and its key signed the request.
module _ (g : Setting) (hex : (k m : Bytes) → is_ascii (g.hmac_hex k m) ≡ true) where
  answered-IsOrdered :
      (r : Request) (now monotonic : ℕ) (rounds : List Round) (s t : State) (j : Job)
      → AllJobs (IsOrdered g) s.jobs
      → AreFit g rounds
      → claim_request g.c g.beyond g.edge g.poll_timeout g.max_attempts r now monotonic rounds s
        ≡ ok (t, answered_claim (dispatched j))
      → IsOrdered g j × ((row : RunnerRow) × IsCaller g.c g.beyond r now s.runners row)
  unfolding claim_request
  answered-IsOrdered r now monotonic rounds s t j h fit e =
      elim (authenticate_cases g.c g.beyond r now s.runners) [
        | inl (x, raises) ↦ cc (rw raises at e)
        | inr (inl denied) ↦ cc (rw denied at e)
        | inr (inr (row, passes, caller)) ↦ (
          poll-AllJobs (IsOrdered g) row.runner_id (labels_of row.labels) g.edge.lease_seconds
              g.max_attempts (monotonic + g.poll_timeout) rounds s.jobs j h fit
              (answered-injective (rw passes at e)),
          (row, caller),
        )
      ]

  pub IsOrdered-IsAccepted : (j : Job) → IsOrdered g j → validate (as_dispatch j) ≡ ok none
  IsOrdered-IsAccepted j o =
      rw o.job
        (dispatched-IsAccepted g.hmac_hex g.uuid12 g.slack (parse_form o.body)
          (text_of (parse_form o.body)) o.args o.understood).0

  -- If a test server asks an edge that started with an empty table, after any requests at both
  -- doors, and is handed a job, then the request is authenticated: it is signed by the key of a
  -- row of the registry; and the job was ordered, by a request that is signed if a secret is set,
  -- from an allowed workspace, channel and person, with a text that the parser takes; and the
  -- agent's own test of the job finds no fault. The cap on attempts is positive, what others queue
  -- while a request waits was ordered too, and the HMAC is written in ASCII.
  pub delivered-IsAccepted :
      (s t u : State) (r : Request) (now monotonic : ℕ) (rounds : List Round) (j : Job)
      → s.jobs ≡ []
      → 0 < g.max_attempts
      → Reach g s t
      → AreFit g rounds
      → claim_request g.c g.beyond g.edge g.poll_timeout g.max_attempts r now monotonic rounds t
        ≡ ok (u, answered_claim (dispatched j))
      → IsOrdered g j
        × ((row : RunnerRow) × IsCaller g.c g.beyond r now t.runners row)
        × (validate (as_dispatch j) ≡ ok none)
  delivered-IsAccepted s t u r now monotonic rounds j empty capped path fit e =
      let ordered =
        answered-IsOrdered r now monotonic rounds t u j
          (Reach-IsWellFormed g hex path capped empty).1 fit e in
      (ordered.0, ordered.1, IsOrdered-IsAccepted j ordered.0)

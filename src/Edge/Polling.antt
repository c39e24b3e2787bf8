-- ===== src/Edge/Polling.antt =====
-- The long poll of edge/edge_server/app.py: `claim`, and `result` once its payload is read.
-- One attempt of the loop: the two clocks, and the calls that others make on the queue before the
-- next attempt.
use slack_runtests.Prelude.{
  Bool, Bool-cases, List, Option, Option-cases, Text, [], any, false≢true, if◌then◌else◌, inl, inr,
  leb, none, some, true, ℕ, ◌+◌, ◌∷◌, ◌≡◌, ◌≢◌,
}
use slack_runtests.Edge.{EdgeConfig, Request, State, authenticate}
use slack_runtests.Python.{Result, ok, ◌>>=◌}
use slack_runtests.Identity.{Crypto}
use slack_runtests.Store.Rows.{Job, Outcome}
use slack_runtests.Store.{Rows, claim, finish}
use slack_runtests.Store.History.{Op, run}
use slack_runtests.Store.Runners.{labels_of}

pub record Round : Type 0 where
  pub monotonic : ℕ
  pub now : ℕ
  pub others : List Op

-- What the test server is answered; `is_waiting` if the rounds end before the loop does.
pub data Polled : Type 0 where
  dispatched : Job → Polled
  no_content : Polled
  is_waiting : Polled

-- The loop `while True` of `claim`, a round for each time that it goes round.
unfoldable pub poll : Text → List Text → ℕ → ℕ → ℕ → List Round → Rows → Rows × Polled
poll runner_id labels lease_seconds max_attempts deadline [] jobs = (jobs, is_waiting)
poll runner_id labels lease_seconds max_attempts deadline (r ∷ rounds) jobs =
    let (jobs', handed) = claim runner_id labels lease_seconds max_attempts r.now jobs in
    elim handed [
      | some j ↦ (jobs', dispatched j)
      | none ↦
          if leb deadline r.monotonic
          then (jobs', no_content)
          else poll runner_id labels lease_seconds max_attempts deadline rounds
              (run lease_seconds max_attempts jobs' r.others)
    ]

-- What `claim` answers.
pub data ClaimReply : Type 0 where
  refused_claim : ClaimReply
  answered_claim : Polled → ClaimReply

module _ (c : Crypto) (beyond : ℕ → Bool) where
  -- `claim`: `monotonic` is the clock at its start, `poll_timeout` and `max_attempts` are of the
  -- configuration.
  unfoldable pub claim_request :
      EdgeConfig → ℕ → ℕ → Request → ℕ → ℕ → List Round → State → Result (State × ClaimReply)
  unfolding poll
  claim_request cfg poll_timeout max_attempts r now monotonic rounds s = do
    caller ← authenticate c beyond r now s.runners
    ok (elim caller [
      | none ↦ (s, refused_claim)
      | some (runners, row) ↦
          let (jobs, polled) =
            poll row.runner_id (labels_of row.labels) cfg.lease_seconds max_attempts
              (monotonic + poll_timeout) rounds s.jobs in
          (record s { runners = runners; jobs = jobs }, answered_claim polled)
    ])

  -- `result`, after the payload was read, for an outcome that SQLite can store (Edge/Payload has
  -- the others); the Boolean chooses between 200 and 409.
  unfoldable pub result : Text → Outcome → Request → ℕ → State → Result (State × Option Bool)
  result job_id o r now s = do
    caller ← authenticate c beyond r now s.runners
    ok (elim caller [
      | none ↦ (s, none)
      | some (runners, row) ↦
          let (jobs, recorded) = finish job_id row.runner_id o now s.jobs in
          (record s { runners = runners; jobs = jobs }, some recorded)
    ])

-- The long poll ends at the latest in the first round that reaches the deadline: with a job, or
-- with none.
pub poll-ends :
    (runner_id : Text) (labels : List Text) (lease_seconds max_attempts deadline : ℕ)
    (rounds : List Round) (jobs : Rows)
    → any (λ r. leb deadline r.monotonic) rounds ≡ true
    → (poll runner_id labels lease_seconds max_attempts deadline rounds jobs).1 ≢ is_waiting
unfolding poll
poll-ends runner_id labels lease_seconds max_attempts deadline [] jobs h e = absurd (false≢true h)
poll-ends runner_id labels lease_seconds max_attempts deadline (r ∷ rounds) jobs h e =
    elim (Option-cases (claim runner_id labels lease_seconds max_attempts r.now jobs).1) [
      | inr (j, handed) ↦ cc (rw (handed, poll) at e)
      | inl nothing ↦ elim (Bool-cases (leb deadline r.monotonic)) [
        | inl late ↦ cc (rw (nothing, late, poll) at e)
        | inr early ↦
            poll-ends runner_id labels lease_seconds max_attempts deadline rounds _ (rw early at h)
              (rw (nothing, early, poll) at e)
      ]
    ]

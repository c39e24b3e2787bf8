-- ===== src/Client/Protocol.antt =====
-- The calls of a test server against the handlers of the edge, there and back: client.py of the
-- test server, and app.py of the edge.
use slack_runtests.Edge.Polling.{result, ClaimReply, Round, claim_request}
use slack_runtests.Edge.{started, heartbeat, EdgeConfig, State, valid_runner_id}
use slack_runtests.Store.Rows.{Outcome}
use slack_runtests.Client.Calls.{heartbeat_call, started_call, claim_call, result_call}
use slack_runtests.Prelude.{
  Bool, List, Option, Text, codes, none, some, true, ℕ, ◌*◌, ◌++◌, ◌+◌, ◌<◌, ◌^◌, ◌≡◌, ◌≤◌,
}
use slack_runtests.Client.{Called, EdgeClient, request_of}
use slack_runtests.Python.{Bytes, Result, ok, raised}
use slack_runtests.Identity.{Crypto, public_b64}
use slack_runtests.Store.Runners.{RunnerRow, RunnerRows, runner}
use slack_runtests.Edge.Wire.{Intervals, Told, claim_response, reply_response, result_response}

-- A clock that is at most 299 seconds behind and at most 300 seconds ahead of another; and its time
-- is one of 20 digits at most.
abbrev pub IsNear : ℕ → ℕ → Type 0
IsNear sent_at now =
    (sent_at < 10 ^ 20) × (now ≤ sent_at + 299 * 1000000) × (sent_at ≤ now + 300 * 1000000)

module _ (c : Crypto) (beyond : ℕ → Bool) (dumps : Told → Bytes) (J : Type 0)
    (json_of : Bytes → Option J) (edge_key_of : J → Result Text) (client : EdgeClient c)
    (edge_key : c.Key) where
  -- The times of a call: by the clock of the test server, that of the edge, and back.
  pub record Times : Type 0 where
    pub sent_at : ℕ
    pub now : ℕ
    pub replied_at : ℕ
    pub read_at : ℕ

  abbrev pub AreNear : Times → Type 0
  AreNear t = IsNear t.sent_at t.now × IsNear t.replied_at t.read_at

  -- A handler answers, and the client reads the answer.
  abbrev pub and_read : {R A : Type 0} → Result (State × R) → (R → A) → Result (State × A)
  and_read (ok (s, reply)) reads = ok (s, reads reply)
  and_read (raised x) reads = raised x

  module _ (t : Times) where
    -- `heartbeat` of the client, answered by `heartbeat` of the edge.
    unfoldable pub heartbeat_exchange :
        EdgeConfig → Intervals → Bytes → State → Result (State × Called J)
    unfolding reply_response
    heartbeat_exchange cfg intervals body s =
        and_read
          (heartbeat c beyond cfg (request_of c client (codes "/runner/heartbeat") body t.sent_at)
            t.now s)
          (λ reply.
            heartbeat_call c J json_of edge_key_of client
              (some (reply_response c dumps edge_key t.replied_at client.runner_id intervals reply))
              t.read_at)

    abbrev pub read_answer : ClaimReply → Option (Called (Option J))
    read_answer reply = elim (claim_response c dumps edge_key t.replied_at reply) [
      | none ↦ none
      | some response ↦ some (claim_call c J json_of edge_key_of client (some response) t.read_at)
    ]

    -- `claim` of the client, answered by `claim` of the edge; none while the edge waits.
    unfoldable pub claim_exchange :
        EdgeConfig
        → ℕ
        → ℕ
        → Bytes
        → ℕ
        → List Round
        → State
        → Result (State × Option (Called (Option J)))
    unfolding claim_response
    claim_exchange cfg poll_timeout max_attempts body monotonic rounds s =
        and_read
          (claim_request c beyond cfg poll_timeout max_attempts
            (request_of c client (codes "/runner/jobs/claim") body t.sent_at) t.now monotonic rounds
            s)
          read_answer

    -- `started` of the client, answered by `started` of the edge.
    unfoldable pub started_exchange :
        Intervals → Text → Bytes → State → Result (State × Called (Unit {0}))
    unfolding reply_response
    started_exchange intervals job_id body s =
        and_read
          (started c beyond job_id
            (request_of c client (codes "/runner/jobs/" ++ job_id ++ codes "/started") body
              t.sent_at)
            t.now s)
          (λ reply.
            started_call c J json_of edge_key_of client
              (some (reply_response c dumps edge_key t.replied_at client.runner_id intervals reply))
              t.read_at)

    -- `result` of the client, answered by `result` of the edge, which reads the outcome.
    unfoldable pub result_exchange :
        Text → Outcome → Bytes → State → Result (State × Called (Unit {0}))
    unfolding result_response
    result_exchange job_id o body s =
        and_read
          (result c beyond job_id o
            (request_of c client (codes "/runner/jobs/" ++ job_id ++ codes "/result") body
              t.sent_at)
            t.now s)
          (λ recorded.
            result_call c J json_of edge_key_of client
              (some (result_response c dumps edge_key t.replied_at recorded)) t.read_at)

  -- The test server has a valid name, and the row is that of its name, with its key.
  pub record IsRegistered (rows : RunnerRows) (row : RunnerRow) : Type 0 where
    pub named : valid_runner_id beyond client.runner_id ≡ true
    pub registered : runner client.runner_id rows ≡ some row
    pub keyed : row.public_key ≡ public_b64 c client.key

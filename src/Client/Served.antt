-- ===== src/Client/Served.antt =====
-- What a registered test server meets at the edge: the exchanges of Client/Protocol.
use slack_runtests.Edge.Polling.{
  result, Polled, Round, answered_claim, claim_request, dispatched, is_waiting, no_content, poll,
}
use slack_runtests.Edge.{started, heartbeat, EdgeConfig, State, authenticate}
use slack_runtests.Store.Rows.{Outcome, Job}
use slack_runtests.Client.Calls.{heartbeat_call, started_call, claim_call, read, result_call}
use slack_runtests.Store.{finish, mark_running, renew}
use slack_runtests.Prelude.{
  Bool, Bool-cases, List, Option, Text, [], ap, codes, if◌then◌else◌, inl, inr, none, refl, some, ℕ,
  ℕ_discrete, ◌++◌, ◌+◌, ◌≡◌,
}
use slack_runtests.Client.{
  Called, EdgeClient, check_reply, edge_error, http_status, request_of, returned,
}
use slack_runtests.Python.{Bytes, ok, Result}
use slack_runtests.Identity.{Crypto, IsCrypto, public_b64}
use slack_runtests.Store.Runners.{RunnerRow, labels_of, touch}
use slack_runtests.Edge.Replies.{Response, signed}
use slack_runtests.Edge.Wire.{
  Intervals, Told, claim_response, job_told, renewed_told, reply_response, result_response,
}
use slack_runtests.Client.Laws.{authenticate-request_of, check_reply-signed}
use slack_runtests.Client.Protocol.{
  AreNear, IsRegistered, Times, claim_exchange, heartbeat_exchange, read_answer, result_exchange,
  started_exchange,
}

-- What the client makes of the end of a long poll.
abbrev pub taken : {J : Type 0} → (Job → J) → Polled → Option (Called (Option J))
taken shown (dispatched j) = some (returned (some (shown j)))
taken shown no_content = some (returned none)
taken shown is_waiting = none

module _ (c : Crypto) (beyond : ℕ → Bool) (dumps : Told → Bytes) (J : Type 0)
    (json_of : Bytes → Option J) (edge_key_of : J → Result Text) (client : EdgeClient c)
    (edge_key : c.Key) where
  module _ (laws : IsCrypto c) (known : client.edge_public_key ≡ public_b64 c edge_key)
      (t : Times c beyond dumps J json_of edge_key_of client edge_key)
      (near : AreNear c beyond dumps J json_of edge_key_of client edge_key t) (s : State)
      (row : RunnerRow)
      (there : IsRegistered c beyond dumps J json_of edge_key_of client edge_key s.runners
        row) where
    -- The edge knows the caller.
    arrives :
        (path : Text) (body : Bytes)
        → authenticate c beyond (request_of c client path body t.sent_at) t.now s.runners
          ≡ ok (some (touch client.runner_id t.now s.runners, row))
    arrives path body =
        authenticate-request_of c laws beyond client path body t.sent_at t.now s.runners row
          there.named there.registered there.keyed near.0.0 near.0.1 near.0.2

    -- The client trusts the reply.
    returns :
        (body : Bytes) (status : ℕ)
        → check_reply c client (signed c edge_key body status t.replied_at) t.read_at ≡ returned tt
    returns body status =
        check_reply-signed c laws client edge_key body status t.replied_at t.read_at known near.1.0
          near.1.1 near.1.2

    abbrev reply : Bytes → ℕ → Response
    reply body status = signed c edge_key body status t.replied_at

    decoded :
        (body : Bytes) (status : ℕ) (payload : J)
        → json_of body ≡ some payload
        → read c J json_of edge_key_of (reply body status) ≡ returned payload
    unfolding signed
    decoded body status payload reads = rw (reads, read) refl

    heard_heartbeat :
        (body : Bytes) (payload : J)
        → json_of body ≡ some payload
        → heartbeat_call c J json_of edge_key_of client (some (reply body 200)) t.read_at
          ≡ returned payload
    unfolding heartbeat_call signed ℕ_discrete
    heard_heartbeat body payload reads = rw (returns body 200) (decoded body 200 payload reads)

    got_job :
        (body : Bytes) (payload : J)
        → json_of body ≡ some payload
        → claim_call c J json_of edge_key_of client (some (reply body 200)) t.read_at
          ≡ returned (some payload)
    unfolding claim_call signed ℕ_discrete
    got_job body payload reads = rw (returns body 200) (rw (decoded body 200 payload reads) refl)

    got_none :
        claim_call c J json_of edge_key_of client (some (reply [] 204)) t.read_at ≡ returned none
    unfolding claim_call signed ℕ_discrete
    got_none = rw (returns [] 204) refl

    -- A heartbeat of a registered test server renews its leases and is recorded, and the client
    -- reads how many.
    pub heartbeat_exchange-served :
        (cfg : EdgeConfig) (intervals : Intervals) (body : Bytes) (payload : J)
        → let (jobs, renewed) = renew row.runner_id cfg.lease_seconds t.now s.jobs in
          json_of (dumps (renewed_told renewed)) ≡ some payload
          → heartbeat_exchange c beyond dumps J json_of edge_key_of client edge_key t cfg intervals
              body s
            ≡ ok (
              record { jobs = jobs; runners = touch client.runner_id t.now s.runners },
              returned payload,
            )
    unfolding heartbeat_exchange heartbeat reply_response
    heartbeat_exchange-served cfg intervals body payload reads =
        rw (arrives (codes "/runner/heartbeat") body) (rw (heard_heartbeat _ payload reads) refl)

    got_polled :
        (shown : Job → J) (polled : Polled)
        → ((j : Job) → json_of (dumps (job_told j)) ≡ some (shown j))
        → read_answer c beyond dumps J json_of edge_key_of client edge_key t (answered_claim polled)
          ≡ taken shown polled
    unfolding claim_response
    got_polled shown (dispatched j) reads = ap some (got_job (dumps (job_told j)) _ (reads j))
    got_polled shown no_content reads = ap some got_none
    got_polled shown is_waiting reads = refl

    -- A registered test server that asks for work is handed the job that the long poll of the edge
    -- ends with, or none if it ends with none, as it reads the JSON text of the job.
    pub claim_exchange-served :
        (shown : Job → J) (cfg : EdgeConfig) (poll_timeout max_attempts : ℕ) (body : Bytes)
        (monotonic : ℕ) (rounds : List Round)
        → ((j : Job) → json_of (dumps (job_told j)) ≡ some (shown j))
        → let (jobs, polled) =
            poll row.runner_id
              (labels_of row.labels)
              cfg.lease_seconds
              max_attempts
              (monotonic + poll_timeout)
              rounds
              s.jobs in
          claim_exchange c beyond dumps J json_of edge_key_of client edge_key t cfg poll_timeout
            max_attempts body monotonic rounds s
          ≡ ok (
            record { jobs = jobs; runners = touch client.runner_id t.now s.runners },
            taken shown polled,
          )
    unfolding claim_exchange claim_request
    claim_exchange-served shown cfg poll_timeout max_attempts body monotonic rounds reads =
        rw (arrives (codes "/runner/jobs/claim") body) (
          rw
            (got_polled shown
              (poll row.runner_id (labels_of row.labels) cfg.lease_seconds max_attempts
                (monotonic + poll_timeout) rounds s.jobs).1
              reads)
            refl)

    -- The client takes it that a job has started, also where the edge refuses that with 409.
    pub started_exchange-served :
        (intervals : Intervals) (job_id : Text) (body : Bytes)
        → started_exchange c beyond dumps J json_of edge_key_of client edge_key t intervals job_id
            body s
          ≡ ok (
            record {
              jobs = (mark_running job_id row.runner_id t.now s.jobs).0;
              runners = touch client.runner_id t.now s.runners;
            },
            returned tt,
          )
    unfolding started_exchange started started_call reply_response
    started_exchange-served intervals job_id body =
        rw (arrives (codes "/runner/jobs/" ++ job_id ++ codes "/started") body, returns) refl

    -- A result of a registered test server ends well if the edge records it, and with the status
    -- 409 otherwise.
    pub result_exchange-served :
        (job_id : Text) (o : Outcome) (body : Bytes)
        → let (jobs, recorded) = finish job_id row.runner_id o t.now s.jobs in
          result_exchange c beyond dumps J json_of edge_key_of client edge_key t job_id o body s
          ≡ ok (
            record { jobs = jobs; runners = touch client.runner_id t.now s.runners },
            (if recorded then returned tt else edge_error (http_status 409)),
          )
    unfolding result_exchange result result_call result_response signed ℕ_discrete
    result_exchange-served job_id o body =
        elim (Bool-cases (finish job_id row.runner_id o t.now s.jobs).1) [
          | inl yes_it ↦
              rw
                (arrives (codes "/runner/jobs/" ++ job_id ++ codes "/result") body, yes_it, returns)
                refl
          | inr no_it ↦
              rw (arrives (codes "/runner/jobs/" ++ job_id ++ codes "/result") body, no_it, returns)
                refl
        ]

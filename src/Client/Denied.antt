-- ===== src/Client/Denied.antt =====
-- A test server that the edge does not know, or no longer knows, and that kept the key of the edge.
use slack_runtests.Edge.Polling.{result, Round, claim_request}
use slack_runtests.Edge.{started, heartbeat, EdgeConfig, State, authenticate, valid_runner_id}
use slack_runtests.Store.Rows.{Outcome}
use slack_runtests.Client.Calls.{heartbeat_call, started_call, claim_call, result_call}
use slack_runtests.Prelude.{
  Bool, Bool-cases, List, Option, Text, Text-discrete, codes, false, inl, inr, is_empty, none, refl,
  some, ℕ, ◌++◌, ◌≡◌,
}
use slack_runtests.Client.{EdgeClient, check_reply, edge_error, not_signed, request_of}
use slack_runtests.Python.{Bytes, ok, Result}
use slack_runtests.Identity.{Crypto, verify_reply}
use slack_runtests.Store.Runners.{runner}
use slack_runtests.Edge.Replies.{Response}
use slack_runtests.Edge.Wire.{
  Intervals, Told, claim_response, denial, reply_response, result_response,
}
use slack_runtests.Client.Protocol.{
  Times, claim_exchange, heartbeat_exchange, result_exchange, started_exchange,
}

module _ (c : Crypto) (beyond : ℕ → Bool) (dumps : Told → Bytes) (J : Type 0)
    (json_of : Bytes → Option J) (edge_key_of : J → Result Text) (client : EdgeClient c)
    (edge_key : c.Key) (t : Times c beyond dumps J json_of edge_key_of client edge_key) where
  denied :
      (path : Text) (body : Bytes) (s : State)
      → runner client.runner_id s.runners ≡ none
      → authenticate c beyond (request_of c client path body t.sent_at) t.now s.runners ≡ ok none
  unfolding authenticate request_of Text-discrete
  denied path body s nowhere = elim (Bool-cases (valid_runner_id beyond client.runner_id)) [
    | inl well ↦ rw (well, nowhere) refl
    | inr ill ↦ rw ill refl
  ]

  -- An unsigned reply.
  distrusted :
      (response : Response)
      → is_empty client.edge_public_key ≡ false
      → response.headers (codes "X-Edge-Timestamp") ≡ none
      → check_reply c client response t.read_at ≡ edge_error not_signed
  unfolding check_reply verify_reply
  distrusted response kept bare = rw (kept, bare) refl

  -- A test server that keeps a key of the edge, and whose name the edge does not know, is told by
  -- every call but the enrolment that the reply is not correctly signed, and never the status 401;
  -- the edge changes nothing.
  pub denied_calls :
      (s : State) (body : Bytes)
      → is_empty client.edge_public_key ≡ false
      → runner client.runner_id s.runners ≡ none
      → ((cfg : EdgeConfig) (intervals : Intervals)
          → heartbeat_exchange c beyond dumps J json_of edge_key_of client edge_key t cfg intervals
              body s
            ≡ ok (s, edge_error not_signed))
        × ((cfg : EdgeConfig) (poll_timeout max_attempts monotonic : ℕ) (rounds : List Round)
            → claim_exchange c beyond dumps J json_of edge_key_of client edge_key t cfg poll_timeout
                max_attempts body monotonic rounds s
              ≡ ok (s, some (edge_error not_signed)))
        × ((intervals : Intervals) (job_id : Text)
            → started_exchange c beyond dumps J json_of edge_key_of client edge_key t intervals
                job_id body s
              ≡ ok (s, edge_error not_signed))
        × ((job_id : Text) (o : Outcome)
            → result_exchange c beyond dumps J json_of edge_key_of client edge_key t job_id o body s
              ≡ ok (s, edge_error not_signed))
  unfolding heartbeat_exchange heartbeat heartbeat_call reply_response claim_exchange claim_request
      claim_call claim_response started_exchange started started_call result_exchange result
      result_call result_response
  denied_calls s body kept nowhere = (
    λ cfg intervals.
        rw
          (
            denied (codes "/runner/heartbeat") body s nowhere,
            distrusted (denial c dumps edge_key t.replied_at) kept refl,
          )
          refl,
    λ cfg poll_timeout max_attempts monotonic rounds.
        rw
          (
            denied (codes "/runner/jobs/claim") body s nowhere,
            distrusted (denial c dumps edge_key t.replied_at) kept refl,
          )
          refl,
    λ intervals job_id.
        rw
          (
            denied (codes "/runner/jobs/" ++ job_id ++ codes "/started") body s nowhere,
            distrusted (denial c dumps edge_key t.replied_at) kept refl,
          )
          refl,
    λ job_id o.
        rw
          (
            denied (codes "/runner/jobs/" ++ job_id ++ codes "/result") body s nowhere,
            distrusted (denial c dumps edge_key t.replied_at) kept refl,
          )
          refl,
  )

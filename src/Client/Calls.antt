-- ===== src/Client/Calls.antt =====
-- test-server/test_server/client.py: `enroll`, `heartbeat`, `claim`, `started` and `result`.
-- `json_of` is `response.json()`, none where it raises; `edge_key_of` is the text of the value of
-- `edge_public_key`, empty where an object has none, and an exception where there is no object.
use slack_runtests.Prelude.{
  Option, Text, if◌then◌else◌, is_empty, none, not, some, ℕ, ◌&&◌, ◌==◌, text_eq, nat_eq, int_eq,
  option_eq,
}
use slack_runtests.Client.{
  Answer, Called, EdgeClient, check_reply, edge_error, expect_200, failed_with, http_status,
  refused_runner, returned, sent, unreachable, wrong_fingerprint, ◌>>=◌,
}
use slack_runtests.Python.{Bytes, value_error, Result, ok, raised}
use slack_runtests.Identity.{Crypto, fingerprint}
use slack_runtests.Edge.Replies.{Response}

module _ (c : Crypto) (J : Type 0) (json_of : Bytes → Option J)
    (edge_key_of : J → Result Text) where
  -- `response.json()`
  abbrev pub read : Response → Called J
  read response = elim (json_of response.content) [
    | none ↦ failed_with value_error
    | some data_read ↦ returned data_read
  ]

  -- `enroll` behind the test of the fingerprint: the key is kept, and then the reply is checked.
  abbrev pub adopt : EdgeClient c → Response → J → Text → ℕ → EdgeClient c × Called J
  adopt client response payload edge_key now =
      let client' = record client { edge_public_key = edge_key } in
      (client', check_reply c client' response now >>= λ _. returned payload)

  -- `enroll`: the client afterwards, and how it ends.
  unfoldable pub enroll_call : EdgeClient c → Answer → ℕ → EdgeClient c × Called J
  enroll_call client none now = (client, edge_error unreachable)
  enroll_call client (some response) now =
      if response.status == 401
      then (client, edge_error refused_runner)
      else if not (response.status == 200)
      then (client, edge_error (http_status response.status))
      else elim (read response) [
        | failed_with x ↦ (client, failed_with x)
        | edge_error r ↦ (client, edge_error r)
        | returned payload ↦ elim (edge_key_of payload) [
          | raised x ↦ (client, failed_with x)
          | ok edge_key ↦
              if not (is_empty client.pinned_fingerprint)
                && not (fingerprint c edge_key == client.pinned_fingerprint)
              then (client, edge_error wrong_fingerprint)
              else adopt client response payload edge_key now
        ]
      ]

  -- `heartbeat`
  unfoldable pub heartbeat_call : EdgeClient c → Answer → ℕ → Called J
  heartbeat_call client answer now = do
    response ← sent c answer
    checked ← check_reply c client response now
    right ← expect_200 c response
    read response

  -- `claim`: a job, or none when the wait expired.
  unfoldable pub claim_call : EdgeClient c → Answer → ℕ → Called (Option J)
  claim_call client answer now = do
    response ← sent c answer
    checked ← check_reply c client response now
    if response.status == 204
        then returned none
        else do right ← expect_200 c response; job ← read response; returned (some job)

  -- `started`, which asks nothing of the status.
  unfoldable pub started_call : EdgeClient c → Answer → ℕ → Called (Unit {0})
  started_call client answer now = do response ← sent c answer; check_reply c client response now

  -- `result`
  unfoldable pub result_call : EdgeClient c → Answer → ℕ → Called (Unit {0})
  result_call client answer now = do
    response ← sent c answer
    checked ← check_reply c client response now
    expect_200 c response

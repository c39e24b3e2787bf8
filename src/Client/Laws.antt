-- ===== src/Client/Laws.antt =====
-- The calls of a test server against the handlers of the edge: what one signs, the other accepts.
use slack_runtests.Identity.{
  max_age_seconds, Crypto, IsCrypto, public_b64, sign_reply, verify_reply,
}
use slack_runtests.Prelude.{
  Bool, Bool-cases, Text, Text-discrete, [], arith, codes, false, inl, inr, is_empty, leb,
  or_default, pos, refl, some, subst, sym, true, ℕ, ◌*◌, ◌+◌, ◌-◌, ◌/◌, ◌<◌, ◌^◌, ◌≡◌, ◌≤◌,
}
use slack_runtests.Client.{EdgeClient, check_reply, request_of, returned}
use slack_runtests.Python.{Bytes, IsFresh, age, distance, float_limit, ok, parse_int}
use slack_runtests.Decimal.{parse_int-show, show}
use slack_runtests.Identity.Laws.{verify-sign, verify_reply-sign_reply}
use slack_runtests.Store.Queries.{beyond}
use slack_runtests.Store.Runners.{RunnerRow, RunnerRows, runner, touch}
use slack_runtests.Edge.{authenticate, valid_runner_id, verify_signed}
use slack_runtests.Edge.Replies.{Response, signed, time_stamp}

-- A time stamp of a clock that differs by less than about five minutes is fresh.
pub time_stamp-IsFresh :
    (sent_at now : ℕ)
    → sent_at < 10 ^ 20
    → now ≤ sent_at + 299 * 1000000
    → sent_at ≤ now + 300 * 1000000
    → IsFresh (time_stamp sent_at) now max_age_seconds
unfolding age distance
time_stamp-IsFresh sent_at now small late early =
    let q = sent_at / 1000000 in
    let below : q * 1000000 ≤ sent_at = omega arith in
    let above : sent_at < q * 1000000 + 1000000 = omega arith in
    let read_back : parse_int (show q) ≡ some (pos q) =
      parse_int-show 20 q (omega arith) (omega arith) in
    let tiny : leb float_limit q ≡ false = ground arith in
    elim (Bool-cases (leb now (q * 1000000))) [
      | inl ahead ↦ (pos q, read_back, (q * 1000000 - now, rw (tiny, ahead) refl, omega arith))
      | inr behind ↦ (pos q, read_back, (now - q * 1000000, rw (tiny, behind) refl, omega arith))
    ]

module _ (c : Crypto) (laws : IsCrypto c) where
  -- A request of a test server that has a valid name and is registered with its key is accepted by
  -- the edge, if the clock of the test server is at most 299 seconds behind and at most 300 seconds
  -- ahead of that of the edge; and then the test server has been seen. The time is one of 20 digits
  -- at most.
  pub authenticate-request_of :
      (beyond : ℕ → Bool) (client : EdgeClient c) (path : Text) (body : Bytes) (sent_at now : ℕ)
      (rows : RunnerRows) (row : RunnerRow)
      → valid_runner_id beyond client.runner_id ≡ true
      → runner client.runner_id rows ≡ some row
      → row.public_key ≡ public_b64 c client.key
      → sent_at < 10 ^ 20
      → now ≤ sent_at + 299 * 1000000
      → sent_at ≤ now + 300 * 1000000
      → authenticate c beyond (request_of c client path body sent_at) now rows
        ≡ ok (some (touch client.runner_id now rows, row))
  unfolding authenticate request_of verify_signed touch Text-discrete
  authenticate-request_of beyond client path body sent_at now rows row named registered key small
        late early =
      rw
        (
          named,
          registered,
          key,
          verify-sign c laws client.key (codes "POST") path (time_stamp sent_at) body now
              max_age_seconds (time_stamp-IsFresh sent_at now small late early),
        )
        refl

  check_reply-verified :
      (client : EdgeClient c) (response : Response) (now : ℕ)
      → verify_reply c client.edge_public_key
          (or_default (response.headers (codes "X-Edge-Timestamp")) [])
          (or_default (response.headers (codes "X-Edge-Signature")) [])
          response.content
          now
          max_age_seconds
        ≡ ok true
      → check_reply c client response now ≡ returned tt
  unfolding check_reply
  check_reply-verified client response now fine =
      elim (Bool-cases (is_empty client.edge_public_key)) [
        | inl empty ↦ rw empty refl
        | inr full ↦ rw (full, fine) refl
      ]

  -- A reply that the edge signed passes the check of a client that knows the key of the edge, if
  -- the clock of the edge is at most 299 seconds behind and at most 300 seconds ahead of that of
  -- the client. The time is one of 20 digits at most.
  pub check_reply-signed :
      (client : EdgeClient c) (edge_key : c.Key) (body : Bytes) (status sent_at now : ℕ)
      → client.edge_public_key ≡ public_b64 c edge_key
      → sent_at < 10 ^ 20
      → now ≤ sent_at + 299 * 1000000
      → sent_at ≤ now + 300 * 1000000
      → check_reply c client (signed c edge_key body status sent_at) now ≡ returned tt
  unfolding signed Text-discrete
  check_reply-signed client edge_key body status sent_at now known small late early =
      check_reply-verified client (signed c edge_key body status sent_at) now (
        subst
          (λ key.
            verify_reply c key (time_stamp sent_at)
              (sign_reply c edge_key (time_stamp sent_at) body) body now max_age_seconds
            ≡ ok true)
          (sym known)
          (verify_reply-sign_reply c laws edge_key (time_stamp sent_at) body now max_age_seconds
            (time_stamp-IsFresh sent_at now small late early)))

-- ===== src/Edge.antt =====
-- edge/edge_server/auth.py and the door for test servers in edge/edge_server/app.py, on the state
-- of the edge: the rows of its two tables. A handler takes here what was read from the payload,
-- and returns what it replies; Edge/Payload has the reading, Edge/Wire the writing.
pub mod Slack
pub mod Replies
pub mod Fleet
pub mod Idempotent
pub mod Payload
pub mod Polling
pub mod Laws
pub mod Keys
pub mod System
pub mod Texts
pub mod Trusted
pub mod Wire
mod Tests
use slack_runtests.Prelude.{
  Bool, List, Option, Text, [], all_chars, codes, false, if◌then◌else◌, is_empty, length, ltb, none,
  not, or_default, some, ℕ, ◌==◌, ◌||◌, nat_eq, text_eq, int_eq, option_eq,
}
use slack_runtests.Strings.{is_alnum}
use slack_runtests.Python.{Bytes, Result, compare_digest, ok, ◌>>=◌}
use slack_runtests.Signature.{max_age_seconds}
use slack_runtests.Identity.{Crypto, verify}
use slack_runtests.Store.{Rows, mark_running, renew}
use slack_runtests.Store.Queries.{beyond}
use slack_runtests.Store.Runners.{RunnerRow, RunnerRows, enrol, runner, touch}
use slack_runtests.Store.Rows.{state_eq}

pub record State : Type 0 where
  pub jobs : Rows
  pub runners : RunnerRows

-- What the handlers read of the configuration.
pub record EdgeConfig : Type 0 where
  pub lease_seconds : ℕ
  pub enroll_token : Text

-- What the handlers read of a request.
pub record Request : Type 0 where
  pub method : Text
  pub path : Text
  pub headers : Text → Option Text
  pub body : Bytes

-- What the payload of an enrolment gives.
pub record Enrolment : Type 0 where
  pub runner_id : Text
  pub public_key : Text
  pub labels : List Text
  pub token : Text

-- The replies: refusals, and those that the edge signs.
pub data Reply : Type 0 where
  unauthorised bad_request welcome : Reply
  leases_renewed : ℕ → Reply
  is_started : Bool → Reply

-- `identity_token_ok`
unfoldable pub identity_token_ok : Text → Text → Result Bool
identity_token_ok presented expected =
    if is_empty presented then ok false else compare_digest presented expected

-- Is the key one that this test server may enrol with? `trusted` is what the directory of
-- pre-authorised keys holds for it.
pub may_enrol : Text → Enrolment → Option RunnerRow → Option Text → Result Bool
unfolding identity_token_ok
may_enrol enroll_token e (some known) trusted = ok (known.public_key == e.public_key)
may_enrol enroll_token e none (some key) = ok (key == e.public_key)
may_enrol enroll_token e none none =
    if is_empty enroll_token then ok false else identity_token_ok e.token enroll_token

-- `beyond` is `str.isalnum` of the characters that are not ASCII.
unfoldable pub valid_runner_id : (ℕ → Bool) → Text → Bool
unfolding is_alnum
valid_runner_id beyond runner_id =
    if is_empty runner_id || ltb 64 (length runner_id)
    then false
    else all_chars (λ d. is_alnum beyond d || d == b'-' || d == b'_') runner_id

module _ (c : Crypto) (beyond : ℕ → Bool) where
  unfoldable pub verify_signed : Text → Request → ℕ → Result Bool
  verify_signed public_key_b64 r now =
      verify c public_key_b64 r.method r.path
        (or_default (r.headers (codes "X-Runner-Timestamp")) [])
        (or_default (r.headers (codes "X-Runner-Signature")) []) r.body now max_age_seconds

  -- `_authenticate`: the row of the test server that calls, and the registry with its visit.
  unfoldable pub authenticate : Request → ℕ → RunnerRows → Result (Option (RunnerRows × RunnerRow))
  unfolding valid_runner_id
  authenticate r now rows =
      let runner_id = or_default (r.headers (codes "X-Runner-Id")) [] in
      if not (valid_runner_id beyond runner_id) then ok none else elim (runner runner_id rows) [
        | none ↦ ok none
        | some row ↦ do
          signed ← verify_signed row.public_key r now
          ok (if signed then some (touch runner_id now rows, row) else none)
      ]

  -- `enroll`, after the payload was read.
  unfoldable pub enroll :
      EdgeConfig → (Text → Option Text) → Request → Enrolment → ℕ → State → Result (State × Reply)
  unfolding may_enrol valid_runner_id
  enroll cfg trusted r e now s =
      if not (valid_runner_id beyond e.runner_id) || is_empty e.public_key
      then ok (s, bad_request)
      else do
        possessed ← verify_signed e.public_key r now
        if not possessed then ok (s, unauthorised) else do
          fine ← may_enrol cfg.enroll_token e (runner e.runner_id s.runners) (trusted e.runner_id)
          ok (
              if fine
              then (
                record s { runners = enrol e.runner_id e.public_key e.labels now s.runners },
                welcome,
              )
              else (s, unauthorised))

  -- What a handler does for a test server that is who it says it is.
  abbrev pub answered :
      State → Option (RunnerRows × RunnerRow) → (State → Text → State × Reply) → State × Reply
  answered s none act = (s, unauthorised)
  answered s (some (rows, row)) act = act (record s { runners = rows }) row.runner_id

  unfoldable pub heartbeat : EdgeConfig → Request → ℕ → State → Result (State × Reply)
  unfolding authenticate
  heartbeat cfg r now s = do
    caller ← authenticate r now s.runners
    ok (
        answered s caller (λ t runner_id.
          let (jobs, renewed) = renew runner_id cfg.lease_seconds now t.jobs in
          (record t { jobs = jobs }, leases_renewed renewed)))

  unfoldable pub started : Text → Request → ℕ → State → Result (State × Reply)
  unfolding authenticate
  started job_id r now s = do
    caller ← authenticate r now s.runners
    ok (
        answered s caller (λ t runner_id.
          let (jobs, changed) = mark_running job_id runner_id now t.jobs in
          (record t { jobs = jobs }, is_started changed)))

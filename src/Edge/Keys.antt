-- ===== src/Edge/Keys.antt =====
-- The routes of the door for test servers in edge/edge_server/app.py, and the keys that the edge has
-- registered.
use slack_runtests.Prelude.{
  Bool, Bool-cases, List, Option, Option-cases, Text, Text-discrete, [], ap, arith, if◌then◌else◌,
  inl, inr, refl, some, sym, true, ℕ, ◌==◌, ◌∙◌, ◌∷◌, ◌≡◌, text_eq, int_eq, nat_eq, option_eq,
}
use slack_runtests.Edge.{
  EdgeConfig, Enrolment, Request, State, enroll, heartbeat, may_enrol, started,
}
use slack_runtests.Python.{Bytes, Result, Result-cases, ok, raised, ◌>>=◌}
use slack_runtests.Identity.{Crypto}
use slack_runtests.Store.Runners.{RunnerRow, runner, touch}
use slack_runtests.Store.Registry.{enrolled, runner-enrol, runner-touch}
use slack_runtests.Edge.Laws.{IsEnrollable, authenticate_cases, enroll_cases, enrolled_state}
use slack_runtests.Edge.Polling.{Round, claim_request}
use slack_runtests.Edge.Payload.{Numbers, Value, enroll_body, enrolment_of, loaded, result_body}
use slack_runtests.Edge.Payload.Laws.{result_body_cases}

-- The state after a handler: one that raises has changed nothing before, but for `result`.
abbrev pub settled : {R : Type 0} → State → Result (State × R) → State
settled s (ok (t, reply)) = t
settled s (raised x) = s

-- The test server `i` is registered with a key.
abbrev pub HasKey : Text → Text → State → Type 0
HasKey i key s = (row : RunnerRow) × (runner i s.runners ≡ some row) × (row.public_key ≡ key)

may_enrol-known :
    (token : Text) (e : Enrolment) (row : RunnerRow) (trusted : Option Text)
    → may_enrol token e (some row) trusted ≡ ok true
    → row.public_key ≡ e.public_key
unfolding may_enrol
may_enrol-known token e row trusted h = grind arith

touch-HasKey :
    (i key k : Text) (now : ℕ) (s : State)
    → HasKey i key s
    → HasKey i key (record s { runners = touch k now s.runners })
touch-HasKey i key k now s (row, e, same) = (
  if k == i then record row { last_seen = now } else row,
  runner-touch k i now s.runners ∙ rw e refl,
  elim (Bool-cases (k == i)) [ inl hit ↦ rw hit same | inr miss ↦ rw miss same ],
)

module _ (c : Crypto) (beyond : ℕ → Bool) (cfg : EdgeConfig) (trusted : Text → Option Text) where
  enrol-HasKey :
      (i key : Text) (r : Request) (e : Enrolment) (now : ℕ) (s : State)
      → IsEnrollable c beyond cfg trusted r e now s
      → HasKey i key s
      → HasKey i key (enrolled_state c beyond cfg trusted r e now s)
  enrol-HasKey i key r e now s h (row, found, same) = elim (Text-discrete e.runner_id i) [
    | no other ↦ (
      row,
      runner-enrol e.runner_id i e.public_key e.labels now s.runners ∙ ground (arith, found),
      same,
    )
    | yes hit ↦
        let here : runner e.runner_id s.runners ≡ some row =
          ap (λ k. runner k s.runners) hit ∙ found in
        (
          enrolled e.runner_id e.public_key e.labels now (some row),
          runner-enrol e.runner_id i e.public_key e.labels now s.runners
              ∙ rw here (ground (arith, hit)),
          sym (
                may_enrol-known cfg.enroll_token e row (trusted e.runner_id)
                  (rw here at h.permitted))
              ∙ same,
        )
  ]

  enroll-HasKey :
      (i key : Text) (r : Request) (e : Enrolment) (now : ℕ) (s : State)
      → HasKey i key s
      → HasKey i key (settled s (enroll c beyond cfg trusted r e now s))
  enroll-HasKey i key r e now s h = elim (enroll_cases c beyond cfg trusted r e now s) [
    | inl (x, raises) ↦ rw (raises, settled) h
    | inr (inl bad) ↦ rw (bad, settled) h
    | inr (inr (inl denied)) ↦ rw (denied, settled) h
    | inr (inr (inr (written, fine))) ↦ rw (written, settled) (enrol-HasKey i key r e now s fine h)
  ]

-- A request to the door, at a time: one of its five routes. A claim has the monotonic clock and the
-- rounds of its long poll.
pub data Call : Type 0 where
  enroll_route heartbeat_route : Request → ℕ → Call
  claim_route : Request → ℕ → ℕ → List Round → Call
  started_route result_route : Text → Request → ℕ → Call

-- The door, with the JSON reader and the configuration of the edge.
pub record Door : Type 1 where
  pub crypto : Crypto
  pub beyond : ℕ → Bool
  pub numbers : Numbers
  pub loads : Bytes → Option (Value numbers)
  pub zero_float : numbers.Float
  pub edge : EdgeConfig
  pub trusted : Text → Option Text
  pub poll_timeout : ℕ
  pub max_attempts : ℕ

module _ (d : Door) where
  abbrev pub serve : Call → State → State
  serve (enroll_route r now) s =
      settled s (enroll_body d.numbers d.crypto d.beyond d.loads d.edge d.trusted r now s)
  serve (heartbeat_route r now) s = settled s (heartbeat d.crypto d.beyond d.edge r now s)
  serve (claim_route r now monotonic rounds) s = settled s (
      claim_request d.crypto d.beyond d.edge d.poll_timeout d.max_attempts r now monotonic rounds s)
  serve (started_route job_id r now) s = settled s (started d.crypto d.beyond job_id r now s)
  serve (result_route job_id r now) s =
      (result_body d.numbers d.crypto d.beyond d.loads d.zero_float job_id r now s).0

  unfoldable pub served : List Call → State → State
  served [] s = s
  served (op ∷ ops) s = served ops (serve op s)

  module _ (i key : Text) where
    enroll_body-HasKey :
        (r : Request) (now : ℕ) (s : State)
        → HasKey i key s
        → HasKey i key (serve (enroll_route r now) s)
    unfolding enroll_body
    enroll_body-HasKey r now s h =
        elim (Option-cases (loaded d.numbers d.crypto d.beyond d.loads r.body)) [
          | inl unread ↦ rw (unread, enroll_body) h
          | inr (v, read_as) ↦ elim (Result-cases (enrolment_of d.numbers v)) [
            | inr (x, raises) ↦ rw (read_as, raises, enroll_body) h
            | inl (e, fine) ↦
                rw (read_as, fine, enroll_body, ◌>>=◌)
                  (enroll-HasKey d.crypto d.beyond d.edge d.trusted i key r e now s h)
          ]
        ]

    heartbeat-HasKey :
        (r : Request) (now : ℕ) (s : State)
        → HasKey i key s
        → HasKey i key (serve (heartbeat_route r now) s)
    unfolding heartbeat
    heartbeat-HasKey r now s h = elim (authenticate_cases d.crypto d.beyond r now s.runners) [
      | inl (x, raises) ↦ rw (raises, settled) h
      | inr (inl denied) ↦ rw (denied, settled) h
      | inr (inr (row, passes, caller)) ↦ rw (passes, settled) (touch-HasKey i key _ now s h)
    ]

    claim-HasKey :
        (r : Request) (now monotonic : ℕ) (rounds : List Round) (s : State)
        → HasKey i key s
        → HasKey i key (serve (claim_route r now monotonic rounds) s)
    unfolding claim_request
    claim-HasKey r now monotonic rounds s h =
        elim (authenticate_cases d.crypto d.beyond r now s.runners) [
          | inl (x, raises) ↦ rw (raises, settled) h
          | inr (inl denied) ↦ rw (denied, settled) h
          | inr (inr (row, passes, caller)) ↦ rw (passes, settled) (touch-HasKey i key _ now s h)
        ]

    started-HasKey :
        (job_id : Text) (r : Request) (now : ℕ) (s : State)
        → HasKey i key s
        → HasKey i key (serve (started_route job_id r now) s)
    unfolding started
    started-HasKey job_id r now s h = elim (authenticate_cases d.crypto d.beyond r now s.runners) [
      | inl (x, raises) ↦ rw (raises, settled) h
      | inr (inl denied) ↦ rw (denied, settled) h
      | inr (inr (row, passes, caller)) ↦ rw (passes, settled) (touch-HasKey i key _ now s h)
    ]

    result-HasKey :
        (job_id : Text) (r : Request) (now : ℕ) (s : State)
        → HasKey i key s
        → HasKey i key (serve (result_route job_id r now) s)
    result-HasKey job_id r now s h =
        elim (result_body_cases d.numbers d.crypto d.beyond d.loads d.zero_float job_id r now s) [
          | inl (x, raises, e) ↦ rw (e, serve) h
          | inr (inl (denied, e)) ↦ rw (e, serve) h
          | inr (inr (row, caller, inl (unread, e))) ↦ rw (e, serve) (touch-HasKey i key _ now s h)
          | inr (inr (row, caller, inr (v, read_as, inl (x, raises, e)))) ↦
              rw (e, serve) (touch-HasKey i key _ now s h)
          | inr (inr (row, caller, inr (v, read_as, inr (o, fine, e)))) ↦
              rw (e, serve) (touch-HasKey i key _ now s h)
        ]

    serve-HasKey : (op : Call) (s : State) → HasKey i key s → HasKey i key (serve op s)
    serve-HasKey (enroll_route r now) s h = enroll_body-HasKey r now s h
    serve-HasKey (heartbeat_route r now) s h = heartbeat-HasKey r now s h
    serve-HasKey (claim_route r now monotonic rounds) s h = claim-HasKey r now monotonic rounds s h
    serve-HasKey (started_route job_id r now) s h = started-HasKey job_id r now s h
    serve-HasKey (result_route job_id r now) s h = result-HasKey job_id r now s h

    -- Whatever requests reach the five routes of the door, whatever their bodies, a test server that
    -- is registered with a key stays registered with that key: no enrolment takes its name over.
    pub served-HasKey : (ops : List Call) (s : State) → HasKey i key s → HasKey i key (served ops s)
    unfolding served
    served-HasKey [] s h = h
    served-HasKey (op ∷ ops) s h = served-HasKey ops (serve op s) (serve-HasKey op s h)

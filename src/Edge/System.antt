-- ===== src/Edge/System.antt =====
-- Both doors of edge/edge_server/app.py: what requests of any kind, in any order, do to the edge.
pub mod Answers
pub mod Delivery
pub mod Handlers
pub mod Orders
pub mod Sample
pub mod Taken
mod Tests
mod TakenTests
use slack_runtests.Edge.Polling.{Round, result, ClaimReply, claim_request}
use slack_runtests.Store.Rows.{Outcome, Job}
use slack_runtests.Prelude.{All, Bool, List, Option, Text, is_empty, true, ℕ, ◌≡◌, ◌⊎◌}
use slack_runtests.Edge.{EdgeConfig, Enrolment, Reply, Request, State, enroll, heartbeat, started}
use slack_runtests.Python.{Bytes, IsFresh, ok}
use slack_runtests.Signature.{max_age_seconds, sign}
use slack_runtests.Forms.{parse_form}
use slack_runtests.Parsing.{Args, parse, parsed}
use slack_runtests.Gate.{Headers}
use slack_runtests.Gate.Entitled.{IsEntitled}
use slack_runtests.Gate.Laws.{signature_of, text_of, timestamp_of}
use slack_runtests.Identity.{Crypto}
use slack_runtests.Store.{job}
use slack_runtests.Store.Jobs.{IsFit}
use slack_runtests.Edge.Slack.{SlackConfig, SlackReply, job_for, slack_commands}

-- What does not change while the edge runs: its configuration, the pre-authorised keys, and the
-- code outside.
pub record Setting : Type 1 where
  pub c : Crypto
  pub beyond : ℕ → Bool
  pub hmac_hex : Bytes → Bytes → Text
  pub uuid12 : Text → Text
  pub slack : SlackConfig
  pub edge : EdgeConfig
  pub trusted : Text → Option Text
  pub max_attempts : ℕ
  pub poll_timeout : ℕ

module _ (g : Setting) where
  -- The job was ordered by a request at the Slack door that is signed if a secret is set, whose
  -- workspace, channel and person are allowed, and whose text the parser takes.
  pub record IsOrdered (j : Job) : Type 0 where
    pub body : Bytes
    pub headers : Headers
    pub now : ℕ
    pub args : Args
    pub is_signed :
        (is_empty g.slack.settings.signing_secret ≡ true)
        ⊎ (IsFresh (timestamp_of headers) now max_age_seconds
            × (signature_of headers
                ≡ sign g.hmac_hex body (timestamp_of headers) g.slack.settings.signing_secret))
    pub entitled : IsEntitled g.slack.settings (parse_form body)
    pub understood : parse (text_of (parse_form body)) ≡ ok (parsed args)
    pub job : j ≡ job_for g.hmac_hex g.uuid12 g.slack (parse_form body) args

  -- The calls that other requests make on the queue while a long poll waits.
  abbrev pub AreFit : List Round → Type 0
  AreFit = All (λ r. All (IsFit IsOrdered) r.others)

  -- One request at one of the doors, that is answered.
  pub data Step : State → State → Type 0 where
    commands :
        {s t : State} {reply : SlackReply} (body : Bytes) (headers : Headers) (now : ℕ)
        → slack_commands g.hmac_hex g.uuid12 g.slack body headers now s ≡ ok (t, reply)
        → Step s t
    enrols :
        {s t : State} {reply : Reply} (r : Request) (e : Enrolment) (now : ℕ)
        → enroll g.c g.beyond g.edge g.trusted r e now s ≡ ok (t, reply)
        → Step s t
    heartbeats :
        {s t : State} {reply : Reply} (r : Request) (now : ℕ)
        → heartbeat g.c g.beyond g.edge r now s ≡ ok (t, reply)
        → Step s t
    asks :
        {s t : State} {reply : ClaimReply} (r : Request) (now monotonic : ℕ) (rounds : List Round)
        → AreFit rounds
        → claim_request g.c g.beyond g.edge g.poll_timeout g.max_attempts r now monotonic rounds s
          ≡ ok (t, reply)
        → Step s t
    begins :
        {s t : State} {reply : Reply} (job_id : Text) (r : Request) (now : ℕ)
        → started g.c g.beyond job_id r now s ≡ ok (t, reply)
        → Step s t
    reports :
        {s t : State} {reply : Option Bool} (job_id : Text) (o : Outcome) (r : Request) (now : ℕ)
        → result g.c g.beyond job_id o r now s ≡ ok (t, reply)
        → Step s t

  pub data Reach (s : State) : State → Type 0 where
    here : Reach s s
    next : {t u : State} → Reach s t → Step t u → Reach s u

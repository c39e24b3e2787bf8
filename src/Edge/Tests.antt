-- ===== src/Edge/Tests.antt =====
-- The door for test servers at concrete requests, with a toy digest and toy signatures.
use slack_runtests.Prelude.{
  Bool, List, Text, Text-discrete, [], codes, false, if◌then◌else◌, is_empty, length, none, refl,
  some, ℕ, ℕ_discrete, ◌&&◌, ◌==◌, ◌∷◌, ◌≡◌, ◌≢◌, ◌⊎◌, option_eq, text_eq, nat_eq, int_eq,
}
use slack_runtests.Edge.{
  EdgeConfig, Enrolment, Request, State, authenticate, bad_request, enroll, identity_token_ok,
  unauthorised, welcome,
}
use slack_runtests.Strings.{is_space, starts_with, strip}
use slack_runtests.Python.{Bytes, Exn, compare_digest, is_ascii, ok, raised, type_error}
use slack_runtests.Forms.{Form, get}
use slack_runtests.Parsing.{Args}
use slack_runtests.Identity.{Crypto}
use slack_runtests.Store.History.{Op, claims, reaps, run}
use slack_runtests.Store.Runners.{RunnerRow, touch}
use slack_runtests.Edge.Laws.{
  IsCaller, IsEnrollable, authenticate_cases, enroll_cases, enrolled_state,
}
use slack_runtests.Edge.Slack.{SlackConfig, already_queued, commanded}
use slack_runtests.Edge.Idempotent.{slack_retry}
use slack_runtests.Edge.Polling.{Round, is_waiting, poll, poll-ends}
use slack_runtests.Edge.Fleet.{
  fleet, fleet_cases, not_found, overview, presented_token, remove_prefix,
}
use slack_runtests.Store.Rows.{state_eq}

abbrev toy : Crypto
toy = record {
  Key = Bytes;
  public_bytes = λ k. k;
  signature = λ k m. k;
  verifies = λ public_key sig m. public_key == sig;
  sha256_hex = λ m. if length m == 2 then codes "00ff" else codes "ab12";
}

abbrev ascii_only : ℕ → Bool
ascii_only d = false

abbrev one_server : State
one_server = record {
  jobs = [];
  runners =
      record {
        runner_id = codes "lab-1";
        public_key = codes "AAAA";
        labels = codes "dev";
        enrolled_at = 5;
        last_seen = 7;
      }
      ∷ [];
}

abbrev config : EdgeConfig
config = record { lease_seconds = 60000000; enroll_token = codes "token" }

abbrev request : Request
request = record {
  method = codes "POST";
  path = codes "/runner/enroll";
  headers = λ name.
      if name == codes "X-Runner-Id"
      then some (codes "lab-1")
      else if name == codes "X-Runner-Timestamp"
      then some (codes "100")
      else some (codes "BBBB");
  body = codes "{}";
}

-- Another key for the name that is taken, with the right token.
abbrev takeover : Enrolment
takeover = record {
  runner_id = codes "lab-1";
  public_key = codes "BBBB";
  labels = [];
  token = codes "token";
}

enroll_cases_sample :
    ((x : Exn) × (enroll toy ascii_only config (λ k. none) request takeover 101000000 one_server
        ≡ raised x))
    ⊎ (enroll toy ascii_only config (λ k. none) request takeover 101000000 one_server
        ≡ ok (one_server, bad_request))
    ⊎ (enroll toy ascii_only config (λ k. none) request takeover 101000000 one_server
        ≡ ok (one_server, unauthorised))
    ⊎ ((enroll toy ascii_only config (λ k. none) request takeover 101000000 one_server
          ≡ ok (
            enrolled_state toy ascii_only config (λ k. none) request takeover 101000000 one_server,
            welcome,
          ))
        × IsEnrollable toy ascii_only config (λ k. none) request takeover 101000000 one_server)
enroll_cases_sample =
    enroll_cases toy ascii_only config (λ k. none) request takeover 101000000 one_server

authenticate_cases_sample :
    ((x : Exn) × (authenticate toy ascii_only request 101000000 one_server.runners ≡ raised x))
    ⊎ (authenticate toy ascii_only request 101000000 one_server.runners ≡ ok none)
    ⊎ ((row : RunnerRow) × (authenticate toy ascii_only request 101000000 one_server.runners
          ≡ ok (some (touch (codes "lab-1") 101000000 one_server.runners, row)))
        × IsCaller toy ascii_only request 101000000 one_server.runners row)
unfolding Text-discrete ℕ_discrete
authenticate_cases_sample = authenticate_cases toy ascii_only request 101000000 one_server.runners

abbrev slack_config : SlackConfig
slack_config = record {
  settings = record {
    signing_secret = codes "key";
    allowed_team = [];
    allowed_channels = [];
    allowed_users = [];
  };
  default_channel = codes "ci";
  offline_after = 90000000;
}

abbrev command_form : Form
command_form = (codes "text", codes "-p webapp") ∷ (codes "trigger_id", codes "13.7") ∷ []

abbrev command_args : Args
command_args = record {
  action = codes "run";
  product = codes "webapp";
  server = codes "staging";
  select = none;
  marker = none;
}

abbrev toy_digest : Bytes → Bytes → Text
toy_digest key message = if length key == length message then codes "00ff" else codes "ab12"

abbrev calls : List Op
calls = claims (codes "lab-1") [] 120 ∷ reaps 400 ∷ []

slack_retry_example :
    commanded toy_digest
      (λ t. t)
      slack_config
      command_form
      command_args
      130
      (record one_server {
        jobs =
            run 60 3
              (commanded toy_digest
                (λ t. t)
                slack_config
                command_form
                command_args
                100
                one_server).0.jobs
              calls;
      })
    ≡ (
      record one_server {
        jobs =
            run 60 3
              (commanded toy_digest
                (λ t. t)
                slack_config
                command_form
                command_args
                100
                one_server).0.jobs
              calls;
      },
      already_queued (codes "13.7"),
    )
unfolding get Text-discrete ℕ_discrete
slack_retry_example =
    slack_retry toy_digest (λ t. t) slack_config command_form command_form command_args command_args
      100 130 one_server 60 3 calls refl refl refl

abbrev rounds : List Round
rounds =
    record { monotonic = 1; now = 100; others = calls }
    ∷ record { monotonic = 30; now = 130; others = [] }
    ∷ []

poll-ends_sample : (poll (codes "lab-1") [] 60 3 25 rounds []).1 ≢ is_waiting
poll-ends_sample = poll-ends (codes "lab-1") [] 60 3 25 rounds [] refl

fleet_cases_sample :
    (fleet (codes "BBBB") 90000000 request 101000000 one_server ≡ ok not_found)
    ⊎ ((fleet (codes "BBBB") 90000000 request 101000000 one_server ≡ raised type_error)
        × ((is_ascii (presented_token request) && is_ascii (codes "BBBB")) ≡ false))
    ⊎ ((fleet (codes "BBBB") 90000000 request 101000000 one_server
          ≡ ok (overview 90000000 101000000 one_server))
        × (is_empty (codes "BBBB") ≡ false)
        × (presented_token request ≡ codes "BBBB"))
fleet_cases_sample = fleet_cases (codes "BBBB") 90000000 request 101000000 one_server

shown_to_operator :
    fleet (codes "BBBB") 90000000 request 101000000 one_server
    ≡ ok (overview 90000000 101000000 one_server)
unfolding fleet presented_token remove_prefix starts_with strip is_space identity_token_ok
    compare_digest ℕ_discrete Text-discrete
shown_to_operator = refl

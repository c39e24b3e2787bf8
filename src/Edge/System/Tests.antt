-- ===== src/Edge/System/Tests.antt =====
-- Both doors of the edge at concrete requests, with a toy digest and toy signatures.
use slack_runtests.Identity.{verify, Crypto}
use slack_runtests.Edge.System.Sample.{
  args, body, no_headers, ordered, ordered_job, ordered_now, rounds, sample, toy_hex,
}
use slack_runtests.Prelude.{
  List, Text, Text-discrete, [], arith, codes, false, if◌then◌else◌, is_empty, none, not, pos, refl,
  some, ℕ_discrete, ◌==◌, ◌∷◌, ◌≡◌, option_eq, text_eq, nat_eq, int_eq,
}
use slack_runtests.Edge.{Request, State, authenticate, verify_signed}
use slack_runtests.Edge.System.{IsOrdered, Setting, asks, commands, here, next}
use slack_runtests.Python.{Bytes, age, encode, ok, parse_int}
use slack_runtests.Decimal.{show}
use slack_runtests.Forms.{get, parse_form}
use slack_runtests.Base64.{b64decode}
use slack_runtests.Store.Rows.{JobState-discrete, claimed, state_eq}
use slack_runtests.Store.{claim, enqueue}
use slack_runtests.Store.History.{Op, claims, enqueues, finishes, run}
use slack_runtests.Store.Jobs.{AllJobs}
use slack_runtests.Store.Consistent.{IsWellFormed}
use slack_runtests.Store.Runners.{RunnerRow, labels_of, runner, touch}
use slack_runtests.Edge.Laws.{IsCaller}
use slack_runtests.Edge.Slack.{commanded, queued_for}
use slack_runtests.Edge.Texts.{reply_text}
use slack_runtests.Edge.Polling.{answered_claim, claim_request, dispatched, poll}
use slack_runtests.Edge.System.Handlers.{IsHistory}
use slack_runtests.Edge.System.Orders.{Reach-IsHistory, Reach-IsWellFormed}
use slack_runtests.Agent.{validate}
use slack_runtests.Agent.Execute.{◌then◌}
use slack_runtests.Agent.Dispatch.{as_dispatch}
use slack_runtests.Edge.System.Delivery.{delivered-IsAccepted}

abbrev toy : Crypto
toy = record {
  Key = Bytes;
  public_bytes = λ k. k;
  signature = λ k m. k;
  verifies = λ public_key sig m. not (is_empty m);
  sha256_hex = λ m. codes "ab12";
}

abbrev here_only : Setting
here_only = sample toy

-- 32 bytes, and 64 bytes.
abbrev server_key : Text
server_key = codes "AAAAAAAAAAAAAAAAAAAAAAAAAAAAAAAAAAAAAAAAAAA="

abbrev server_signature : Text
server_signature =
    codes "AAAAAAAAAAAAAAAAAAAAAAAAAAAAAAAAAAAAAAAAAAAAAAAAAAAAAAAAAAAAAAAAAAAAAAAAAAAAAAAAAAAAAA=="

-- A registry with one test server, and no jobs.
abbrev start : State
start = record {
  jobs = [];
  runners =
      record {
        runner_id = codes "lab-1";
        public_key = server_key;
        labels = [];
        enrolled_at = 5;
        last_seen = 7;
      }
      ∷ [];
}

abbrev request : Request
request = record {
  method = codes "POST";
  path = codes "/runner/claim";
  headers = λ name.
      if name == codes "X-Runner-Id"
      then some (codes "lab-1")
      else if name == codes "X-Runner-Timestamp"
      then some (codes "100")
      else some server_signature;
  body = codes "{}";
}

-- The server has the job, and its visit is recorded.
abbrev handed_state : State
handed_state = record {
  jobs =
      record {
        job = ordered_job;
        created_at = 101000000;
        state = claimed;
        runner_id = some (codes "lab-1");
        lease_expires = some 162000000;
        attempts = 1;
        started_at = none;
        finished_at = none;
        exit_code = none;
        passed = none;
        failed = none;
        skipped = none;
        duration = none;
        summary = none;
      }
      ∷ [];
  runners =
      record {
        runner_id = codes "lab-1";
        public_key = server_key;
        labels = [];
        enrolled_at = 5;
        last_seen = 102000000;
      }
      ∷ [];
}

handed_now :
    claim_request toy
      (λ d. false)
      here_only.edge
      25000000
      3
      request
      102000000
      0
      rounds
      (ordered start).0
    ≡ ok (handed_state, answered_claim (dispatched ordered_job))
unfolding claim_request authenticate poll claim runner touch labels_of commanded parse_form get
    verify_signed verify parse_int age b64decode enqueue encode JobState-discrete Text-discrete
    ℕ_discrete
handed_now = refl

delivered-IsAccepted_sample :
    IsOrdered here_only ordered_job
    × ((row : RunnerRow) × IsCaller toy
          (λ d. false)
          request
          102000000
          (ordered start).0.runners
          row)
    × (validate (as_dispatch ordered_job) ≡ ok none)
unfolding Text-discrete ℕ_discrete
delivered-IsAccepted_sample =
    delivered-IsAccepted here_only toy_hex start (ordered start).0 handed_state request 102000000 0
      rounds ordered_job refl (omega arith)
      (next here (commands body no_headers 101000000 (ordered_now start))) (tt, tt) handed_now

Reach-IsHistory_example : IsHistory here_only start.jobs handed_state.jobs
Reach-IsHistory_example = Reach-IsHistory here_only toy_hex (
    next (next here (commands body no_headers 101000000 (ordered_now start)))
      (asks request 102000000 0 rounds (tt, tt) handed_now))

Reach-IsWellFormed_example :
    IsWellFormed 3 handed_state.jobs × AllJobs (IsOrdered here_only) handed_state.jobs
Reach-IsWellFormed_example =
    Reach-IsWellFormed here_only toy_hex
      (next (next here (commands body no_headers 101000000 (ordered_now start)))
        (asks request 102000000 0 rounds (tt, tt) handed_now))
      (omega arith) refl

reply_shown :
    reply_text (λ e. []) args 105000000 (queued_for 2 (codes "ab12") (codes "#ci"))
    ≡ ok (
        codes
          "⏳ Queued `webapp` on `staging` (`ab12`) — 2 test server(s) available. Results will post to #ci.")
unfolding reply_text show
reply_shown = refl

-- A job that was handed out and ended, with a duration.
abbrev past : List Op
past =
    enqueues ordered_job 99000000
    ∷ claims (codes "lab-1") [] 99500000
    ∷ finishes ordered_job.id (codes "lab-1")
        (record {
          exit_code = pos 1;
          passed = pos 2;
          failed = pos 1;
          skipped = pos 0;
          duration = some (pos 400000);
          summary = [];
        })
        100000000
    ∷ []

abbrev later : State
later = record start { jobs = run 60000000 3 [] past }

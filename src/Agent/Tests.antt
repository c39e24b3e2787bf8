-- ===== src/Agent/Tests.antt =====
-- A test server at concrete jobs.
use slack_runtests.Agent.Junit.{Node, counts_from_junit, digits_from, is_float}
use slack_runtests.Store.Rows.{Job}
use slack_runtests.Prelude.{
  All, List, Text-discrete, [], arith, codes, false, if◌then◌else◌, inl, none, pos, refl, some,
  true, ℕ_discrete, ◌==◌, ◌∷◌, ◌≡◌, text_eq, int_eq, nat_eq, option_eq,
}
use slack_runtests.Agent.{validate}
use slack_runtests.Strings.{is_digit, is_space, starts_with, strip}
use slack_runtests.Python.{key_error, ok}
use slack_runtests.Notifier.{Unicode}
use slack_runtests.Shlex.{shlex_split}
use slack_runtests.Parsing.{Args, expression_matches, parse, parsed}
use slack_runtests.Edge.Slack.{SlackConfig, job_for}
use slack_runtests.Local.{completed}
use slack_runtests.Client.{edge_error, returned, unreachable}
use slack_runtests.Reporter.{Payload, Shown, shown_of, text}
use slack_runtests.Agent.Execute.{AgentConfig, Meeting, died, execute, ◌then◌}
use slack_runtests.Agent.Laws.{TestCase, counts_from_junit-report, failing, passing, report_of}
use slack_runtests.Agent.Trust.{IsDue, execute-IsDue}
use slack_runtests.Agent.Dispatch.{as_dispatch, dispatched-IsAccepted}
use slack_runtests.Agent.Outcome.{execute_keyless}

abbrev plain : Unicode
plain = record { alnum = λ d. false; lower = λ d. false }

abbrev tests : List TestCase
tests =
    record {
      classname = codes "t.A";
      name = codes "x";
      more = (codes "time", codes "0.01") ∷ [];
      ending = failing (codes "no");
    }
    ∷ record { classname = []; name = codes "y"; more = []; ending = passing }
    ∷ []

abbrev report : Node
report =
    report_of ((codes "name", codes "pytest tests") ∷ [])
      ((codes "timestamp", codes "2026-01-01T00:00:00") ∷ (codes "hostname", codes "lab") ∷ []) 0 1
      0 2 (codes "0.041") tests

abbrev pub meeting : Meeting
meeting = record {
  outside = record { unicode = plain; variable = none; clock = 5 };
  machine = record { has_uv = true; executable = codes "python" };
  workdir = codes "/srv/tests";
  posting = λ s. none;
  suite_is_dir = true;
  ending = completed (pos 1) [];
  before = 0;
  after = 800000;
  report = some report;
  on_started = edge_error unreachable;
  on_result = λ n. if n == 0 then edge_error unreachable else returned tt;
}

abbrev pub config : AgentConfig
config = record { runner_id = codes "lab-1"; suite_root = codes "tests/sample" }

abbrev pub payload : Payload
payload = record {
  job_id = some (text (codes "abc"));
  product = some (text (codes "webapp"));
  server = some (text (codes "dev"));
  select = some (text (codes "smoke"));
  marker = none;
  slack_channel = some (text (codes "C1"));
}

abbrev shown : Shown
shown = record { product = codes "webapp"; server = codes "dev"; job_id = codes "abc" }

named : shown_of payload ≡ ok shown
unfolding shown_of
named = refl

counts_from_junit-report_example :
    counts_from_junit (some report)
    ≡ ok (record {
      passed = pos 1;
      failed = pos 1;
      skipped = pos 0;
      failed_ids = codes "t.A::x" ∷ [];
    })
counts_from_junit-report_example =
    counts_from_junit-report ((codes "name", codes "pytest tests") ∷ [])
      ((codes "timestamp", codes "2026-01-01T00:00:00") ∷ (codes "hostname", codes "lab") ∷ []) 0 1
      0 2 (codes "0.041") tests (omega arith) (omega arith) (omega arith) (omega arith)
      (omega arith)
      (unfold is_float digits_from is_digit strip is_space ℕ_discrete Text-discrete in refl)

execute-IsDue_example :
    All (IsDue config meeting payload shown) (execute config meeting payload).acts
execute-IsDue_example = execute-IsDue config meeting payload shown named

execute_keyless_sample : execute config meeting (record payload { product = none }) ≡ died key_error
execute_keyless_sample =
    execute_keyless config meeting (record payload { product = none }) (inl refl)

abbrev edge_job : Job
edge_job = record {
  id = codes "abc";
  product = codes "webapp";
  server = codes "dev";
  select_expr = some (codes "smoke");
  marker = none;
  slack_channel = codes "#x";
  slack_user = codes "U1";
}

abbrev edge_config : SlackConfig
edge_config = record {
  settings = record {
    signing_secret = codes "s";
    allowed_team = [];
    allowed_channels = [];
    allowed_users = [];
  };
  default_channel = codes "#x";
  offline_after = 90000000;
}

abbrev typed : Args
typed = record {
  action = codes "run";
  product = codes "webapp";
  server = codes "dev";
  select = some (codes "smoke");
  marker = none;
}

typed_line : parse (codes "-p webapp -s dev -k smoke") ≡ ok (parsed typed)
unfolding parse shlex_split expression_matches starts_with Text-discrete ℕ_discrete
typed_line = refl

dispatched-IsAccepted_sample :
    (validate (as_dispatch (job_for (λ k m. []) (λ t. codes "abc") edge_config [] typed)) ≡ ok none)
    × (shown_of (as_dispatch (job_for (λ k m. []) (λ t. codes "abc") edge_config [] typed))
        ≡ ok (record { product = codes "webapp"; server = codes "dev"; job_id = codes "abc" }))
dispatched-IsAccepted_sample =
    dispatched-IsAccepted (λ k m. []) (λ t. codes "abc") edge_config []
      (codes "-p webapp -s dev -k smoke") typed typed_line

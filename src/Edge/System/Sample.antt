-- ===== src/Edge/System/Sample.antt =====
-- A command at the Slack door of the edge, for the tests: a toy digest, and a registry as the test
-- wants it.
use slack_runtests.Prelude.{
  Bool-cases, List, Text, Text-discrete, [], codes, false, if◌then◌else◌, inl, inr, length, none,
  refl, true, ℕ_discrete, ◌==◌, ◌∷◌, ◌≡◌, text_eq, option_eq, nat_eq, int_eq,
}
use slack_runtests.Edge.{State}
use slack_runtests.Edge.System.{Setting}
use slack_runtests.Strings.{join, starts_with}
use slack_runtests.Python.{Bytes, is_ascii, ok}
use slack_runtests.Shlex.{shlex_split}
use slack_runtests.Forms.{get, parse_form}
use slack_runtests.Parsing.{Args, expression_matches, parse, parsed}
use slack_runtests.Gate.{Headers, check, judged}
use slack_runtests.Gate.Entitled.{IsEntitled}
use slack_runtests.Gate.Laws.{check_passes, text_of}
use slack_runtests.Identity.{Crypto}
use slack_runtests.Store.Rows.{Job, state_eq}
use slack_runtests.Edge.Slack.{SlackConfig, SlackReply, commanded, slack_commands}
use slack_runtests.Edge.Polling.{Round}
use slack_runtests.Agent.Execute.{◌then◌}

abbrev pub toy_hmac : Bytes → Bytes → Text
toy_hmac key message = if length key == length message then codes "00ff" else codes "ab12"

pub toy_hex : (k m : Bytes) → is_ascii (toy_hmac k m) ≡ true
toy_hex k m = elim (Bool-cases (length k == length m)) [
  | inl same ↦ rw same (unfold is_ascii in refl)
  | inr differs ↦ rw differs (unfold is_ascii in refl)
]

abbrev pub slack_sample : SlackConfig
slack_sample = record {
  settings = record {
    signing_secret = [];
    allowed_team = codes "T1";
    allowed_channels = codes "C1" ∷ codes "C2" ∷ [];
    allowed_users = codes "U1" ∷ [];
  };
  default_channel = codes "ci";
  offline_after = 90000000;
}

abbrev pub sample : Crypto → Setting
sample c = record {
  c = c;
  beyond = λ d. false;
  hmac_hex = toy_hmac;
  uuid12 = λ t. t;
  slack = slack_sample;
  edge = record { lease_seconds = 60000000; enroll_token = codes "token" };
  trusted = λ name. none;
  max_attempts = 3;
  poll_timeout = 25000000;
}

abbrev pub body : Bytes
body = codes "team_id=T1&channel_id=C2&user_id=U1&trigger_id=13&text=-p+webapp"

abbrev pub no_headers : Headers
no_headers name = none

abbrev pub args : Args
args = record {
  action = codes "run";
  product = codes "webapp";
  server = codes "staging";
  select = none;
  marker = none;
}

is_entitled : IsEntitled slack_sample.settings (parse_form body)
unfolding parse_form get join Text-discrete ℕ_discrete
is_entitled = record {
  team = inr refl;
  channel = inr (codes "C2", refl, refl);
  user = inr (codes "U1", refl, refl);
}

text_parsed : parse (text_of (parse_form body)) ≡ ok (parsed args)
unfolding parse_form get parse shlex_split expression_matches starts_with join Text-discrete
    ℕ_discrete
text_parsed = refl

passed_check :
    check toy_hmac body no_headers slack_sample.settings 101000000
    ≡ ok (judged (parse_form body) true (parsed args))
passed_check =
    check_passes toy_hmac toy_hex body no_headers slack_sample.settings 101000000 args (inl refl)
      is_entitled text_parsed

abbrev pub ordered : State → State × SlackReply
ordered s = commanded toy_hmac (λ t. t) slack_sample (parse_form body) args 101000000 s

pub ordered_now :
    (s : State)
    → slack_commands toy_hmac (λ t. t) slack_sample body no_headers 101000000 s ≡ ok (ordered s)
unfolding slack_commands commanded
ordered_now s = rw passed_check refl

abbrev pub rounds : List Round
rounds = record { monotonic = 1; now = 102000000; others = [] } ∷ []

abbrev pub ordered_job : Job
ordered_job = record {
  id = codes "13";
  product = codes "webapp";
  server = codes "staging";
  select_expr = none;
  marker = none;
  slack_channel = codes "C2";
  slack_user = codes "U1";
}

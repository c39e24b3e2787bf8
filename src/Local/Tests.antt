-- ===== src/Local/Tests.antt =====
-- The local runner at concrete requests.
use slack_runtests.Python.{ok, raised, value_error}
use slack_runtests.Notifier.{post, finish, SlackNotifier, printed, start, update}
use slack_runtests.Local.{
  Request, World, Ran, build_argv, completed, counts_of, find_counts, heard, run_local,
  start_message,
}
use slack_runtests.Prelude.{
  List, Text, Text-discrete, [], arith, codes, none, pos, refl, some, true, ℕ_discrete, ℤ-discrete,
  ◌++◌, ◌∷◌, ◌≡◌,
}
use slack_runtests.Strings.{join, starts_with}
use slack_runtests.Decimal.{show}
use slack_runtests.Parsing.{expression_matches}
use slack_runtests.Local.Counting.{counts_of-summary}

summary_line :
    counts_of (codes "== 2 failed, 48 passed, 1 skipped, 1 error in 91.4s ==")
    ≡ ok (record { passed = 48; failed = 3; skipped = 1 })
unfolding counts_of starts_with ℕ_discrete
summary_line = refl

counts_of-summary_sample :
    counts_of (
      show 2
      ++ (codes " failed, "
          ++ (show 48 ++ (codes " passed, " ++ (show 1 ++ (codes " skipped" ++ codes " in 1s"))))))
    ≡ ok (record { passed = 48; failed = 2; skipped = 1 })
unfolding find_counts starts_with ℕ_discrete
counts_of-summary_sample =
    counts_of-summary 2 48 1 (codes " in 1s") (omega arith) (omega arith) (omega arith) refl

abbrev world : World
world = record {
  machine = record { has_uv = true; executable = codes "python" };
  suite_is_dir = true;
  ending = completed (pos 1) (codes "1 failed, 2 passed in 0.1s");
  before = 0;
  after = 800000;
  first_answer = ok (some (codes "11.1"));
  second_answer = ok none;
}

abbrev request : Request
request = record {
  product = codes "webapp";
  server = codes "dev";
  select = some (codes "smoke");
  marker = none;
  suite_root = codes "tests/sample";
}

abbrev slack : SlackNotifier
slack = record { channel = codes "#x"; token = none; ts = none; last_edit = 0; started = 5 }

abbrev command : List Text
command =
    codes "uv"
    ∷ codes "run"
    ∷ codes "pytest"
    ∷ codes "tests/sample/webapp"
    ∷ codes "--server=dev"
    ∷ codes "-k"
    ∷ codes "smoke"
    ∷ codes "-q"
    ∷ codes "--junit-xml=results.xml"
    ∷ []

abbrev outcome : Ran
outcome = record {
  code = pos 1;
  events =
      printed (codes "post") (codes "#x") (
        codes
          "Starting `webapp` on `dev`\n`tests/sample/webapp --server=dev -k smoke -q --junit-xml=results.xml`")
      ∷ printed (codes "update") (codes "#x") (codes "❌ 2 passed  ·  1 failed  ·  in 0.8s")
      ∷ [];
  executed = some command;
}

ran : run_local world request slack ≡ ok outcome
unfolding run_local counts_of heard expression_matches join start_message build_argv post update
    start finish starts_with ℕ_discrete Text-discrete ℤ-discrete
ran = refl

-- An answer of Slack that is no UTF-8 is an exception of the run, but only with a token.
ran_unheard :
    run_local
      (record world { first_answer = raised value_error })
      request
      (record slack { token = some (codes "xoxb") })
    ≡ raised value_error
unfolding run_local heard expression_matches ℕ_discrete
ran_unheard = refl

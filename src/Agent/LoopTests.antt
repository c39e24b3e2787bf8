-- ===== src/Agent/LoopTests.antt =====
-- The loops of a test server at concrete answers.
use slack_runtests.Prelude.{
  All, List, Text, Text-discrete, [], arith, codes, count_if, length, none, refl, some, ℕ,
  ℕ_discrete, ℤ-discrete, ◌∷◌, ◌≡◌,
}
use slack_runtests.Agent.{check_field, validate}
use slack_runtests.Strings.{join}
use slack_runtests.Python.{ok, age, encode, parse_int}
use slack_runtests.Decimal.{show}
use slack_runtests.Parsing.{expression_matches}
use slack_runtests.Base64.{b64decode, b64encode}
use slack_runtests.Identity.{public_b64, sign_reply, verify_reply}
use slack_runtests.Identity.Tests.{toy}
use slack_runtests.Edge.Replies.{signed}
use slack_runtests.Client.{Answer, EdgeClient, check_reply}
use slack_runtests.Client.Calls.{claim_call}
use slack_runtests.Reporter.{shown_of}
use slack_runtests.Agent.Junit.{
  add_suites, counts_from_junit, float_of, get_of, int_of, is_float, iter, suites_of, value_of,
}
use slack_runtests.Agent.Execute.{after_run, concluded, execute, safe_result, suite_run, try_result}
use slack_runtests.Agent.Loop.{Turn, Waiting, enrol_loop, poll_loop}
use slack_runtests.Agent.Tally.{is_command}
use slack_runtests.Agent.Backoff.{doubled, enrol_loop-doubled}
use slack_runtests.Agent.Polling.{
  IsSurvived, IsVouched, poll_loop-IsVouched, poll_loop-survives, turn_claim,
}
use slack_runtests.Agent.Tests.{config, meeting, payload}

abbrev waiting : Waiting
waiting = record { retry = 5000000; max_retry = 60000000 }

abbrev client : EdgeClient toy
client = record {
  runner_id = codes "lab-1";
  key = 7;
  edge_public_key = [];
  pinned_fingerprint = [];
}

abbrev unanswered : List (Answer × ℕ)
unanswered = (none, 1) ∷ (none, 2) ∷ (none, 3) ∷ (none, 4) ∷ (none, 5) ∷ []

five_waits :
    (enrol_loop toy Text some (λ key. ok key) waiting 5000000 client unanswered).waits
    ≡ 5000000 ∷ 10000000 ∷ 20000000 ∷ 40000000 ∷ 60000000 ∷ []
unfolding enrol_loop
five_waits = refl

enrol_loop-doubled_sample :
    (enrol_loop toy Text some (λ key. ok key) waiting 5000000 client unanswered).waits
    ≡ doubled 5000000 60000000
        (length (enrol_loop toy Text some (λ key. ok key) waiting 5000000 client unanswered).waits)
enrol_loop-doubled_sample =
    enrol_loop-doubled toy Text some (λ key. ok key) waiting client unanswered (omega arith)

-- A claim that is answered with a job, and the turn of it.
abbrev known_edge : EdgeClient toy
known_edge = record client { edge_public_key = public_b64 toy 9 }

abbrev turn : Turn toy Text some (λ key. ok key)
turn = record {
  answer = some (signed toy 9 (codes "{}") 200 100000000);
  now = 101000000;
  meeting = meeting;
}

abbrev turns : List (Turn toy Text some (λ key. ok key))
turns = turn ∷ record turn { answer = none } ∷ []

one_command :
    count_if is_command
      (poll_loop toy Text some
        (λ key. ok key)
        (λ body. payload)
        config
        waiting
        5000000
        known_edge
        turns).acts
    ≡ 1
unfolding poll_loop claim_call check_reply signed verify_reply show parse_int age public_b64
    b64encode b64decode sign_reply encode join execute shown_of validate check_field
    expression_matches suite_run after_run concluded safe_result try_result counts_from_junit
    suites_of add_suites get_of value_of iter int_of float_of is_float ℕ_discrete Text-discrete
    ℤ-discrete
one_command = refl

poll_loop-IsVouched_example :
    All
      (IsVouched toy Text some (λ key. ok key) (λ body. payload) config waiting known_edge turns)
      (poll_loop toy Text some
        (λ key. ok key)
        (λ body. payload)
        config
        waiting
        5000000
        known_edge
        turns).acts
unfolding public_b64 b64encode
poll_loop-IsVouched_example =
    poll_loop-IsVouched toy Text some (λ key. ok key) (λ body. payload) config waiting known_edge
      5000000 turns refl

survived :
    All
      (λ t.
        IsSurvived toy Text some
          (λ key. ok key)
          (λ body. payload)
          config
          waiting
          known_edge
          (turn_claim toy Text some (λ key. ok key) (λ body. payload) config waiting known_edge t)
          t.meeting)
      turns
unfolding claim_call check_reply signed verify_reply show parse_int age public_b64 b64encode
    b64decode sign_reply encode join execute shown_of validate check_field expression_matches
    suite_run after_run concluded safe_result try_result counts_from_junit suites_of add_suites
    get_of value_of iter int_of float_of is_float ℕ_discrete Text-discrete ℤ-discrete
survived = (refl, (tt, tt))

poll_loop-survives_sample :
    (poll_loop toy Text some
      (λ key. ok key)
      (λ body. payload)
      config
      waiting
      5000000
      known_edge
      turns).failure
    ≡ none
poll_loop-survives_sample =
    poll_loop-survives toy Text some (λ key. ok key) (λ body. payload) config waiting known_edge
      5000000 turns survived

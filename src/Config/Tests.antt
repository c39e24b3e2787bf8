-- ===== src/Config/Tests.antt =====
-- The configuration at concrete environments.
use slack_runtests.Prelude.{
  Text, Text-discrete, [], codes, false, if◌then◌else◌, inl, inr, none, pos, refl, some, true, ℕ,
  ℕ_discrete, ℤ, ◌==◌, ◌∷◌, ◌≡◌, option_eq, text_eq, nat_eq, int_eq,
}
use slack_runtests.Config.{csv, default_runner_id, default_runner_id-valid}
use slack_runtests.Strings.{is_space, join, sorted, starts_with}
use slack_runtests.Python.{Bytes, is_ascii, ok}
use slack_runtests.Shlex.{shlex_split}
use slack_runtests.Forms.{get, parse_form}
use slack_runtests.Parsing.{Args, expression_matches, parse, parsed}
use slack_runtests.Gate.{check, judged}
use slack_runtests.Gate.Laws.{text_of}
use slack_runtests.Store.Runners.{RunnerRow, enrol, labels_of, runner}
use slack_runtests.Edge.{valid_runner_id}
use slack_runtests.Edge.Payload.{Numbers, enroll_payload, enrolment_of}
use slack_runtests.Config.Load.{Environment, Floats, RunnerConfig, load, load_runner, settings_of}
use slack_runtests.Config.Laws.{configured_runner, unset-IsOpen}

csv_lines : csv (some (codes " C1, ,C2 ")) [] ≡ codes "C1" ∷ codes "C2" ∷ []
unfolding csv ℕ_discrete
csv_lines = refl

default_runner_id-valid_sample :
    valid_runner_id (λ d. false) (default_runner_id (λ d. false) none (codes "lab box.1")) ≡ true
default_runner_id-valid_sample = default_runner_id-valid (λ d. false) none (codes "lab box.1")

sanitised : default_runner_id (λ d. false) none (codes "lab box.1") ≡ codes "lab-box-1"
unfolding default_runner_id ℕ_discrete
sanitised = refl

-- Floats, for the tests: none is written in the environment.
abbrev toy_floats : Floats
toy_floats = record { Float = ℕ; number = λ n. n; float_of = λ s. none; int_of = λ n. ok (pos n) }

abbrev lab : Environment
lab name = if name == codes "RUNNER_LABELS" then some (codes "uat, dev,") else none

abbrev toy_numbers : Numbers
toy_numbers = record {
  Float = ℤ;
  trunc = λ x. ok x;
  of_int = λ n. ok n;
  float_of = λ s. none;
  shown = λ v. codes "?";
  micros = λ x. some x;
}

abbrev lab_config : RunnerConfig toy_floats
lab_config = load_runner toy_floats (λ d. false) (codes "lab box") lab

configured_runner_example :
    (valid_runner_id (λ d. false) lab_config.runner_id ≡ true)
    × (enrolment_of toy_numbers (
          enroll_payload toy_numbers lab_config.runner_id
            (codes "k")
            lab_config.labels
            lab_config.enroll_token)
        ≡ ok (record {
          runner_id = lab_config.runner_id;
          public_key = codes "k";
          labels = lab_config.labels;
          token = lab_config.enroll_token;
        }))
    × ((r : RunnerRow) × (runner lab_config.runner_id
            (enrol lab_config.runner_id (codes "k") lab_config.labels 9 [])
          ≡ some r)
        × (labels_of r.labels ≡ sorted lab_config.labels))
configured_runner_example =
    configured_runner toy_floats toy_numbers (λ d. false) (codes "lab box") lab (codes "k") 9 []

lab_labels :
    sorted (load_runner toy_floats (λ d. false) (codes "lab box") lab).labels
    ≡ codes "dev" ∷ codes "uat" ∷ []
unfolding sorted load_runner Text-discrete ℕ_discrete
lab_labels = refl

-- A list of people with nothing in it.
abbrev careless : Environment
careless name = if name == codes "RUNTESTS_USERS" then some (codes " , ") else none

toy_hmac : Bytes → Bytes → Text
toy_hmac key message = codes "00ff"

abbrev stray : Bytes
stray = codes "user_id=U9&text=-p+webapp"

abbrev stray_args : Args
stray_args = record {
  action = codes "run";
  product = codes "webapp";
  server = codes "staging";
  select = none;
  marker = none;
}

stray_parsed : parse (text_of (parse_form stray)) ≡ ok (parsed stray_args)
unfolding parse_form get parse shlex_split expression_matches starts_with join Text-discrete
    ℕ_discrete
stray_parsed = refl

unset-IsOpen_example :
    check toy_hmac stray (λ name. none) (settings_of (load careless)) 5
    ≡ ok (judged (parse_form stray) true (parsed stray_args))
unfolding Text-discrete ℕ_discrete is_space
unset-IsOpen_example =
    unset-IsOpen toy_hmac (λ k m. unfold toy_hmac is_ascii in refl) careless stray (λ name. none) 5
      stray_args refl refl tt (inr refl, (inl refl, (inr refl, tt))) stray_parsed

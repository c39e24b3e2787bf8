-- ===== src/Store/RegistryTests.antt =====
-- The registry of test servers at concrete rows.
use slack_runtests.Prelude.{
  List, Text, [], arith, codes, if◌then◌else◌, refl, some, ◌==◌, ◌∷◌, ◌≡◌, text_eq, nat_eq, int_eq,
  option_eq,
}
use slack_runtests.Strings.{sorted}
use slack_runtests.Store.Runners.{RunnerRow, RunnerRows, enrol, labels_of, runner}
use slack_runtests.Store.Registry.{enrolled, labels_of-enrol, runner-enrol}
use slack_runtests.Store.Rows.{state_eq}

abbrev registered : RunnerRows
registered =
    record {
      runner_id = codes "r1";
      public_key = codes "old";
      labels = codes "dev";
      enrolled_at = 1;
      last_seen = 2;
    }
    ∷ []

abbrev two_labels : List Text
two_labels = codes "staging" ∷ codes "dev" ∷ []

labels_of-enrol_sample :
    (r : RunnerRow) × (runner (codes "r1") (enrol (codes "r1") (codes "k") two_labels 9 registered)
      ≡ some r)
    × (labels_of r.labels ≡ sorted two_labels)
labels_of-enrol_sample =
    labels_of-enrol (codes "r1") (codes "k") two_labels 9 registered
      ((refl, omega arith), ((refl, omega arith), tt))

runner-enrol_sample :
    runner (codes "r2") (enrol (codes "r1") (codes "k") two_labels 9 registered) ≡ (
      if codes "r1" == codes "r2"
      then some (enrolled (codes "r1") (codes "k") two_labels 9 (runner (codes "r1") registered))
      else runner (codes "r2") registered)
runner-enrol_sample = runner-enrol (codes "r1") (codes "r2") (codes "k") two_labels 9 registered

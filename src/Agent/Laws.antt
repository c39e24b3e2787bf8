-- ===== src/Agent/Laws.antt =====
-- `counts_from_junit`: the counts of pytest's reports.
use slack_runtests.Prelude.{
  Bool-cases, List, Text, Text-discrete, [], ap, arith, codes, if◌then◌else◌, inl, inr, is_empty,
  negate, pos, refl, some, tests, true, ℕ, ℕ_discrete, ◌++◌, ◌+ℤ◌, ◌+◌, ◌-◌, ◌<◌, ◌^◌, ◌∙◌, ◌∷◌,
  ◌≡◌, ◌≤◌,
}
use slack_runtests.Python.{ok, parse_int, parse_int-nonempty}
use slack_runtests.Decimal.{parse_int-show, show}
use slack_runtests.Agent.Junit.{
  Node, Nodes, add_suite, add_suites, at_least_zero, cons, counts_from_junit, counts_of_totals,
  element, failed_of, finds, float_of, get_of, has_child, id_of, int_of, is_failed, is_float, iter,
  iter_all, nil, suites_of, value_of,
}
use slack_runtests.Agent.Execute.{◌then◌}

-- How a test ends, with the message that pytest writes.
pub data CaseEnd : Type 0 where
  passing : CaseEnd
  failing erring skipping : Text → CaseEnd

-- A test in the report of pytest; `more` are its other attributes.
pub record TestCase : Type 0 where
  pub classname : Text
  pub name : Text
  pub more : List (Text × Text)
  pub ending : CaseEnd

abbrev pub said_of : Text → Text → Nodes
said_of tag message = cons (element tag ((codes "message", message) ∷ []) nil) nil

abbrev pub child_of : CaseEnd → Nodes
child_of passing = nil
child_of (failing message) = said_of (codes "failure") message
child_of (erring message) = said_of (codes "error") message
child_of (skipping message) = said_of (codes "skipped") message

abbrev pub case_node : TestCase → Node
case_node k =
    element (codes "testcase") ((codes "classname", k.classname) ∷ (codes "name", k.name) ∷ k.more)
      (child_of k.ending)

abbrev pub case_nodes : List TestCase → Nodes
case_nodes [] = nil
case_nodes (k ∷ tests) = cons (case_node k) (case_nodes tests)

-- The names of the tests that failed or erred.
abbrev pub names_of : TestCase → List Text
names_of k =
    let name = if is_empty k.classname then k.name else k.classname ++ codes "::" ++ k.name in
    elim k.ending [
      | passing ↦ []
      | failing message ↦ name ∷ []
      | erring message ↦ name ∷ []
      | skipping message ↦ []
    ]

abbrev pub failed_names : List TestCase → List Text
failed_names [] = []
failed_names (k ∷ tests) = names_of k ++ failed_names tests

-- The report of pytest: one suite, with its numbers as attributes; `root` and `more` are the other
-- attributes, such as the name, the time stamp and the host.
abbrev pub report_of :
    List (Text × Text) → List (Text × Text) → ℕ → ℕ → ℕ → ℕ → Text → List TestCase → Node
report_of root more erred fails skips many time tests = element (codes "testsuites") root (
    cons
      (element (codes "testsuite")
        ((codes "name", codes "pytest")
          ∷ (codes "errors", show erred)
          ∷ (codes "failures", show fails)
          ∷ (codes "skipped", show skips)
          ∷ (codes "tests", show many)
          ∷ (codes "time", time)
          ∷ more)
        (case_nodes tests))
      nil)

flat_case : (e : CaseEnd) → iter_all (codes "testsuite") (child_of e) ≡ []
unfolding iter Text-discrete ℕ_discrete
flat_case passing = refl
flat_case (failing message) = refl
flat_case (erring message) = refl
flat_case (skipping message) = refl

-- There is no suite among the tests.
flat_cases : (tests : List TestCase) → iter_all (codes "testsuite") (case_nodes tests) ≡ []
unfolding iter Text-discrete ℕ_discrete
flat_cases [] = refl
flat_cases (k ∷ tests) = rw (flat_case k.ending) (flat_cases tests)

failed_of-case :
    (classname name : Text) (more : List (Text × Text)) (e : CaseEnd) (rest : List Node)
    → let k : TestCase = record { classname = classname; name = name; more = more; ending = e } in
      failed_of (case_node k ∷ (iter_all (codes "testcase") (child_of e) ++ rest))
      ≡ names_of k ++ failed_of rest
unfolding iter failed_of is_failed finds has_child id_of get_of value_of Text-discrete ℕ_discrete
failed_of-case classname name more passing rest = refl
failed_of-case classname name more (failing message) rest = refl
failed_of-case classname name more (erring message) rest = refl
failed_of-case classname name more (skipping message) rest = refl

failed_of-cases :
    (tests : List TestCase)
    → failed_of (iter_all (codes "testcase") (case_nodes tests)) ≡ failed_names tests
unfolding iter Text-discrete ℕ_discrete
failed_of-cases [] = unfold failed_of in refl
failed_of-cases (k ∷ tests) =
    failed_of-case k.classname k.name k.more k.ending _
    ∙ ap (λ names. names_of k ++ names) (failed_of-cases tests)

show-int_of : (n : ℕ) → n < 10 ^ 20 → int_of (some (show n)) ≡ ok (pos n)
unfolding int_of
show-int_of n small =
    let e : parse_int (show n) ≡ some (pos n) = parse_int-show 20 n small (omega arith) in
    rw (parse_int-nonempty (show n) (pos n) e, e) refl

float_of-fine : (s : Text) → is_float s ≡ true → float_of (some s) ≡ ok tt
unfolding float_of
float_of-fine s h = elim (Bool-cases (is_empty s)) [
  | inl empty ↦ rw empty refl
  | inr full ↦ rw (full, h) refl
]

zero_add : (n : ℕ) → 0 + n ≡ n
zero_add n = omega arith

-- What is left of some when two parts are taken away.
left_over :
    (many x y : ℕ)
    → x + y ≤ many
    → at_least_zero (pos many +ℤ negate (pos x) +ℤ negate (pos y)) ≡ pos (many - (x + y))
left_over many x y h = ground (arith, h)

-- The counts of a report of pytest are those that its attributes say, and the tests that passed are
-- what is left of all; the tests that failed or erred are named, with their classes, in the order of
-- the report. The report has one suite, numbers of 20 digits at most, a time that `float` reads, and
-- no fewer tests than failures, errors and skips; its other attributes and the tests are any.
pub counts_from_junit-report :
    (root more : List (Text × Text)) (erred fails skips many : ℕ) (time : Text)
    (tests : List TestCase)
    → erred < 10 ^ 20
    → fails < 10 ^ 20
    → skips < 10 ^ 20
    → many < 10 ^ 20
    → fails + erred + skips ≤ many
    → is_float time ≡ true
    → counts_from_junit (some (report_of root more erred fails skips many time tests))
      ≡ ok (record {
        passed = pos (many - (fails + erred + skips));
        failed = pos (fails + erred);
        skipped = pos skips;
        failed_ids = failed_names tests;
      })
unfolding counts_from_junit suites_of add_suites add_suite get_of value_of iter Text-discrete
counts_from_junit-report root more erred fails skips many time tests e_small f_small s_small t_small
      fits timed =
    rw
      (
        flat_cases tests,
        failed_of-cases tests,
        show-int_of erred e_small,
        show-int_of fails f_small,
        show-int_of skips s_small,
        show-int_of many t_small,
        float_of-fine time timed,
        zero_add many,
        zero_add fails,
        zero_add erred,
        zero_add skips,
        counts_of_totals,
        left_over many (fails + erred) skips (omega arith),
      )
      refl

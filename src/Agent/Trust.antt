-- ===== src/Agent/Trust.antt =====
-- `validate` and `execute`: what a test server runs, and what it tells the edge of it.
use slack_runtests.Prelude.{
  All, All-append, Bool, Bool-cases, List, Option, Option-cases, Text, [], arith, codes, contains,
  false, inl, inr, is_empty, none, pos, refl, some, subst, suc, sym, true, zero, ℕ, ℤ, ◌++◌, ◌+◌,
  ◌-◌, ◌∙◌, ◌∷◌, ◌≡◌, ◌⊎◌, int_eq, text_eq, option_eq, nat_eq,
}
use slack_runtests.Agent.{Problem, check_field, is_unlisted, validate, wrong_field}
use slack_runtests.Python.{Result, Result-cases, ok, raised, ◌>>=◌}
use slack_runtests.Notifier.{Event}
use slack_runtests.Parsing.{expression_matches, products, servers}
use slack_runtests.Store.{job}
use slack_runtests.Store.Attempts.{tries}
use slack_runtests.Local.{Ending, aborted, completed, not_started, timed_out}
use slack_runtests.Local.Laws.{IsUnfinished}
use slack_runtests.Edge.Wire.{refusal}
use slack_runtests.Client.{Called, Called-cases, edge_error, failed_with, returned}
use slack_runtests.Reporter.{Value, JobReporter, Payload, Shown, other, shown_of, text}
use slack_runtests.Agent.Junit.{counts_from_junit}
use slack_runtests.Agent.Execute.{
  Act, AgentConfig, Meeting, Report, Speech, Trace, after_run, checked_job, concluded,
  could_not_start, counted_report, execute, job_argv, no_suite, of_counts, of_end, of_receipt,
  of_start, refused_for, reporter_of, run_job, runs, safe_result, says, sleeps, speaks, suite_run,
  tell_started, tells_result, tells_started, try_result, uncounted, was_killed, ◌then◌,
}

-- An expression is absent, or no text that is true, or a text that the pattern accepts.
abbrev pub IsFine : Option Value → Type 0
IsFine none = Unit
IsFine (some (text s)) = (is_empty s ≡ true) ⊎ (expression_matches s ≡ true)
IsFine (some (other s truth)) = truth ≡ false

abbrev pub IsListed : Option Value → List Text → Type 0
IsListed o allowed = (s : Text) × (o ≡ some (text s)) × (contains allowed s ≡ true)

-- A job that may be run.
pub record IsTrusted (job : Payload) : Type 0 where
  pub product : IsListed job.product products
  pub server : IsListed job.server servers
  pub select : IsFine job.select
  pub marker : IsFine job.marker

is_unlisted-IsListed :
    (o : Option Value) (allowed : List Text) → is_unlisted o allowed ≡ false → IsListed o allowed
is_unlisted-IsListed none allowed h = cc
is_unlisted-IsListed (some (text s)) allowed h = (s, refl, ground (arith, h))
is_unlisted-IsListed (some (other s truth)) allowed h = cc

check_field-IsFine : (field : Text) (o : Option Value) → check_field field o ≡ ok none → IsFine o
unfolding check_field
check_field-IsFine field none h = tt
check_field-IsFine field (some (text s)) h = elim (Bool-cases (is_empty s)) [
  | inl empty ↦ inl empty
  | inr full ↦ elim (Bool-cases (expression_matches s)) [
    | inl fits ↦ inr fits
    | inr misfits ↦ absurd (refused_not_none (sym (rw (full, misfits) refl) ∙ h))
  ]
]
  where
    refused_not_none : ¬ (ok (some (wrong_field field)) ≡ ok none)
    refused_not_none e = cc
check_field-IsFine field (some (other s true)) h = cc
check_field-IsFine field (some (other s false)) h = refl

abbrev AreTrusted : Payload → Result (Option Problem) → Type 0
AreTrusted job (ok none) = IsTrusted job
AreTrusted job (ok (some p)) = Unit
AreTrusted job (raised x) = Unit

fields-AreTrusted :
    (job : Payload)
    → IsListed job.product products
    → IsListed job.server servers
    → AreTrusted job (
        check_field (codes "select") job.select >>= λ select. elim select [
          | some p ↦ ok (some p)
          | none ↦ check_field (codes "marker") job.marker
        ])
fields-AreTrusted job product server =
    elim (Result-cases (check_field (codes "select") job.select)) [
      | inr (x, raises) ↦ rw raises tt
      | inl (some p, refusal) ↦ rw refusal tt
      | inl (none, select) ↦ elim (Result-cases (check_field (codes "marker") job.marker)) [
        | inr (x, raises) ↦ rw (select, raises) tt
        | inl (some p, refusal) ↦ rw (select, refusal) tt
        | inl (none, marker) ↦
            rw (select, marker)
              (record {
                product = product;
                server = server;
                select = check_field-IsFine (codes "select") job.select select;
                marker = check_field-IsFine (codes "marker") job.marker marker;
              })
      ]
    ]

validate-AreTrusted : (job : Payload) → AreTrusted job (validate job)
unfolding validate
validate-AreTrusted job = elim (Bool-cases (is_unlisted job.product products)) [
  | inl bad ↦ rw bad tt
  | inr product ↦ elim (Bool-cases (is_unlisted job.server servers)) [
    | inl bad ↦ rw (product, bad) tt
    | inr server ↦
        rw (product, server)
          (fields-AreTrusted job (is_unlisted-IsListed job.product products product)
            (is_unlisted-IsListed job.server servers server))
  ]
]

-- A job that is not refused has a listed product and server, and its expressions are absent, empty
-- or of the allowed characters.
pub validate-IsTrusted : (job : Payload) → validate job ≡ ok none → IsTrusted job
validate-IsTrusted job h = subst (AreTrusted job) h (validate-AreTrusted job)

pub then-All :
    (P : Act → Type 0) (s t : Trace) → All P s.acts → All P t.acts → All P (s then t).acts
then-All P s t p q = elim (Option-cases s.failure) [
  | inl ends ↦ rw ends (All-append P s.acts t.acts p q)
  | inr (x, dies) ↦ rw dies p
]

pub try_result-All :
    (P : Act → Type 0) (on_result : ℕ → Called (Unit {0})) (job_id : Text) (report : Report)
    → P (tells_result job_id report)
    → ((n : ℕ) → P (sleeps n))
    → (attempt tries : ℕ) → All P (try_result on_result job_id report attempt tries).acts
unfolding try_result
try_result-All P on_result job_id report told slept attempt zero = tt
try_result-All P on_result job_id report told slept attempt (suc tries) =
    elim (Called-cases (on_result attempt)) [
      | inl (u, e) ↦ rw e (told, tt)
      | inr (inl (r, e)) ↦
          rw e (
            told,
            (slept _, try_result-All P on_result job_id report told slept (attempt + 1) tries),
          )
      | inr (inr (x, e)) ↦ rw e (told, tt)
    ]

-- The exit code that the job's end calls for: 4 for a refusal, 5 without a suite, and else that of
-- pytest, or 3 if pytest was stopped or could not be started.
abbrev pub IsCode : Meeting → Payload → ℤ → Type 0
IsCode m job code =
    ((p : Problem) × (validate job ≡ ok (some p)) × (code ≡ pos 4))
    ⊎ ((validate job ≡ ok none) × (m.suite_is_dir ≡ false) × (code ≡ pos 5))
    ⊎ ((validate job ≡ ok none)
        × (m.suite_is_dir ≡ true)
        × (((code ≡ pos 3) × IsUnfinished m.ending)
            ⊎ ((out : Text) × (m.ending ≡ completed code out))))

module _ (cfg : AgentConfig) (m : Meeting) (job : Payload) (j : Shown) where
  -- A command is that of the job, which may be run; and what the edge is told is told of the job,
  -- with the exit code that its end calls for.
  abbrev pub IsDue : Act → Type 0
  IsDue (says events) = Unit
  IsDue (tells_started job_id) = job_id ≡ j.job_id
  IsDue (runs argv) = IsTrusted job × (m.suite_is_dir ≡ true) × (argv ≡ job_argv cfg m job j)
  IsDue (tells_result job_id report) = (job_id ≡ j.job_id) × IsCode m job report.exit_code
  IsDue (sleeps n) = Unit

  speaks-then-IsDue :
      (r : JobReporter) (speech : Speech) (events : List Event) (t : Trace)
      → All IsDue t.acts
      → All IsDue (speaks m r speech events then t).acts
  unfolding speaks
  speaks-then-IsDue r speech events t h = then-All IsDue (speaks m r speech events) t (tt, tt) h

  concluded-IsDue :
      (r : JobReporter) (report : Report) (ids : List Text)
      → IsCode m job report.exit_code
      → All IsDue (concluded m r j report ids).acts
  unfolding concluded safe_result
  concluded-IsDue r report ids code = speaks-then-IsDue r of_end _ _ (
      speaks-then-IsDue r of_counts _ _
        (try_result-All IsDue m.on_result j.job_id report (refl, code) (λ n. tt) 0 3))

  after_run-IsDue :
      (r : JobReporter) (e : Ending)
      → validate job ≡ ok none
      → m.suite_is_dir ≡ true
      → m.ending ≡ e
      → All IsDue (after_run m r j e).acts
  unfolding after_run counted_report
  after_run-IsDue r timed_out fine there same =
      concluded-IsDue r (uncounted (pos 3) (m.after - m.before) was_killed) []
        (inr (inr (fine, there, inl (refl, inl same))))
  after_run-IsDue r (not_started exc) fine there same =
      concluded-IsDue r (uncounted (pos 3) 0 (could_not_start exc)) []
        (inr (inr (fine, there, inl (refl, inr (exc, same)))))
  after_run-IsDue r (aborted x) fine there same = tt
  after_run-IsDue r (completed code out) fine there same =
      elim (Result-cases (counts_from_junit m.report)) [
        | inl (k, e) ↦ rw e (
            concluded-IsDue r (counted_report code (m.after - m.before) k) k.failed_ids
              (inr (inr (fine, there, inr (out, same)))))
        | inr (x, e) ↦ rw e tt
      ]

  tell_started-IsDue : (answer : Called (Unit {0})) → All IsDue (tell_started answer j.job_id).acts
  tell_started-IsDue (returned u) = (refl, tt)
  tell_started-IsDue (edge_error r) = (refl, tt)
  tell_started-IsDue (failed_with x) = (refl, tt)

  suite_run-IsDue :
      (r : JobReporter) (there : Bool)
      → validate job ≡ ok none
      → m.suite_is_dir ≡ there
      → All IsDue (suite_run cfg m r j (job_argv cfg m job j) there).acts
  unfolding suite_run
  suite_run-IsDue r false fine missing = speaks-then-IsDue r of_start _ _ (
      concluded-IsDue r (uncounted (pos 5) 0 (no_suite (cfg.suite_root ++ b'/' ∷ j.product))) []
        (inr (inl (fine, missing, refl))))
  suite_run-IsDue r true fine there =
      speaks-then-IsDue r of_start _ _
        ((validate-IsTrusted job fine, there, refl), after_run-IsDue r m.ending fine there refl)

  run_job-IsDue :
      (r : JobReporter) → validate job ≡ ok none → All IsDue (run_job cfg m r job j).acts
  unfolding run_job
  run_job-IsDue r fine =
      then-All IsDue (tell_started m.on_started j.job_id) _ (tell_started-IsDue m.on_started)
        (suite_run-IsDue r m.suite_is_dir fine refl)

  checked_job-IsDue : (r : JobReporter) → All IsDue (checked_job cfg m r job j).acts
  unfolding checked_job
  checked_job-IsDue r = elim (Result-cases (validate job)) [
    | inr (x, raises) ↦ rw raises tt
    | inl (some p, refusal) ↦
        rw refusal
          (concluded-IsDue r (uncounted (pos 4) 0 (refused_for p)) [] (inl (p, refusal, refl)))
    | inl (none, fine) ↦ rw fine (run_job-IsDue r fine)
  ]

  -- For a payload that names what the messages show, and whatever the run meets, a test server runs
  -- no command but the one of a job that may be run and has a suite; and it tells the edge of no
  -- other job, with no exit code but the one that the job's end calls for: 4 for a job that is
  -- refused, 5 for one without a suite, 3 if pytest was stopped or could not be started, and else
  -- that of pytest.
  pub execute-IsDue : shown_of job ≡ ok j → All IsDue (execute cfg m job).acts
  unfolding execute
  execute-IsDue named = rw named (
      speaks-then-IsDue (reporter_of cfg job) of_receipt _ _
        (checked_job-IsDue (reporter_of cfg job)))

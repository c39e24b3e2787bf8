-- ===== src/Agent/Execute.antt =====
-- `execute` and `_safe_result` of test-server/test_server/agent.py. What a job does outside is a
-- list of acts, which ends where an exception is let through.
use slack_runtests.Reporter.{
  Payload, summary, JobReporter, Outside, Shown, completed_text, notifier, post_fresh,
  received_text, shown_of, started_text, str_or_empty,
}
use slack_runtests.Python.{Exn, Result, ok, raised}
use slack_runtests.Prelude.{
  Bool, List, Option, Text, [], codes, false, if◌then◌else◌, is_empty, keep_if, none, not, pos,
  some, suc, take, true, zero, ℕ, ℤ, ◌*◌, ◌++◌, ◌+◌, ◌-◌, ◌==◌, ◌||◌, ◌∷◌, text_eq, option_eq,
  int_eq, nat_eq,
}
use slack_runtests.Agent.{Problem, build_argv, validate}
use slack_runtests.Strings.{join, split_on}
use slack_runtests.Notifier.{Event, is_enabled, join_by}
use slack_runtests.Store.{job}
use slack_runtests.Store.Attempts.{tries}
use slack_runtests.Local.{Ending, Machine, aborted, completed, not_started, timed_out}
use slack_runtests.Client.{Called, edge_error, failed_with, returned}
use slack_runtests.Agent.Junit.{JunitCounts, Node, counts_from_junit}

-- The text of the outcome that is reported.
pub data Summary : Type 0 where
  refused_for : Problem → Summary
  no_suite : Text → Summary
  was_killed : Summary
  could_not_start : Text → Summary
  failed_tests : Text → Summary

-- The outcome that is reported; the duration is in microseconds.
pub record Report : Type 0 where
  pub exit_code : ℤ
  pub passed : ℤ
  pub failed : ℤ
  pub skipped : ℤ
  pub duration : ℕ
  pub summary : Summary

-- The calls of Slack and of the edge, the command, and the waits in microseconds.
pub data Act : Type 0 where
  says : List Event → Act
  tells_started : Text → Act
  runs : List Text → Act
  tells_result : Text → Report → Act
  sleeps : ℕ → Act

-- The acts, and the exception, if one is raised.
pub record Trace : Type 0 where
  pub acts : List Act
  pub failure : Option Exn

abbrev pub did : List Act → Trace
did acts = record { acts = acts; failure = none }

abbrev pub died : Exn → Trace
died x = record { acts = []; failure = some x }

infixr 5 ◌then◌
-- The second comes only if the first lets no exception through.
abbrev pub ◌then◌ : Trace → Trace → Trace
s then t = elim s.failure [
  | none ↦ record { acts = s.acts ++ t.acts; failure = t.failure }
  | some x ↦ s
]

abbrev pub with_value : {A : Type 0} → Result A → (A → Trace) → Trace
with_value (ok a) f = f a
with_value (raised x) f = died x

-- The four messages of a job.
pub data Speech : Type 0 where
  of_receipt of_start of_end of_counts : Speech

-- What a test server knows, and what the run of a job meets: what a call of Slack for a message
-- lets through, the resolved working directory, pytest's end, the clock before and after it, the
-- tree of its report, and how the calls to the edge end.
pub record AgentConfig : Type 0 where
  pub runner_id : Text
  pub suite_root : Text

pub record Meeting : Type 0 where
  pub outside : Outside
  pub machine : Machine
  pub workdir : Text
  pub posting : Speech → Option Exn
  pub suite_is_dir : Bool
  pub ending : Ending
  pub before : ℕ
  pub after : ℕ
  pub report : Option Node
  pub on_started : Called (Unit {0})
  pub on_result : ℕ → Called (Unit {0})

-- `_safe_result`, with `tries` attempts left; `on_result n` is how attempt `n` ends.
unfoldable pub try_result : (ℕ → Called (Unit {0})) → Text → Report → ℕ → ℕ → Trace
try_result on_result job_id report attempt zero = did []
try_result on_result job_id report attempt (suc tries) =
    let again = try_result on_result job_id report (attempt + 1) tries in
    did (tells_result job_id report ∷ []) then elim (on_result attempt) [
      | returned u ↦ did []
      | edge_error r ↦ did (sleeps (2 * (attempt + 1) * 1000000) ∷ []) then again
      | failed_with x ↦ died x
    ]

unfoldable pub safe_result : (ℕ → Called (Unit {0})) → Text → Report → Trace
unfolding try_result
safe_result on_result job_id report = try_result on_result job_id report 0 3

-- A message; without a token Slack is not called.
unfoldable pub speaks : Meeting → JobReporter → Speech → List Event → Trace
unfolding notifier
speaks m r speech events = record {
  acts = says events ∷ [];
  failure = if is_enabled (notifier m.outside r) then m.posting speech else none;
}

-- The last steps of every branch: the message that the run is over, the counts, and the result.
unfoldable pub concluded : Meeting → JobReporter → Shown → Report → List Text → Trace
unfolding speaks post_fresh completed_text summary safe_result
concluded m r j report failed_ids =
    speaks m r of_end (post_fresh m.outside r (completed_text j report.exit_code report.duration))
    then speaks m r of_counts
        (summary m.outside r report.passed report.failed report.skipped report.duration failed_ids)
    then safe_result m.on_result j.job_id report

-- A report of a run that counted nothing.
abbrev pub uncounted : ℤ → ℕ → Summary → Report
uncounted exit_code duration why = record {
  exit_code = exit_code;
  passed = pos 0;
  failed = pos 0;
  skipped = pos 0;
  duration = duration;
  summary = why;
}

unfoldable pub counted_report : ℤ → ℕ → JunitCounts → Report
unfolding join_by
counted_report exit_code duration k = record {
  exit_code = exit_code;
  passed = k.passed;
  failed = k.failed;
  skipped = k.skipped;
  duration = duration;
  summary = failed_tests (join_by (codes ", ") (take 10 k.failed_ids));
}

-- `execute` after pytest has ended.
unfoldable pub after_run : Meeting → JobReporter → Shown → Ending → Trace
unfolding concluded counts_from_junit counted_report
after_run m r j timed_out = concluded m r j (uncounted (pos 3) (m.after - m.before) was_killed) []
after_run m r j (not_started exc) = concluded m r j (uncounted (pos 3) 0 (could_not_start exc)) []
after_run m r j (aborted x) = died x
after_run m r j (completed code out) =
    with_value (counts_from_junit m.report)
      (λ k. concluded m r j (counted_report code (m.after - m.before) k) k.failed_ids)

-- `client.started`, where only an EdgeError is caught.
abbrev pub tell_started : Called (Unit {0}) → Text → Trace
tell_started answer job_id =
    did (tells_started job_id ∷ [])
    then elim answer [ returned u ↦ did [] | edge_error r ↦ did [] | failed_with x ↦ died x ]

-- `str(workdir / name)` of POSIX paths, for a name that does not begin with a slash: pathlib drops
-- the components that are empty or a dot.
pub path_in : Text → Text → Text
unfolding join split_on
path_in workdir name =
    (if workdir == codes "/" then [] else workdir)
    ++ b'/'
      ∷ join b'/' (keep_if (λ part. not (is_empty part || part == codes ".")) (split_on b'/' name))

-- The command of a job that was validated.
unfoldable pub job_argv : AgentConfig → Meeting → Payload → Shown → List Text
unfolding build_argv path_in
job_argv cfg m job j =
    build_argv m.machine j.product j.server (str_or_empty job.select) (str_or_empty job.marker)
      cfg.suite_root (path_in m.workdir (codes "results-" ++ j.job_id ++ codes ".xml"))

-- What comes behind the test that the suite is there.
unfoldable pub suite_run : AgentConfig → Meeting → JobReporter → Shown → List Text → Bool → Trace
unfolding speaks post_fresh started_text concluded after_run
suite_run cfg m r j argv false =
    speaks m r of_start (post_fresh m.outside r (started_text j argv))
    then concluded m r j (uncounted (pos 5) 0 (no_suite (cfg.suite_root ++ b'/' ∷ j.product))) []
suite_run cfg m r j argv true =
    speaks m r of_start (post_fresh m.outside r (started_text j argv))
    then did (runs argv ∷ [])
    then after_run m r j m.ending

-- `execute` for a job that is not refused.
unfoldable pub run_job : AgentConfig → Meeting → JobReporter → Payload → Shown → Trace
unfolding job_argv suite_run
run_job cfg m r job j =
    tell_started m.on_started j.job_id
    then suite_run cfg m r j (job_argv cfg m job j) m.suite_is_dir

-- `execute` after the first message.
unfoldable pub checked_job : AgentConfig → Meeting → JobReporter → Payload → Shown → Trace
unfolding validate concluded run_job
checked_job cfg m r job j = with_value (validate job) (λ problem. elim problem [
  | some p ↦ concluded m r j (uncounted (pos 4) 0 (refused_for p)) []
  | none ↦ run_job cfg m r job j
])

-- The reporter of a job.
abbrev pub reporter_of : AgentConfig → Payload → JobReporter
reporter_of cfg job = record { channel = str_or_empty job.slack_channel; runner_id = cfg.runner_id }

-- `execute`
unfoldable pub execute : AgentConfig → Meeting → Payload → Trace
unfolding shown_of speaks post_fresh received_text checked_job
execute cfg m job =
    let r = reporter_of cfg job in
    with_value (shown_of job) (λ j.
      speaks m r of_receipt (post_fresh m.outside r (received_text r j))
      then checked_job cfg m r job j)

-- ===== src/Local/Laws.antt =====
-- The local runner: what it executes, and what it answers.
-- What the result of a run may be, by what was asked.
use slack_runtests.Python.{Exn, Result, ok, raised}
use slack_runtests.Notifier.{SlackNotifier}
use slack_runtests.Local.{
  Request, World, Ending, Ran, aborted, build_argv, completed, counts_of, not_started, timed_out,
}
use slack_runtests.Prelude.{List, Text, false, is_some, none, pos, some, true, ℤ, ◌≡◌, ◌⊎◌}
use slack_runtests.Parsing.{is_bad}

pub record IsSafe (w : World) (r : Request) (argv : List Text) : Type 0 where
  pub select : is_bad r.select ≡ false
  pub marker : is_bad r.marker ≡ false
  pub suite : w.suite_is_dir ≡ true
  pub built : argv ≡ build_argv w.machine r.product r.server r.select r.marker r.suite_root

-- pytest was stopped, or it could not be started.
abbrev pub IsUnfinished : Ending → Type 0
IsUnfinished e = (e ≡ timed_out) ⊎ ((exc : Text) × (e ≡ not_started exc))

-- Nothing was executed: 4 for an expression that is not allowed, 5 without a suite; or the command
-- was built for a request that is safe, and the code is that of its end.
abbrev pub IsAnswer : World → Request → Ran → Type 0
IsAnswer w r out =
    ((out.executed ≡ none)
      × (((out.code ≡ pos 4) × ((is_bad r.select ≡ true) ⊎ (is_bad r.marker ≡ true)))
          ⊎ ((out.code ≡ pos 5) × (w.suite_is_dir ≡ false))))
    ⊎ ((argv : List Text) × (out.executed ≡ some argv)
        × IsSafe w r argv
        × (((out.code ≡ pos 3) × IsUnfinished w.ending)
            ⊎ ((text : Text) × (w.ending ≡ completed out.code text))))

-- A call of Slack lets the exception through, or `subprocess.run` does, or pytest ended by itself
-- and a count in its output has too many digits for `int`.
abbrev pub IsFailure : World → SlackNotifier → Exn → Type 0
IsFailure w slack x =
    ((is_some slack.token ≡ true) × ((w.first_answer ≡ raised x) ⊎ (w.second_answer ≡ raised x)))
    ⊎ (w.ending ≡ aborted x)
    ⊎ ((code : ℤ) × (text : Text) × (w.ending ≡ completed code text) × (counts_of text ≡ raised x))

-- What comes back is an answer, or one of these exceptions.
abbrev AreAnswers : World → Request → SlackNotifier → Result Ran → Type 0
AreAnswers w r slack (ok out) = IsAnswer w r out
AreAnswers w r slack (raised x) = IsFailure w slack x

module _ (w : World) (r : Request) (slack : SlackNotifier) where
  -- Why nothing is executed, with the code for it.
  abbrev IsRefused : ℤ → Type 0
  IsRefused code =
      ((code ≡ pos 4) × ((is_bad r.select ≡ true) ⊎ (is_bad r.marker ≡ true)))
      ⊎ ((code ≡ pos 5) × (w.suite_is_dir ≡ false))

-- ===== src/Agent/Outcome.antt =====
-- `execute`: how often a test server speaks of a job, and that it ends.
use slack_runtests.Prelude.{
  Bool, Option, Option-cases, if◌then◌else◌, inl, inr, none, refl, some, ℕ, ◌≡◌, ◌⊎◌,
}
use slack_runtests.Agent.{Problem}
use slack_runtests.Python.{key_error, raised}
use slack_runtests.Local.{Ending, aborted, completed, not_started, timed_out}
use slack_runtests.Reporter.{Payload, shown_of}
use slack_runtests.Agent.Execute.{AgentConfig, Meeting, died, execute, ◌then◌}

-- The messages for a job, and the commands.
abbrev pub messages_for : Option Problem → ℕ
messages_for (some p) = 3
messages_for none = 4

abbrev pub commands_for : Option Problem → Bool → ℕ
commands_for (some p) there = 0
commands_for none there = if there then 1 else 0

-- An end of pytest that `execute` waits for: no exception that it does not catch.
abbrev pub IsAwaited : Ending → Type 0
IsAwaited (completed code out) = Unit
IsAwaited timed_out = Unit
IsAwaited (not_started exc) = Unit
IsAwaited (aborted x) = ⊥

shown_of-keyless :
    (job : Payload)
    → (job.product ≡ none) ⊎ (job.server ≡ none) ⊎ (job.job_id ≡ none)
    → shown_of job ≡ raised key_error
unfolding shown_of
shown_of-keyless job (inl lacks) = rw lacks refl
shown_of-keyless job (inr (inl lacks)) = elim (Option-cases job.product) [
  | inl absent ↦ rw absent refl
  | inr (p, there) ↦ rw (there, lacks) refl
]
shown_of-keyless job (inr (inr lacks)) = elim (Option-cases job.product) [
  | inl absent ↦ rw absent refl
  | inr (p, there) ↦ elim (Option-cases job.server) [
    | inl absent ↦ rw (there, absent) refl
    | inr (s, served) ↦ rw (there, served, lacks) refl
  ]
]

-- A job without a product, a server or an id lets a KeyError through: no message is posted, and the
-- edge is told of no result.
pub execute_keyless :
    (cfg : AgentConfig) (m : Meeting) (job : Payload)
    → (job.product ≡ none) ⊎ (job.server ≡ none) ⊎ (job.job_id ≡ none)
    → execute cfg m job ≡ died key_error
unfolding execute
execute_keyless cfg m job lacks = rw (shown_of-keyless job lacks) refl

-- ===== src/Edge/System/Answers.antt =====
-- What the Slack door says of a recorded job: the text of `_describe` needs columns that an ended
-- job has.
use slack_runtests.Prelude.{text_eq, nat_eq, option_eq, int_eq}
use slack_runtests.Edge.{State}
use slack_runtests.Edge.System.{Setting}
use slack_runtests.Python.{Result, ok, raised}
use slack_runtests.Store.Timed.{IsTimed}
use slack_runtests.Edge.Slack.{
  SlackReply, already_queued, described, ephemeral, http_error, no_run, queued_alone, queued_for,
}

module _ (g : Setting) where
  -- What a reply shows of the table agrees with its state.
  abbrev Shows : SlackReply → Type 0
  Shows (described r) = IsTimed r
  Shows (http_error status message) = Unit
  Shows (ephemeral message) = Unit
  Shows (no_run product) = Unit
  Shows (already_queued id) = Unit
  Shows (queued_alone id) = Unit
  Shows (queued_for count id channel) = Unit

  abbrev ShowsWell : Result (State × SlackReply) → Type 0
  ShowsWell (ok (t, reply)) = Shows reply
  ShowsWell (raised x) = Unit

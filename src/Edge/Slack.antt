-- ===== src/Edge/Slack.antt =====
-- The Slack door of edge/edge_server/app.py: `slack_commands`. A reply is what its text tells;
-- Edge/Texts has the texts.
-- The replies: an HTTP error, and what only the person who typed the command sees.
use slack_runtests.Prelude.{
  List, Option, Text, [], codes, contains, if◌then◌else◌, is_empty, keep_if, length, none, not,
  or_default, or_else, some, ℕ, ◌&&◌, ◌==◌, ◌||◌, ◌∷◌, nat_eq, text_eq, int_eq, option_eq,
}
use slack_runtests.Edge.{State}
use slack_runtests.Strings.{starts_with}
use slack_runtests.Python.{Bytes, Result, assertion_error, ok, raised, ◌>>=◌}
use slack_runtests.Forms.{Form, get}
use slack_runtests.Parsing.{Args}
use slack_runtests.Gate.{Headers, Message, Outcome, Settings, check}
use slack_runtests.Store.Rows.{Job, JobRow, state_eq}
use slack_runtests.Store.{enqueue, job, last_for}
use slack_runtests.Store.Runners.{RunnerView, online}

pub data SlackReply : Type 0 where
  http_error : ℕ → Option Message → SlackReply
  ephemeral : Option Message → SlackReply
  no_run : Text → SlackReply
  described : JobRow → SlackReply
  already_queued : Text → SlackReply
  queued_alone : Text → SlackReply
  queued_for : ℕ → Text → Text → SlackReply

-- What the handler reads of the configuration beside the gate's settings.
pub record SlackConfig : Type 0 where
  pub settings : Settings
  pub default_channel : Text
  pub offline_after : ℕ

-- The channel that the results go to; a name gets its `#`.
unfoldable pub channel_of : SlackConfig → Form → Text
unfolding starts_with
channel_of cfg form =
    let channel =
      or_else (get (codes "channel_name") form)
        (or_else (get (codes "channel_id") form) cfg.default_channel) in
    if not (is_empty channel)
      && not (starts_with (codes "#") channel)
      && not (starts_with (codes "C") channel)
    then b'#' ∷ channel
    else channel

abbrev pub trigger_of : Form → Text
trigger_of form = or_else (get (codes "trigger_id") form) (or_default (get (codes "text") form) [])

-- The test servers that may take a job for a server.
abbrev pub eligible : Text → List RunnerView → List RunnerView
eligible server = keep_if (λ v. is_empty v.labels || contains v.labels server)

-- `a or b` for rows.
abbrev pub or_row : Option JobRow → Option JobRow → Option JobRow
or_row none b = b
or_row (some a) b = some a

-- `uuid12 t` is `uuid.uuid5(uuid.NAMESPACE_URL, t).hex[:12]`.
module _ (hmac_hex : Bytes → Bytes → Text) (uuid12 : Text → Text) where
  unfoldable pub job_for : SlackConfig → Form → Args → Job
  unfolding channel_of
  job_for cfg form a = record {
    id = uuid12 (trigger_of form);
    product = a.product;
    server = a.server;
    select_expr = a.select;
    marker = a.marker;
    slack_channel = channel_of cfg form;
    slack_user = or_default (get (codes "user_id") form) [];
  }

  -- The handler behind the gate.
  unfoldable pub commanded : SlackConfig → Form → Args → ℕ → State → State × SlackReply
  unfolding job_for
  commanded cfg form a now s =
      if a.action == codes "results"
      then (elim (or_row (job (uuid12 (trigger_of form)) s.jobs) (last_for a.product s.jobs)) [
        | none ↦ (s, no_run a.product)
        | some row ↦ (s, described row)
      ])
      else let (jobs, is_new) = enqueue (job_for cfg form a) now s.jobs in
        let servers = eligible a.server (online cfg.offline_after now s.runners) in
        (
          record s { jobs = jobs },
          (if not is_new
              then already_queued (uuid12 (trigger_of form))
              else if is_empty servers
              then queued_alone (uuid12 (trigger_of form))
              else queued_for (length servers) (uuid12 (trigger_of form)) (channel_of cfg form)),
        )

  -- What becomes of the gate's outcome; one that is ok has arguments, as the code asserts.
  abbrev pub handled : SlackConfig → ℕ → State → Outcome → Option Args → Result (State × SlackReply)
  handled cfg now s out args =
      if not out.is_ok
      then ok (
        s,
        (if not (out.status == 200)
            then http_error out.status out.message
            else ephemeral out.message),
      )
      else elim args [
        | none ↦ raised assertion_error
        | some a ↦ ok (commanded cfg out.form a now s)
      ]

  unfoldable pub slack_commands :
      SlackConfig → Bytes → Headers → ℕ → State → Result (State × SlackReply)
  unfolding commanded
  slack_commands cfg body headers now s = do
    out ← check hmac_hex body headers cfg.settings now
    handled cfg now s out out.args

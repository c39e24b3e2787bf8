-- ===== src/Github.antt =====
-- src/slack_runtests/runners/github.py: dispatch a workflow of GitHub instead of running pytest.
pub mod Laws
mod Tests
use slack_runtests.Prelude.{
  Bool, List, Option, Text, [], codes, false, if◌then◌else◌, is_empty, none, not, or_default, some,
  true, ℕ, ◌&&◌, ◌++◌, ◌==◌, ◌∷◌, text_eq, nat_eq, int_eq, option_eq,
}
use slack_runtests.Decimal.{show}
use slack_runtests.Notifier.{Event, SlackNotifier, post}
use slack_runtests.Client.{sent}

-- What the workflow is dispatched with.
pub record Order : Type 0 where
  pub repo : Text
  pub workflow : Text
  pub ref : Text
  pub token : Text
  pub correlation_id : Text
  pub product : Text
  pub server : Text
  pub select : Option Text
  pub marker : Option Text
  pub slack_channel : Text
  pub slack_user : Text

-- What comes of the request: an httpx.HTTPError with its text, or a status.
pub data Attempt : Type 0 where
  unreached : Text → Attempt
  answered_with : ℕ → Attempt

-- The request to GitHub: the URL, the token of the authorization, the branch and the inputs.
pub record Posting : Type 0 where
  pub url : Text
  pub bearer : Text
  pub ref : Text
  pub inputs : List (Text × Text)

-- Whether GitHub accepted, what was said, and the request, if one was made.
pub record Dispatched : Type 0 where
  pub accepted : Bool
  pub events : List Event
  pub posting : Option Posting

unfoldable pub inputs_of : Order → List (Text × Text)
inputs_of o =
    (codes "correlation_id", o.correlation_id)
    ∷ (codes "product", o.product)
    ∷ (codes "server", o.server)
    ∷ (codes "select", or_default o.select [])
    ∷ (codes "marker", or_default o.marker [])
    ∷ (codes "slack_channel", o.slack_channel)
    ∷ (codes "slack_user", o.slack_user)
    ∷ []

unfoldable pub url_of : Order → Text
url_of o =
    codes "https://api.github.com/repos/"
    ++ o.repo
    ++ codes "/actions/workflows/"
    ++ o.workflow
    ++ codes "/dispatches"

unfoldable pub posting_of : Order → Posting
posting_of o = record { url = url_of o; bearer = o.token; ref = o.ref; inputs = inputs_of o }

unfoldable pub dry_run_text : Order → Text
dry_run_text o =
    codes "[github:dry-run] would dispatch `"
    ++ o.workflow
    ++ codes "` on `"
    ++ (if is_empty o.repo then codes "<unset repo>" else o.repo)
    ++ codes "@"
    ++ o.ref
    ++ codes "` for `"
    ++ o.product
    ++ codes "` @ `"
    ++ o.server
    ++ codes "` (id `"
    ++ o.correlation_id
    ++ codes "`)"

-- What is said of a request that was made.
unfoldable pub outcome_text : Order → Attempt → Text
unfolding show
outcome_text o (unreached exc) = codes "Could not reach GitHub to start the run: " ++ exc
outcome_text o (answered_with status) =
    if not (status == 204)
    then codes "GitHub refused the run (HTTP " ++ show status ++ codes "). Check the API logs."
    else codes "⏳ Queued `"
      ++ o.product
      ++ codes "` on `"
      ++ o.server
      ++ codes "` — the runner will post here (`"
      ++ o.correlation_id
      ++ codes "`)."

abbrev pub is_accepted : Attempt → Bool
is_accepted (unreached exc) = false
is_accepted (answered_with status) = if not (status == 204) then false else true

-- One message, and the end.
abbrev pub announced : Option Text → SlackNotifier → Bool → Option Posting → Text → Dispatched
announced answer slack accepted posting text =
    let (n, sent, events) = post answer text slack in
    record { accepted = accepted; events = events; posting = posting }

-- `dispatch`, with the notifier that is made for its channel and Slack's answer to the message.
unfoldable pub dispatch : SlackNotifier → Option Text → Attempt → Order → Dispatched
unfolding dry_run_text outcome_text posting_of
dispatch slack answer attempt o =
    if not (not (is_empty o.repo) && not (is_empty o.token))
    then announced answer slack false none (dry_run_text o)
    else announced answer slack (is_accepted attempt) (some (posting_of o)) (outcome_text o attempt)

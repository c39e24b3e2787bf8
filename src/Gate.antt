-- ===== src/Gate.antt =====
-- src/slack_runtests/gate.py: the four checks that every slash command passes.
pub mod Entitled
pub mod Laws
pub mod Names
mod Tests
use slack_runtests.Prelude.{
  Bool, List, Option, Text, [], codes, contains, false, if◌then◌else◌, is_empty, none, not,
  or_default, some, true, ℕ, ◌&&◌, ◌==◌, nat_eq, text_eq, int_eq, option_eq,
}
use slack_runtests.Python.{Bytes, Result, ok, ◌>>=◌}
use slack_runtests.Signature.{is_valid}
use slack_runtests.Forms.{Form, get, parse_form}
use slack_runtests.Parsing.{ArgError, Args, Parsed, parse, parsed, slack_arg_error}

-- What `check` says to the person who typed a refused command.
pub data Message : Type 0 where
  bad_signature wrong_workspace wrong_channel not_listed : Message
  bad_wording : ArgError → Message

-- `Outcome`; `is_ok` is its field `ok`.
pub record Outcome : Type 0 where
  pub is_ok : Bool
  pub status : ℕ
  pub message : Option Message
  pub args : Option Args
  pub form : Form
  pub unverified : Bool

-- The parameters of `check` that the configuration gives.
pub record Settings : Type 0 where
  pub signing_secret : Text
  pub allowed_team : Text
  pub allowed_channels : List Text
  pub allowed_users : List Text

abbrev pub Headers : Type 0
Headers = Text → Option Text

-- `Outcome(ok=False, message=…, form=form)`
abbrev pub refused : Message → Form → Outcome
refused m form = record {
  is_ok = false;
  status = 200;
  message = some m;
  args = none;
  form = form;
  unverified = false;
}

abbrev pub unsigned : Outcome
unsigned = record {
  is_ok = false;
  status = 401;
  message = some bad_signature;
  args = none;
  form = [];
  unverified = false;
}

-- `value not in allowed`, for a value that may be absent.
abbrev pub is_outside : List Text → Option Text → Bool
is_outside allowed none = true
is_outside allowed (some v) = not (contains allowed v)

-- The third and the second check, in the order of the code: a list or a team that is not set
-- checks nothing.
pub objection : Settings → Form → Option Message
objection s form =
    if not (is_empty s.allowed_team) && not (get (codes "team_id") form == some s.allowed_team)
    then some wrong_workspace
    else if not (is_empty s.allowed_channels)
        && is_outside s.allowed_channels (get (codes "channel_id") form)
    then some wrong_channel
    else if not (is_empty s.allowed_users)
        && is_outside s.allowed_users (get (codes "user_id") form)
    then some not_listed
    else none

-- The fourth check.
abbrev pub judged : Form → Bool → Parsed → Outcome
judged form unverified (slack_arg_error error) = refused (bad_wording error) form
judged form unverified (parsed args) = record {
  is_ok = true;
  status = 200;
  message = none;
  args = some args;
  form = form;
  unverified = unverified;
}

-- The fourth check, unless there is an objection.
abbrev pub unless : Option Message → Form → Bool → Result Outcome
unless (some m) form unverified = ok (refused m form)
unless none form unverified = do
  result ← parse (or_default (get (codes "text") form) [])
  ok (judged form unverified result)

-- The second, the third and the fourth check of a form.
pub check_form : Settings → Form → Bool → Result Outcome
unfolding objection
check_form s form unverified = unless (objection s form) form unverified

module _ (hmac_hex : Bytes → Bytes → Text) where
  -- `check`; what `is_valid` and `parse` raise goes through.
  unfoldable pub check : Bytes → Headers → Settings → ℕ → Result Outcome
  unfolding check_form
  check body headers s now =
      if is_empty s.signing_secret then check_form s (parse_form body) true else do
        valid ←
            is_valid hmac_hex body (or_default (headers (codes "X-Slack-Request-Timestamp")) [])
              (or_default (headers (codes "X-Slack-Signature")) []) s.signing_secret now
        if valid then check_form s (parse_form body) false else ok unsigned

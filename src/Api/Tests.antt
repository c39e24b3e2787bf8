-- ===== src/Api/Tests.antt =====
-- The single-host API at a concrete command and its retry.
use slack_runtests.Prelude.{
  Text, Text-discrete, [], codes, if◌then◌else◌, length, none, refl, ℕ_discrete, ◌==◌, ◌∷◌, ◌≡◌,
  nat_eq, option_eq, text_eq, int_eq,
}
use slack_runtests.Api.{ApiConfig, Runs, already_queued, handle, handle_retry, handled}
use slack_runtests.Python.{Bytes}
use slack_runtests.Forms.{Form, get}
use slack_runtests.Parsing.{Args}

abbrev toy_digest : Bytes → Bytes → Text
toy_digest key message = if length key == length message then codes "00ff" else codes "ab12"

abbrev api_config : ApiConfig
api_config = record {
  settings = record {
    signing_secret = codes "key";
    allowed_team = [];
    allowed_channels = [];
    allowed_users = [];
  };
  default_channel = codes "ci";
  mode = codes "local";
}

abbrev command_form : Form
command_form = (codes "text", codes "-p webapp") ∷ (codes "trigger_id", codes "13.7") ∷ []

abbrev command_args : Args
command_args = record {
  action = codes "run";
  product = codes "webapp";
  server = codes "staging";
  select = none;
  marker = none;
}

abbrev other_form : Form
other_form = (codes "text", codes "-p billing") ∷ (codes "trigger_id", codes "13.8") ∷ []

-- The record after the command, and after another command.
abbrev recorded : Runs
recorded =
    handled toy_digest (λ t. t) api_config ((other_form, command_args, 110) ∷ [])
      (handle toy_digest (λ t. t) api_config command_form command_args 100 []).0

handle_retry_example :
    handle toy_digest (λ t. t) api_config command_form command_args 130 recorded
    ≡ (recorded, already_queued (codes "13.7"), none)
unfolding get Text-discrete ℕ_discrete
handle_retry_example =
    handle_retry toy_digest (λ t. t) api_config command_form command_form command_args command_args
      100 130 ((other_form, command_args, 110) ∷ []) [] refl refl refl

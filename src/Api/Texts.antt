-- ===== src/Api/Texts.antt =====
-- What the person who typed the command reads: the texts of `slack_commands` of
-- src/slack_runtests/api.py, the V1 and V2 endpoint.
use slack_runtests.Api.{
  http_error, ephemeral, no_run, already_queued, ApiReply, Dispatch, last_run, queued_run,
}
use slack_runtests.Prelude.{Option, Text, [], codes, none, refl, some, ℕ, ◌++◌, ◌≡◌}
use slack_runtests.Decimal.{show_int}
use slack_runtests.Parsing.{ArgError}
use slack_runtests.Edge.Texts.{message_text, seconds_since}

-- The text of a reply, for the task that is left behind, if one is.
unfoldable pub api_text : (ArgError → Text) → ℕ → ApiReply → Option Dispatch → Text
unfolding message_text seconds_since show_int
api_text wording now (http_error status message) task = elim message [
  | none ↦ codes "None"
  | some m ↦ message_text wording m
]
api_text wording now (ephemeral message) task = elim message [
  | none ↦ codes "None"
  | some m ↦ message_text wording m
]
api_text wording now (no_run product) task =
    codes "No recorded run for `" ++ (product ++ codes "` yet.")
api_text wording now (last_run r) task =
    codes "Last `"
    ++ (r.product
        ++ (codes "` run on `"
            ++ (r.server
                ++ (codes "` — id `"
                    ++ (r.correlation_id
                        ++ (codes "`, started "
                            ++ (show_int (seconds_since r.started now)
                                ++ (codes "s ago, mode `" ++ (r.mode ++ codes "`.")))))))))
api_text wording now (already_queued id) task =
    codes "That run is already queued (`" ++ (id ++ codes "`).")
api_text wording now (queued_run id) none = []
api_text wording now (queued_run id) (some d) =
    codes "⏳ Queued `"
    ++ (d.args.product
        ++ (codes "` on `"
            ++ (d.args.server
                ++ (codes "` (`"
                    ++ (d.run.mode
                        ++ (codes "`, id `"
                            ++ (id
                                ++ (codes "`) — results will post to "
                                    ++ (d.channel ++ codes ".")))))))))

-- The text of the answer to a command that starts a run.
started_text :
    api_text
      (λ e. [])
      5
      (queued_run (codes "ab12"))
      (some (record {
        run = record {
          correlation_id = codes "ab12";
          product = codes "webapp";
          server = codes "staging";
          started = 5;
          mode = codes "local";
        };
        args = record {
          action = codes "run";
          product = codes "webapp";
          server = codes "staging";
          select = none;
          marker = none;
        };
        channel = codes "#ci";
        user = codes "U1";
      }))
    ≡ codes "⏳ Queued `webapp` on `staging` (`local`, id `ab12`) — results will post to #ci."
unfolding api_text
started_text = refl

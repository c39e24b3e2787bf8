-- ===== src/Edge/Texts.antt =====
-- What the person who typed the command reads: the texts of `slack_commands` and `_describe` of
-- edge/edge_server/app.py, and those of src/slack_runtests/gate.py.
use slack_runtests.Edge.Slack.{
  http_error, SlackReply, already_queued, described, ephemeral, no_run, queued_alone, queued_for,
}
use slack_runtests.Prelude.{
  Bool, Bool-cases, Option, Option-cases, Text, [], arith, codes, false, if◌then◌else◌, inl, inr,
  is_empty, leb, negate, negsuc, none, not, or_default, pos, some, ℕ, ℤ, ◌++◌, ◌+◌, ◌-◌, ◌/◌, ◌==◌,
  ◌∷◌, ◌≡◌, option_eq, nat_eq, text_eq, int_eq,
}
use slack_runtests.Python.{Result, Result-cases, ok, raised, type_error}
use slack_runtests.Decimal.{show, show_int, show_tenths}
use slack_runtests.Parsing.{ArgError, Args, servers}
use slack_runtests.Gate.{
  Message, bad_signature, bad_wording, not_listed, wrong_channel, wrong_workspace,
}
use slack_runtests.Store.Rows.{JobRow, JobState, abandoned, claimed, done, failed, queued, running}
use slack_runtests.Store.Timed.{IsTimed}

-- The texts of the gate; `wording` is the text of a SlackArgError.
unfoldable pub message_text : (ArgError → Text) → Message → Text
message_text wording bad_signature = codes "bad signature"
message_text wording wrong_workspace = codes "This command is not available in this workspace."
message_text wording wrong_channel = codes "This command is not enabled in this channel."
message_text wording not_listed = codes "You are not on the test-automation allowlist."
message_text wording (bad_wording e) =
    codes "`/runtests`: " ++ wording e ++ codes "\nTry: `/runtests -p webapp -s staging -k smoke`"

-- `str(x)` of an integer or None, and of a text or None.
unfoldable pub shown_count : Option ℤ → Text
unfolding show_int
shown_count none = codes "None"
shown_count (some n) = show_int n

abbrev pub shown_text : Option Text → Text
shown_text o = or_default o (codes "None")

-- `f"{t:.1f}"` of a time in microseconds, which may be negative.
unfoldable pub shown_time : ℤ → Text
unfolding show_tenths
shown_time (pos t) = show_tenths t
shown_time (negsuc t) = b'-' ∷ show_tenths (t + 1)

-- `int(now - then)` in seconds, of times in microseconds.
unfoldable pub seconds_since : ℕ → ℕ → ℤ
seconds_since since now =
    if leb since now then pos ((now - since) / 1000000) else negate (pos ((since - now) / 1000000))

-- The value of a state.
unfoldable pub state_text : JobState → Text
state_text queued = codes "queued"
state_text claimed = codes "claimed"
state_text running = codes "running"
state_text done = codes "done"
state_text failed = codes "failed"
state_text abandoned = codes "abandoned"

-- `bool(t)` of a time or None, and of a text or None.
abbrev pub is_time : Option ℕ → Bool
is_time none = false
is_time (some t) = not (t == 0)

abbrev pub titled : JobRow → Text
titled r =
    codes "`" ++ r.product ++ codes "` on `" ++ r.server ++ codes "` — id `" ++ r.id ++ codes "`, "

-- `_describe`; it raises for a job that has ended and has no duration.
unfoldable pub describe : ℕ → JobRow → Result Text
unfolding shown_count shown_time seconds_since state_text show_int
describe now r =
    if is_time r.finished_at
    then (elim r.duration [
      | none ↦ raised type_error
      | some t ↦ ok (
          titled r
          ++ state_text r.state
          ++ codes ": "
          ++ shown_count r.passed
          ++ codes " passed · "
          ++ shown_count r.failed
          ++ codes " failed · "
          ++ shown_count r.skipped
          ++ codes " skipped in "
          ++ shown_time t
          ++ codes "s (ran on `"
          ++ shown_text r.runner_id
          ++ codes "`).")
    ])
    else ok (
        let place =
          if is_empty (or_default r.runner_id [])
          then []
          else codes " on `" ++ or_default r.runner_id [] ++ codes "`" in
        titled r
        ++ state_text r.state
        ++ place
        ++ codes ", queued "
        ++ show_int (seconds_since r.created_at now)
        ++ codes "s ago.")

-- The text of a reply, for the arguments of the command.
unfoldable pub reply_text : (ArgError → Text) → Args → ℕ → SlackReply → Result Text
unfolding message_text describe show
reply_text wording a now (http_error status message) =
    ok (elim message [ none ↦ codes "None" | some m ↦ message_text wording m ])
reply_text wording a now (ephemeral message) =
    ok (elim message [ none ↦ codes "None" | some m ↦ message_text wording m ])
reply_text wording a now (no_run product) =
    ok (codes "No recorded run for `" ++ product ++ codes "` yet.")
reply_text wording a now (described r) = describe now r
reply_text wording a now (already_queued id) =
    ok (codes "That run is already queued (`" ++ id ++ codes "`).")
reply_text wording a now (queued_alone id) = ok (
    codes "⚠"
    ++ (0xfe0f ∷ codes " Queued `")
    ++ a.product
    ++ codes "` on `"
    ++ a.server
    ++ codes "` (`"
    ++ id
    ++ codes
        "`), but **no test server is online** to take it. It will run as soon as one checks in.")
reply_text wording a now (queued_for servers id channel) = ok (
    codes "⏳ Queued `"
    ++ a.product
    ++ codes "` on `"
    ++ a.server
    ++ codes "` (`"
    ++ id
    ++ codes "`) — "
    ++ show servers
    ++ codes " test server(s) available. Results will post to "
    ++ channel
    ++ codes ".")

pub describe_total : (now : ℕ) (r : JobRow) → IsTimed r → (t : Text) × (describe now r ≡ ok t)
unfolding describe
describe_total now r c = elim (Result-cases (describe now r)) [
  | inl (t, e) ↦ (t, e)
  | inr (x, raises) ↦ absurd (elim (Bool-cases (is_time r.finished_at)) [
    | inr early ↦ cc (rw (early, describe) at raises)
    | inl late ↦ elim (Option-cases r.duration) [
      | inr (t, took) ↦ cc (rw (late, took, describe) at raises)
      | inl untimed ↦ ground (arith, c, untimed, late, Option-cases r.finished_at)
    ]
  ])
]

-- ===== src/Reporter.antt =====
-- test-server/test_server/reporter.py: what a test server says of a job. Each message is one of a
-- fresh notifier, so that none edits another.
use slack_runtests.Prelude.{
  Bool, List, Option, Text, [], codes, if◌then◌else◌, is_empty, none, not, pos, some, ℕ, ℤ, ◌++◌,
  ◌==◌, ◌∷◌, option_eq, nat_eq, text_eq, int_eq,
}
use slack_runtests.Strings.{join}
use slack_runtests.Python.{Result, key_error, ok, raised, ◌>>=◌}
use slack_runtests.Decimal.{show_int, show_tenths}
use slack_runtests.Notifier.{Event, SlackNotifier, Unicode, finish, new_notifier, post}

-- A value of the payload: a text, or what is no text with its `str` and whether it is true.
pub data Value : Type 0 where
  text : Text → Value
  other : Text → Bool → Value

abbrev pub str : Value → Text
str (text s) = s
str (other s truth) = s

abbrev pub is_true : Value → Bool
is_true (text s) = not (is_empty s)
is_true (other s truth) = truth

-- The payload of a job, as far as it is read: a key that is absent is none.
pub record Payload : Type 0 where
  pub job_id : Option Value
  pub product : Option Value
  pub server : Option Value
  pub select : Option Value
  pub marker : Option Value
  pub slack_channel : Option Value

-- `str(job.get(key) or "")`
abbrev pub str_or_empty : Option Value → Text
str_or_empty none = []
str_or_empty (some v) = if is_true v then str v else []

-- `job[key]`
abbrev pub key_of : Option Value → Result Text
key_of none = raised key_error
key_of (some v) = ok (str v)

-- What the messages show of the job.
pub record Shown : Type 0 where
  pub product : Text
  pub server : Text
  pub job_id : Text

-- The keys are read in the order of the message.
unfoldable pub shown_of : Payload → Result Shown
shown_of job = do
  product ← key_of job.product
  server ← key_of job.server
  job_id ← key_of job.job_id
  ok (record { product = product; server = server; job_id = job_id })

-- `JobReporter`
pub record JobReporter : Type 0 where
  pub channel : Text
  pub runner_id : Text

-- What is outside: Python's tables, the token of the environment, and the clock.
pub record Outside : Type 0 where
  pub unicode : Unicode
  pub variable : Option Text
  pub clock : ℕ

-- `_notifier`
unfoldable pub notifier : Outside → JobReporter → SlackNotifier
unfolding new_notifier
notifier o r = new_notifier o.unicode (some r.channel) o.variable o.clock

-- A message of a fresh notifier. What Slack answers is not read.
unfoldable pub post_fresh : Outside → JobReporter → Text → List Event
unfolding notifier post
post_fresh o r message = let (n, sent, events) = post none message (notifier o r) in events

unfoldable pub received_text : JobReporter → Shown → Text
received_text r j =
    codes "📥 Received `"
    ++ j.product
    ++ codes "` on `"
    ++ j.server
    ++ codes "` (`"
    ++ j.job_id
    ++ codes "`) — picked up by `"
    ++ r.runner_id
    ++ codes "`."

unfoldable pub started_text : Shown → List Text → Text
unfolding join
started_text j argv =
    codes "▶"
    ++ 0xfe0f ∷ codes " Running `"
    ++ j.product
    ++ codes "` on `"
    ++ j.server
    ++ codes "` (`"
    ++ j.job_id
    ++ codes "`)\n`"
    ++ join b' ' argv
    ++ codes "`"

unfoldable pub completed_text : Shown → ℤ → ℕ → Text
unfolding show_int show_tenths
completed_text j exit_code duration =
    (if exit_code == pos 0 then codes "✅" else codes "❌")
    ++ codes " Finished `"
    ++ j.product
    ++ codes "` on `"
    ++ j.server
    ++ codes "` (`"
    ++ j.job_id
    ++ codes "`) in "
    ++ show_tenths duration
    ++ codes "s — "
    ++ (if exit_code == pos 0
        then codes "passed"
        else codes "failed (exit " ++ show_int exit_code ++ codes ")")
    ++ codes "."

-- `summary`
unfoldable pub summary : Outside → JobReporter → ℤ → ℤ → ℤ → ℕ → List Text → List Event
unfolding notifier finish
summary o r good bad left duration failed_ids =
    let (n, sent, events) =
      finish none good bad left (some duration) none failed_ids o.clock (notifier o r) in
    events

-- ===== src/Local.antt =====
-- src/slack_runtests/runners/local.py: run pytest on this machine and report to Slack.
pub mod Counting
pub mod Laws
mod Tests
use slack_runtests.Python.{Exn, Result, digits, max_str_digits, ok, raised, value_error, ◌>>=◌}
use slack_runtests.Notifier.{post, finish, Event, SlackNotifier, is_enabled, start, update}
use slack_runtests.Prelude.{
  Bool, List, Option, Text, [], codes, drop, if◌then◌else◌, is_empty, length, ltb, none, not,
  or_default, pos, some, true, ℕ, ℤ, ◌*◌, ◌++◌, ◌+◌, ◌-◌, ◌==◌, ◌∷◌, int_eq, option_eq, text_eq,
  nat_eq,
}
use slack_runtests.Strings.{is_digit, join, starts_with}
use slack_runtests.Parsing.{is_bad}
use slack_runtests.Store.History.{run}
use slack_runtests.Store.Rows.{state_eq}

-- What is found outside: whether `uv` is installed, the path of this interpreter.
pub record Machine : Type 0 where
  pub has_uv : Bool
  pub executable : Text

abbrev pub launcher : Machine → List Text
launcher m =
    if m.has_uv
    then codes "uv" ∷ codes "run" ∷ codes "pytest" ∷ []
    else m.executable ∷ codes "-m" ∷ codes "pytest" ∷ []

-- `[flag, value]`, if there is a value that is not empty.
abbrev pub option_of : Text → Option Text → List Text
option_of name text = let v = or_default text [] in if is_empty v then [] else name ∷ v ∷ []

unfoldable pub build_argv : Machine → Text → Text → Option Text → Option Text → Text → List Text
build_argv m product server select marker suite_root =
    launcher m
    ++ ((suite_root ++ b'/' ∷ product) ∷ (codes "--server=" ++ server) ∷ [])
    ++ option_of (codes "-k") select
    ++ option_of (codes "-m") marker
    ++ (codes "-q" ∷ codes "--junit-xml=results.xml" ∷ [])

-- The words that the summary line of pytest counts.
pub data Word : Type 0 where
  passed failed skipped errors : Word

pub word_of : Text → Option Word
unfolding starts_with
word_of s =
    if starts_with (codes "passed") s
    then some passed
    else if starts_with (codes "failed") s
    then some failed
    else if starts_with (codes "skipped") s
    then some skipped
    else if starts_with (codes "error") s
    then some errors
    else none

-- `int(count)` for the digits of a match: their value and their number.
abbrev pub counted : ℕ × ℕ → Word → Result (List (ℕ × Word)) → Result (List (ℕ × Word))
counted (n, many) w rest =
    if ltb max_str_digits many then raised value_error else rest >>= λ found. ok ((n, w) ∷ found)

-- The digits that stand directly in front of the place.
abbrev pub one_more : Option (ℕ × ℕ) → ℕ → ℕ × ℕ
one_more none c = (c - b'0', 1)
one_more (some (n, many)) c = (n * 10 + (c - b'0'), many + 1)

-- `re.findall(r"(\d+) (passed|failed|skipped|error[s]?)", stdout)`, each count as a number; the
-- digits are those of ASCII. The words hold no digit, so that the search may go on behind the space.
pub find_counts : Option (ℕ × ℕ) → Text → Result (List (ℕ × Word))
unfolding word_of is_digit
find_counts run [] = ok []
find_counts run (c ∷ s) =
    let more = find_counts (some (one_more run c)) s in
    let rest = find_counts none s in
    if is_digit c
    then more
    else if c == b' '
    then (elim run [
      | none ↦ rest
      | some digits ↦ elim (word_of s) [ none ↦ rest | some w ↦ counted digits w rest ]
    ])
    else rest

pub record Counts : Type 0 where
  pub passed : ℕ
  pub failed : ℕ
  pub skipped : ℕ

-- The body of the loop of `_counts`.
abbrev pub count_word : Counts → ℕ × Word → Counts
count_word k (n, w) = elim w [
  | passed ↦ record k { passed = n }
  | skipped ↦ record k { skipped = n }
  | failed ↦ record k { failed = k.failed + n }
  | errors ↦ record k { failed = k.failed + n }
]

pub count_words : Counts → List (ℕ × Word) → Counts
count_words k [] = k
count_words k (found ∷ more) = count_words (count_word k found) more

abbrev pub no_counts : Counts
no_counts = record { passed = 0; failed = 0; skipped = 0 }

-- `_counts`
unfoldable pub counts_of : Text → Result Counts
unfolding find_counts count_words
counts_of stdout = do found ← find_counts none stdout; ok (count_words no_counts found)

-- How `subprocess.run` ends: by itself, by the time limit, with an OSError, or with an exception
-- that is not caught, such as that of an output that is no UTF-8.
pub data Ending : Type 0 where
  completed : ℤ → Text → Ending
  timed_out : Ending
  not_started : Text → Ending
  aborted : Exn → Ending

-- What the run meets: the machine, whether the suite is there, how pytest ends, the clock before
-- and after it, and how the calls of Slack for the two messages end.
pub record World : Type 0 where
  pub machine : Machine
  pub suite_is_dir : Bool
  pub ending : Ending
  pub before : ℕ
  pub after : ℕ
  pub first_answer : Result (Option Text)
  pub second_answer : Result (Option Text)

pub record Request : Type 0 where
  pub product : Text
  pub server : Text
  pub select : Option Text
  pub marker : Option Text
  pub suite_root : Text

-- The exit code, what was said, and the command that was executed, if one was.
pub record Ran : Type 0 where
  pub code : ℤ
  pub events : List Event
  pub executed : Option (List Text)

abbrev pub said : ℤ → List Event → Ran
said code events = record { code = code; events = events; executed = none }

-- `argv[-6:]`
abbrev pub last_six : List Text → List Text
last_six argv = drop (length argv - 6) argv

-- The answer of Slack to a message, which is asked for only with a token.
pub heard : SlackNotifier → Result (Option Text) → Result (Option Text)
heard slack answer = if is_enabled slack then answer else ok none

-- The message after pytest has ended.
pub ended : World → List Text → SlackNotifier → List Event → Ending → Result Ran
unfolding update finish counts_of heard
ended w argv slack before timed_out = do
  answer ← heard slack w.second_answer
  let (slack', sent, events) =
      update answer (codes "⏱" ++ 0xfe0f ∷ codes " Run exceeded 15 minutes and was killed.") true
        w.after slack
  ok (record { code = pos 3; events = before ++ events; executed = some argv })
ended w argv slack before (not_started exc) = do
  answer ← heard slack w.second_answer
  let (slack', sent, events) =
      update answer (codes "Could not start pytest: " ++ exc) true w.after slack
  ok (record { code = pos 3; events = before ++ events; executed = some argv })
ended w argv slack before (aborted x) = raised x
ended w argv slack before (completed code out) = do
  k ← counts_of out
  answer ← heard slack w.second_answer
  let (slack', sent, events) =
      finish answer (pos k.passed) (pos k.failed) (pos k.skipped) (some (w.after - w.before)) none
        [] w.after slack
  ok (record { code = code; events = before ++ events; executed = some argv })

-- One message, and an exit code of its own; nothing is executed.
abbrev pub stopped : Result (Option Text) → Text → ℤ → SlackNotifier → Result Ran
stopped answer text code slack = do
  a ← heard slack answer
  let (n, sent, events) = post a text slack
  ok (said code events)

-- The suite is started: the first message, then pytest.
unfoldable pub start_message : Request → List Text → Text
start_message r argv =
    codes "Starting `"
    ++ r.product
    ++ codes "` on `"
    ++ r.server
    ++ codes "`\n`"
    ++ join b' ' (last_six argv)
    ++ codes "`"

pub start_run : World → Request → List Text → SlackNotifier → Result Ran
unfolding start ended start_message heard
start_run w r argv slack = do
  answer ← heard slack w.first_answer
  let (n, sent, events) = start answer (start_message r argv) w.before slack
  ended w argv n events w.ending

-- `run`, with the notifier that is made for its channel.
unfoldable pub run_local : World → Request → SlackNotifier → Result Ran
unfolding build_argv post start_run heard
run_local w r slack =
    if is_bad r.select
    then stopped w.first_answer (codes "Refused `select`: contains disallowed characters.") (pos 4)
        slack
    else if is_bad r.marker
    then stopped w.first_answer (codes "Refused `marker`: contains disallowed characters.") (pos 4)
        slack
    else if not w.suite_is_dir
    then stopped w.first_answer
        (codes "No suite at `" ++ r.suite_root ++ b'/' ∷ r.product ++ codes "` — nothing to run.")
        (pos 5) slack
    else start_run w r (build_argv w.machine r.product r.server r.select r.marker r.suite_root)
        slack

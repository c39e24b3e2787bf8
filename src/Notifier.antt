-- ===== src/Notifier.antt =====
-- src/slack_runtests/slack.py: one status message in a channel, posted and then edited.
pub mod Console
pub mod Laws
pub mod Throttle
pub mod Transport
mod Tests
use slack_runtests.Prelude.{
  Bool, List, Option, Text, [], all_chars, codes, false, if◌then◌else◌, is_empty, is_some, leb,
  length, ltb, none, not, or_default, or_else, pos, some, take, true, ℕ, ℤ, ◌&&◌, ◌*◌, ◌++◌, ◌+◌,
  ◌-◌, ◌/◌, ◌==◌, ◌||◌, ◌∷◌, option_eq, int_eq, nat_eq, text_eq,
}
use slack_runtests.Strings.{is_alnum, starts_with, strip}
use slack_runtests.Decimal.{show, show_int, show_tenths}

abbrev pub default_channel : Text
default_channel = codes "#testing"

-- 5 seconds, in microseconds.
abbrev pub min_between_edits : ℕ
min_between_edits = 5 * 1000000

-- `_token`, of the variable SLACK_BOT_TOKEN.
unfoldable pub token_of : Option Text → Option Text
unfolding strip
token_of variable =
    let token = strip (or_default variable []) in if is_empty token then none else some token

-- What Python's tables say of the characters that are not ASCII: `c.isalnum()`, and whether `c` is
-- a letter that is not in upper case.
pub record Unicode : Type 0 where
  pub alnum : ℕ → Bool
  pub lower : ℕ → Bool

is_lower : Unicode → ℕ → Bool
is_lower u c = if ltb c 128 then leb b'a' c && leb c b'z' else u.lower c

-- `channel[0] in "CGD" and channel[1:].isalnum() and channel.isupper()`
unfoldable pub is_channel_id : Unicode → Text → Bool
unfolding is_alnum is_lower
is_channel_id u [] = false
is_channel_id u (c ∷ s) =
    (c == b'C' || c == b'G' || c == b'D')
    && (not (is_empty s) && all_chars (is_alnum u.alnum) s)
    && all_chars (λ d. not (is_lower u d)) (c ∷ s)

-- The channel without the white space round it.
unfoldable pub named_channel : Unicode → Text → Text
unfolding starts_with is_channel_id
named_channel u channel =
    if is_empty channel
    then default_channel
    else if is_channel_id u channel
    then channel
    else if starts_with (codes "#") channel
    then channel
    else b'#' ∷ channel

-- `_normalise_channel`
unfoldable pub normalise_channel : Unicode → Option Text → Text
unfolding strip named_channel
normalise_channel u channel = named_channel u (strip (or_default channel []))

pub record SentMessage : Type 0 where
  pub channel : Text
  pub ts : Text
  pub dry_run : Bool

pub record SlackNotifier : Type 0 where
  pub channel : Text
  pub token : Option Text
  pub ts : Option Text
  pub last_edit : ℕ
  pub started : ℕ

-- What a call leaves outside: a text on the console, or a request to Slack with its method, the
-- channel, the message that is edited, and the text.
pub data Event : Type 0 where
  printed : Text → Text → Text → Event
  called : Text → Text → Option Text → Text → Event

-- `SlackNotifier(channel)`, with the token of the environment and the clock.
unfoldable pub new_notifier : Unicode → Option Text → Option Text → ℕ → SlackNotifier
unfolding normalise_channel token_of
new_notifier u channel variable now = record {
  channel = normalise_channel u channel;
  token = token_of variable;
  ts = none;
  last_edit = 0;
  started = now;
}

abbrev pub is_enabled : SlackNotifier → Bool
is_enabled n = is_some n.token

-- `_emit_dry_run` and `_call`.
abbrev pub emitted_by : SlackNotifier → Text → Text → Option Text → Text → Event
emitted_by n verb method ts text =
    if is_enabled n then called method n.channel ts text else printed verb n.channel text

-- `post`; `answer` is the `ts` of Slack's answer, if there is an answer that has one.
unfoldable pub post : Option Text → Text → SlackNotifier → SlackNotifier × SentMessage × List Event
unfolding show
post answer text n =
    let ts =
      if is_enabled n
      then or_else answer (or_else n.ts [])
      else or_else n.ts (codes "dry-run-" ++ show (n.started / 1000)) in
    (
      record n { ts = some ts },
      record { channel = n.channel; ts = ts; dry_run = not (is_enabled n) },
      emitted_by n (codes "post") (codes "chat.postMessage") none text ∷ [],
    )

-- `update`, at the clock's time `now`; there is no message where the edit was throttled.
unfoldable pub update :
    Option Text → Text → Bool → ℕ → SlackNotifier → SlackNotifier × Option SentMessage × List Event
unfolding post
update answer text force now n = elim n.ts [
  | none ↦ let (n', sent, events) = post answer text n in (n', some sent, events)
  | some ts ↦ if not force && ltb now (n.last_edit + min_between_edits) then (n, none, []) else (
    record n { last_edit = now },
    some (record { channel = n.channel; ts = ts; dry_run = not (is_enabled n) }),
    emitted_by n (codes "update") (codes "chat.update") (some ts) text ∷ [],
  )
]

-- `start`
unfoldable pub start :
    Option Text → Text → ℕ → SlackNotifier → SlackNotifier × SentMessage × List Event
unfolding post
start answer text now n = post answer text (record n { started = now })

-- The text of `progress`.
unfoldable pub progress_text : ℕ → ℕ → ℕ → Text
unfolding show
progress_text passed failed total =
    let done = passed + failed in
    let bar = if total == 0 then show done else show done ++ codes "/" ++ show total in
    codes "Running… " ++ bar ++ codes "  ✅ " ++ show passed ++ codes "  ❌ " ++ show failed

unfoldable pub progress :
    Option Text → ℕ → ℕ → ℕ → ℕ → SlackNotifier → SlackNotifier × Option SentMessage × List Event
unfolding update progress_text
progress answer passed failed total now n =
    update answer (progress_text passed failed total) false now n

-- `sep.join(parts)` for any separator.
unfoldable pub join_by : Text → List Text → Text
join_by sep [] = []
join_by sep (s ∷ []) = s
join_by sep (s ∷ t ∷ parts) = s ++ sep ++ join_by sep (t ∷ parts)

-- The failed tests: the first five by name, and how many more there are.
pub failed_text : List Text → Text
unfolding join_by show
failed_text [] = []
failed_text (id ∷ ids) =
    codes "\nFailed: "
    ++ join_by (codes ", ") (take 5 (id ∷ ids))
    ++ (if ltb 5 (length (id ∷ ids))
        then codes " (+" ++ show (length (id ∷ ids) - 5) ++ codes " more)"
        else [])

-- The text of `finish`; the duration is in microseconds.
unfoldable pub finish_text : ℤ → ℤ → ℤ → Option ℕ → Option Text → List Text → Text
unfolding join_by show show_int show_tenths failed_text
finish_text passed failed skipped duration run_url failed_ids =
    let icon = if failed == pos 0 then codes "✅" else codes "❌" in
    let counts =
      (icon ++ codes " " ++ show_int passed ++ codes " passed")
      ∷ (show_int failed ++ codes " failed")
      ∷ [] in
    let left = if skipped == pos 0 then [] else (show_int skipped ++ codes " skipped") ∷ [] in
    let time : List Text = elim duration [
      | none ↦ []
      | some t ↦ (codes "in " ++ show_tenths t ++ codes "s") ∷ []
    ] in
    let link =
      if is_empty (or_default run_url [])
      then []
      else codes "\n<" ++ or_default run_url [] ++ codes "|run log>" in
    join_by (codes "  ·  ") (counts ++ left ++ time) ++ failed_text failed_ids ++ link

unfoldable pub finish :
    Option Text
    → ℤ
    → ℤ
    → ℤ
    → Option ℕ
    → Option Text
    → List Text
    → ℕ
    → SlackNotifier
    → SlackNotifier × Option SentMessage × List Event
unfolding update finish_text
finish answer passed failed skipped duration run_url failed_ids now n =
    update answer (finish_text passed failed skipped duration run_url failed_ids) true now n

-- `notify`
unfoldable pub notify :
    Unicode → Option Text → Option Text → Text → Option Text → ℕ → SentMessage × List Event
unfolding new_notifier post
notify u answer variable text channel now =
    let (n, sent, events) = post answer text (new_notifier u channel variable now) in (sent, events)

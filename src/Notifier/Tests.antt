-- ===== src/Notifier/Tests.antt =====
-- The notifier at concrete messages.
use slack_runtests.Prelude.{
  All, List, Text-discrete, [], codes, false, none, pos, refl, some, true, ℕ_discrete, ℤ-discrete,
  ◌∷◌, ◌≡◌,
}
use slack_runtests.Notifier.{
  SlackNotifier, Unicode, finish_text, normalise_channel, post, token_of, update,
}
use slack_runtests.Notifier.Laws.{
  Call, IsPrinted, events_of, events_of-IsPrinted, normalise_channel-idempotent, posts, updates,
}
use slack_runtests.Notifier.Throttle.{IsSpacedFrom, edits_of, edits_of-IsSpaced}
use slack_runtests.Notifier.Console.{
  announce_configuration, configured, dry_run_text, dry_run_text-splitlines, is_break, splitlines,
  warning,
}

abbrev tables : Unicode
tables = record { alnum = λ c. false; lower = λ c. false }

channels :
    (normalise_channel tables (some (codes " testing ")) ≡ codes "#testing")
    × (normalise_channel tables (some (codes "C0123ABC")) ≡ codes "C0123ABC")
    × (normalise_channel tables none ≡ codes "#testing")
unfolding normalise_channel ℕ_discrete
channels = (refl, refl, refl)

summary :
    finish_text (pos 48) (pos 2) (pos 0) (some 91400000) none (codes "a" ∷ codes "b" ∷ [])
    ≡ codes "❌ 48 passed  ·  2 failed  ·  in 91.4s\nFailed: a, b"
unfolding finish_text ℕ_discrete ℤ-discrete
summary = refl

abbrev quiet : SlackNotifier
quiet = record { channel = codes "#x"; token = none; ts = none; last_edit = 0; started = 5000000 }

abbrev calls : List Call
calls =
    posts none (codes "a")
    ∷ updates none (codes "b") false 9000000
    ∷ updates none (codes "c") false 10000000
    ∷ updates none (codes "d") true 11000000
    ∷ []

edited_twice : edits_of calls quiet ≡ (9000000, false) ∷ (11000000, true) ∷ []
unfolding edits_of post update Text-discrete ℕ_discrete
edited_twice = refl

edits_of-IsSpaced_example : IsSpacedFrom 0 (edits_of calls quiet)
edits_of-IsSpaced_example = edits_of-IsSpaced calls quiet

events_of-IsPrinted_example : All IsPrinted (events_of calls quiet)
events_of-IsPrinted_example = events_of-IsPrinted calls quiet refl

normalise_channel-idempotent_sample :
    normalise_channel tables (some (normalise_channel tables (some (codes " testing "))))
    ≡ normalise_channel tables (some (codes " testing "))
normalise_channel-idempotent_sample = normalise_channel-idempotent tables (some (codes " testing "))

dry_run_text-splitlines_sample :
    splitlines (dry_run_text (codes "post") (codes "#x") (codes "a\n[slack:dry-run] post -> #y"))
    ≡ codes "[slack:dry-run] post -> #x" ∷ codes "  a" ∷ codes "  [slack:dry-run] post -> #y" ∷ []
unfolding splitlines is_break ℕ_discrete
dry_run_text-splitlines_sample =
    dry_run_text-splitlines (codes "post") (codes "#x") (codes "a\n[slack:dry-run] post -> #y")
      (refl, (refl, (refl, (refl, tt)))) (refl, (refl, tt)) refl

announced : announce_configuration tables (some (codes " ")) none ≡ (
  (
    warning,
    codes
        "SLACK_BOT_TOKEN unset — Slack is NOT configured. Nothing will be sent to the channel each job names; every message is printed to this console instead, as '[slack:dry-run] <verb> -> <channel>' followed by the text.",
  ),
  false,
)
unfolding announce_configuration configured token_of
announced = refl

-- ===== src/Notifier/Laws.antt =====
-- The notifier: where messages go, how often they are edited, and that nothing is sent without a
-- token.
use slack_runtests.Prelude.{
  All, All-append, Bool, Bool-cases, List, Option, Option-cases, Text, [], codes, inl, inr, ltb,
  none, not, or_default, refl, some, subst, ℕ, ℕ_discrete, ◌&&◌, ◌++◌, ◌+◌, ◌∙◌, ◌∷◌, ◌≡◌,
}
use slack_runtests.Notifier.{
  Event, SlackNotifier, Unicode, called, is_channel_id, min_between_edits, named_channel,
  normalise_channel, post, printed, update,
}
use slack_runtests.Strings.{is_space, starts_with, strip, strip-cons, strip-strip}

named-fixed :
    (u : Unicode) (s : Text)
    → strip s ≡ s
    → (strip (named_channel u s) ≡ named_channel u s)
      × (named_channel u (named_channel u s) ≡ named_channel u s)
unfolding named_channel
named-fixed u [] h =
    (unfold strip is_space ℕ_discrete in refl, unfold is_channel_id starts_with ℕ_discrete in refl)
named-fixed u (c ∷ s) h = elim (Bool-cases (is_channel_id u (c ∷ s))) [
  | inl id ↦ rw id (h, rw id refl)
  | inr other ↦ elim (Bool-cases (starts_with (codes "#") (c ∷ s))) [
    | inl marked ↦ rw (other, marked) (h, rw (other, marked) refl)
    | inr bare ↦
        let marked-strip : strip (b'#' ∷ c ∷ s) ≡ b'#' ∷ c ∷ s =
          subst (λ t. strip (b'#' ∷ t) ≡ b'#' ∷ t) h
            (strip-cons b'#' (c ∷ s) (unfold is_space ℕ_discrete in refl)) in
        rw (other, bare) (marked-strip, unfold is_channel_id starts_with ℕ_discrete in refl)
  ]
]

-- A channel that was normalised is not changed by normalising it again.
pub normalise_channel-idempotent :
    (u : Unicode) (channel : Option Text)
    → normalise_channel u (some (normalise_channel u channel)) ≡ normalise_channel u channel
unfolding normalise_channel
normalise_channel-idempotent u channel =
    let (stripped, same) =
      named-fixed u (strip (or_default channel [])) (strip-strip (or_default channel [])) in
    rw stripped same

-- A call of the notifier, with Slack's answer and the clock where it takes them.
pub data Call : Type 0 where
  posts : Option Text → Text → Call
  updates : Option Text → Text → Bool → ℕ → Call

abbrev pub do_call : Call → SlackNotifier → SlackNotifier × List Event
do_call (posts answer text) n = let (n', sent, events) = post answer text n in (n', events)
do_call (updates answer text force now) n =
    let (n', sent, events) = update answer text force now n in (n', events)

-- What a sequence of calls leaves outside.
pub events_of : List Call → SlackNotifier → List Event
events_of [] n = []
events_of (c ∷ calls) n = let (n', events) = do_call c n in events ++ events_of calls n'

abbrev pub IsPrinted : Event → Type 0
IsPrinted (printed verb channel text) = Unit {0}
IsPrinted (called method channel ts text) = ⊥

do_call-token : (c : Call) (n : SlackNotifier) → (do_call c n).0.token ≡ n.token
unfolding post update
do_call-token (posts answer text) n = refl
do_call-token (updates answer text force now) n = elim (Option-cases n.ts) [
  | inl fresh ↦ rw fresh refl
  | inr (ts, sent) ↦ elim (Bool-cases (not force && ltb now (n.last_edit + min_between_edits))) [
    | inl throttled ↦ rw (sent, throttled) refl
    | inr edited ↦ rw (sent, edited) refl
  ]
]

do_call-IsPrinted : (c : Call) (n : SlackNotifier) → n.token ≡ none → All IsPrinted (do_call c n).1
unfolding post update
do_call-IsPrinted (posts answer text) n h = rw h (tt, tt)
do_call-IsPrinted (updates answer text force now) n h = elim (Option-cases n.ts) [
  | inl fresh ↦ rw (fresh, h) (tt, tt)
  | inr (ts, sent) ↦ elim (Bool-cases (not force && ltb now (n.last_edit + min_between_edits))) [
    | inl throttled ↦ rw (sent, throttled) tt
    | inr edited ↦ rw (sent, edited, h) (tt, tt)
  ]
]

-- Without a token no call, whatever came before it, sends anything to Slack.
pub events_of-IsPrinted :
    (calls : List Call) (n : SlackNotifier) → n.token ≡ none → All IsPrinted (events_of calls n)
unfolding events_of
events_of-IsPrinted [] n h = tt
events_of-IsPrinted (c ∷ calls) n h =
    All-append IsPrinted (do_call c n).1 _ (do_call-IsPrinted c n h)
      (events_of-IsPrinted calls (do_call c n).0 (do_call-token c n ∙ h))

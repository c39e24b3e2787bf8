-- ===== src/Notifier/Throttle.antt =====
-- The notifier: how often a message is edited.
use slack_runtests.Prelude.{
  Bool, Bool-cases, List, Option, Option-cases, Text-discrete, [], any, arith, codes, false,
  if◌then◌else◌, inl, inr, ltb, none, not, refl, some, subst, true, ℕ, ℕ_discrete, ◌&&◌, ◌+◌, ◌==◌,
  ◌∷◌, ◌≡◌, ◌≤◌, ◌⊎◌, int_eq, option_eq, text_eq, nat_eq,
}
use slack_runtests.Notifier.{Event, SlackNotifier, called, min_between_edits, post, printed, update}
use slack_runtests.Notifier.Laws.{Call, do_call, posts, updates}

abbrev is_edit : Event → Bool
is_edit (printed verb channel text) = verb == codes "update"
is_edit (called method channel ts text) = method == codes "chat.update"

-- The clock's time of a call and whether it is forced, if it leaves an edit.
abbrev pub edit_of : Call → SlackNotifier → Option (ℕ × Bool)
edit_of (posts answer text) n = none
edit_of (updates answer text force now) n =
    if any is_edit (do_call (updates answer text force now) n).1 then some (now, force) else none

-- The edits of a sequence of calls.
unfoldable pub edits_of : List Call → SlackNotifier → List (ℕ × Bool)
edits_of [] n = []
edits_of (c ∷ calls) n =
    let rest = edits_of calls (do_call c n).0 in
    elim (edit_of c n) [ none ↦ rest | some e ↦ e ∷ rest ]

-- Each edit is forced or comes at least five seconds after the one before it.
abbrev pub IsSpacedFrom : ℕ → List (ℕ × Bool) → Type 0
IsSpacedFrom last [] = Unit {0}
IsSpacedFrom last ((t, force) ∷ edits) =
    ((force ≡ true) ⊎ (last + min_between_edits ≤ t)) × IsSpacedFrom t edits

-- What one call does to the time of the last edit.
abbrev IsCounted : SlackNotifier → SlackNotifier → Option (ℕ × Bool) → Type 0
IsCounted n n' none = n'.last_edit ≡ n.last_edit
IsCounted n n' (some (t, force)) =
    (n'.last_edit ≡ t) × ((force ≡ true) ⊎ (n.last_edit + min_between_edits ≤ t))

not_throttled :
    (force : Bool) (now last : ℕ)
    → (not force && ltb now (last + min_between_edits)) ≡ false
    → (force ≡ true) ⊎ (last + min_between_edits ≤ now)
not_throttled true now last h = inl refl
not_throttled false now last h = inr (ground arith)

do_call-IsCounted : (c : Call) (n : SlackNotifier) → IsCounted n (do_call c n).0 (edit_of c n)
unfolding post update Text-discrete ℕ_discrete
do_call-IsCounted (posts answer text) n = refl
do_call-IsCounted (updates answer text force now) n = elim (Option-cases n.ts) [
  | inl fresh ↦ elim (Option-cases n.token) [
    | inl dry ↦ rw (fresh, dry) refl
    | inr (token, live) ↦ rw (fresh, live) refl
  ]
  | inr (ts, sent) ↦ elim (Bool-cases (not force && ltb now (n.last_edit + min_between_edits))) [
    | inl throttled ↦ rw (sent, throttled) refl
    | inr edited ↦ elim (Option-cases n.token) [
      | inl dry ↦ rw (sent, edited, dry) (refl, not_throttled force now n.last_edit edited)
      | inr (token, live) ↦
          rw (sent, edited, live) (refl, not_throttled force now n.last_edit edited)
    ]
  ]
]

-- Of all calls in any order, and with any clock, each edit that is sent is forced or comes at
-- least five seconds after the edit before it.
pub edits_of-IsSpaced :
    (calls : List Call) (n : SlackNotifier) → IsSpacedFrom n.last_edit (edits_of calls n)
unfolding edits_of
edits_of-IsSpaced [] n = tt
edits_of-IsSpaced (c ∷ calls) n =
    counted (do_call c n).0 (edit_of c n) (do_call-IsCounted c n)
      (edits_of-IsSpaced calls (do_call c n).0)
  where
    counted :
        (n' : SlackNotifier) (e : Option (ℕ × Bool))
        → IsCounted n n' e
        → IsSpacedFrom n'.last_edit (edits_of calls n')
        → IsSpacedFrom n.last_edit
            (elim e [ none ↦ edits_of calls n' | some x ↦ x ∷ edits_of calls n' ])
    counted n' none h rest = subst (λ t. IsSpacedFrom t (edits_of calls n')) h rest
    counted n' (some (t, force)) (same, spaced) rest =
        (spaced, subst (λ x. IsSpacedFrom x (edits_of calls n')) same rest)

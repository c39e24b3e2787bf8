-- ===== src/Notifier/Console.antt =====
-- What src/slack_runtests/slack.py says on the console: `announce_configuration` at the start, and
-- `_emit_dry_run` for every message where there is no token.
use slack_runtests.Prelude.{
  All, All-append, Bool, Bool-cases, List, Option, Text, [], ap, append_assoc, codes, false,
  if◌then◌else◌, inl, inr, is_empty, is_some, leb, map, or_default, refl, true, ℕ, ℕ_discrete, ◌&&◌,
  ◌++◌, ◌==◌, ◌||◌, ◌∙◌, ◌∷◌, ◌≡◌, nat_eq, int_eq, text_eq, option_eq,
}
use slack_runtests.Notifier.{Unicode, is_enabled, new_notifier, normalise_channel, token_of}
use slack_runtests.Strings.{join, starts_with}

-- `configured`, of the variable SLACK_BOT_TOKEN.
unfoldable pub configured : Option Text → Bool
unfolding token_of
configured variable = is_some (token_of variable)

-- `announce_configuration`: what it logs, with the level, and what it returns.
pub data Level : Type 0 where
  info warning : Level

unfoldable pub announce_configuration : Unicode → Option Text → Option Text → (Level × Text) × Bool
unfolding configured normalise_channel
announce_configuration u variable channel =
    let place =
      if is_empty (or_default channel [])
      then codes "to the channel each job names"
      else codes "to " ++ normalise_channel u channel in
    if configured variable
    then ((info, codes "Slack configured — messages will be sent " ++ place), true)
    else (
      (
        warning,
        codes "SLACK_BOT_TOKEN unset — Slack is NOT configured. Nothing will be sent "
            ++ place
            ++ codes "; every message is printed to this console instead, as "
            ++ codes "'[slack:dry-run] <verb> -> <channel>' followed by the text.",
      ),
      false,
    )

-- A character that ends a line for `str.splitlines`.
unfoldable pub is_break : ℕ → Bool
is_break c = (leb 10 c && leb c 13) || (leb 28 c && leb c 30) || c == 133 || c == 8232 || c == 8233

-- `text.splitlines()`; `\r\n` ends one line.
abbrev pub onto_first : ℕ → List Text → List Text
onto_first c [] = (c ∷ []) ∷ []
onto_first c (line ∷ lines) = (c ∷ line) ∷ lines

unfoldable pub splitlines : Text → List Text
unfolding is_break starts_with
splitlines [] = []
splitlines (c ∷ s) =
    let rest = splitlines s in
    if is_break c
    then if c == 13 && starts_with (codes "\n") s then rest else [] ∷ rest
    else onto_first c rest

abbrev pub indented : Text → Text
indented line = codes "  " ++ line

-- The first line that `_emit_dry_run` prints.
abbrev pub dry_run_head : Text → Text → Text
dry_run_head verb channel = codes "[slack:dry-run] " ++ (verb ++ (codes " -> " ++ channel))

-- `_emit_dry_run`: what is printed, with the line break that `print` adds.
unfoldable pub dry_run_text : Text → Text → Text → Text
unfolding splitlines join
dry_run_text verb channel text =
    dry_run_head verb channel
    ++ (codes "\n" ++ (join b'\n' (map indented (splitlines text)) ++ codes "\n"))

-- A text of one line.
abbrev pub Unbroken : Text → Type 0
Unbroken = All (λ c. is_break c ≡ false)

splitlines-line :
    (line s : Text) → Unbroken line → splitlines (line ++ 10 ∷ s) ≡ line ∷ splitlines s
unfolding splitlines
splitlines-line [] s h = unfold is_break ℕ_discrete in refl
splitlines-line (c ∷ line) s h = rw (h.0, splitlines-line line s h.1) refl

onto_first-Unbroken :
    (c : ℕ) (lines : List Text)
    → is_break c ≡ false
    → All Unbroken lines
    → All Unbroken (onto_first c lines)
onto_first-Unbroken c [] h k = ((h, tt), tt)
onto_first-Unbroken c (line ∷ lines) h k = ((h, k.0), k.1)

splitlines-Unbroken : (s : Text) → All Unbroken (splitlines s)
unfolding splitlines
splitlines-Unbroken [] = tt
splitlines-Unbroken (c ∷ s) = elim (Bool-cases (is_break c)) [
  | inr inside ↦ rw inside (onto_first-Unbroken c (splitlines s) inside (splitlines-Unbroken s))
  | inl ends ↦ elim (Bool-cases (c == 13 && starts_with (codes "\n") s)) [
    | inl pair ↦ rw (ends, pair) (splitlines-Unbroken s)
    | inr single ↦ rw (ends, single) (tt, splitlines-Unbroken s)
  ]
]

splitlines-join :
    (line : Text) (lines : List Text)
    → All Unbroken (line ∷ lines)
    → splitlines (join 10 (map indented (line ∷ lines)) ++ 10 ∷ []) ≡ map indented (line ∷ lines)
unfolding join splitlines
splitlines-join line [] h =
    splitlines-line (indented line) [] (unfold is_break ℕ_discrete in (refl, (refl, h.0)))
splitlines-join line (next ∷ lines) h =
    ap splitlines
      (append_assoc (indented line) (10 ∷ join 10 (map indented (next ∷ lines))) (10 ∷ []))
    ∙ splitlines-line (indented line) _ (unfold is_break ℕ_discrete in (refl, (refl, h.0)))
    ∙ ap (λ l. indented line ∷ l) (splitlines-join next lines h.1)

headed-splitlines :
    (head : Text) (lines : List Text)
    → is_empty lines ≡ false
    → Unbroken head
    → All Unbroken lines
    → splitlines (head ++ (codes "\n" ++ (join b'\n' (map indented lines) ++ codes "\n")))
      ≡ head ∷ map indented lines
headed-splitlines head [] full h k = cc
headed-splitlines head (line ∷ lines) full h k =
    splitlines-line head _ h ∙ ap (λ l. head ∷ l) (splitlines-join line lines k)

-- A message that is printed for want of a token, if its text has a line and its verb and its channel
-- have no line break, is printed as the head and then the lines of the text, each behind two spaces:
-- no line of a text can pass for the head of another message.
pub dry_run_text-splitlines :
    (verb channel text : Text)
    → Unbroken verb
    → Unbroken channel
    → is_empty (splitlines text) ≡ false
    → splitlines (dry_run_text verb channel text)
      ≡ dry_run_head verb channel ∷ map indented (splitlines text)
unfolding dry_run_text
dry_run_text-splitlines verb channel text v c full =
    headed-splitlines (dry_run_head verb channel) (splitlines text) full
      (unfold is_break ℕ_discrete in
        All-append (λ d. is_break d ≡ false) (codes "[slack:dry-run] ")
          (verb ++ (codes " -> " ++ channel))
          (
            refl,
            (
              refl,
              (
                refl,
                (
                  refl,
                  (
                    refl,
                    (
                      refl,
                      (
                        refl,
                        (refl, (refl, (refl, (refl, (refl, (refl, (refl, (refl, (refl, tt))))))))),
                      ),
                    ),
                  ),
                ),
              ),
            ),
          )
          (All-append (λ d. is_break d ≡ false) verb (codes " -> " ++ channel) v
            (refl, (refl, (refl, (refl, c))))))
      (splitlines-Unbroken text)

-- What is announced at the start holds of every notifier that is made with the same token.
announced-is_enabled :
    (u : Unicode) (variable channel : Option Text) (now : ℕ)
    → (announce_configuration u variable channel).1
      ≡ is_enabled (new_notifier u channel variable now)
unfolding announce_configuration configured new_notifier
announced-is_enabled u variable channel now = elim (Bool-cases (is_some (token_of variable))) [
  | inl there ↦ rw there refl
  | inr missing ↦ rw missing refl
]

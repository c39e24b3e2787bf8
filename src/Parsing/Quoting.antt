-- ===== src/Parsing/Quoting.antt =====
-- The parser: an expression in double quotes arrives as one argument.
use slack_runtests.Prelude.{
  All, Text, [], all_chars, arith, codes, false, false≢true, is_empty, length, le→leb, refl, subst,
  true, ℕ, ℕ_discrete, ◌++◌, ◌∷◌, ◌≡◌, ◌≢◌, ◌≤◌, nat_eq, text_eq, int_eq, option_eq,
}
use slack_runtests.Parsing.{drop_last_newline, expression_matches, is_expression_char}
use slack_runtests.Strings.{is_ascii_alpha, is_digit, starts_with}
use slack_runtests.Shlex.{IsUnquoted, backslash, double_quote, is_plain_word}

expression-char-IsUnquoted : (c : ℕ) → is_expression_char c ≡ true → IsUnquoted c
unfolding is_expression_char is_ascii_alpha is_digit ℕ_discrete
expression-char-IsUnquoted c h = (quote, slash)
  where
    quote : c ≢ double_quote
    quote e = absurd (false≢true (subst (λ x. is_expression_char x ≡ true) e h))

    slash : c ≢ backslash
    slash e = absurd (false≢true (subst (λ x. is_expression_char x ≡ true) e h))

body-IsUnquoted :
    (s : Text) → all_chars is_expression_char (drop_last_newline s) ≡ true → All IsUnquoted s
unfolding drop_last_newline
body-IsUnquoted [] h = tt
body-IsUnquoted (c ∷ []) h = elim (ℕ_discrete c 10) [
  | yes last ↦ rw last (((λ e. omega arith), (λ e. omega arith)), tt)
  | no other ↦ (expression-char-IsUnquoted c (grind arith), tt)
]
body-IsUnquoted (c ∷ d ∷ s) h =
    (expression-char-IsUnquoted c (grind arith), body-IsUnquoted (d ∷ s) (grind arith))

pub expression-IsUnquoted : (s : Text) → expression_matches s ≡ true → All IsUnquoted s
unfolding expression_matches
expression-IsUnquoted s h = body-IsUnquoted s (grind arith)

-- A text that does not begin with a dash is a plain value.
abbrev pub IsDashless : Text → Type 0
IsDashless s = starts_with (codes "-") s ≡ false

-- A word without a special character or a dash at its beginning.
abbrev IsSimple : Text → Type 0
IsSimple p = (is_plain_word p ≡ true) × IsDashless p

drop_last_newline-end : (s : Text) → drop_last_newline (s ++ 10 ∷ []) ≡ s
unfolding drop_last_newline
drop_last_newline-end [] = unfold ℕ_discrete in refl
drop_last_newline-end (c ∷ []) = unfold ℕ_discrete in ground arith
drop_last_newline-end (c ∷ d ∷ s) = ground (arith, drop_last_newline-end (d ∷ s))

-- The pattern for expressions lets a line break through behind up to 80 characters that it allows.
pub expression_matches-newline :
    (s : Text)
    → all_chars is_expression_char s ≡ true
    → is_empty s ≡ false
    → length s ≤ 80
    → expression_matches (s ++ 10 ∷ []) ≡ true
unfolding expression_matches
expression_matches-newline s allowed filled short =
    rw (drop_last_newline-end s, allowed, filled, le→leb _ _ short) refl

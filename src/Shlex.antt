-- ===== src/Shlex.antt =====
-- `shlex.split(text)` in POSIX mode, which `parse` of src/slack_runtests/parsing.py calls.
use slack_runtests.Prelude.{
  All, Bool, List, Text, [], ap, append-nil, append_assoc, arith, codes, false, false≢true,
  if◌then◌else◌, is_empty, not, refl, sym, true, ℕ, ℕ_discrete, ◌&&◌, ◌++◌, ◌==◌, ◌||◌, ◌∙◌, ◌∷◌,
  ◌≡◌, ◌≢◌, int_eq, nat_eq, option_eq, text_eq,
}
use slack_runtests.Strings.{join}
use slack_runtests.Python.{Result, ok, raised, value_error, ◌>>=◌}

-- Where the reader stands. An escape remembers the state that it returns to.
pub data Lexing : Type 0 where
  between : Lexing
  word : Lexing
  quoting : ℕ → Lexing
  escaping : Lexing
  escaping_in : ℕ → Lexing

pub is_blank : ℕ → Bool
is_blank c = c == b' ' || c == 9 || c == 10 || c == 13

abbrev pub double_quote : ℕ
double_quote = 34

pub is_quote : ℕ → Bool
is_quote c = c == double_quote || c == 39

abbrev pub backslash : ℕ
backslash = 92

-- A token ends: it counts if it has characters or had quotes.
abbrev pub emit : Text → Bool → List Text → List Text
emit token quoted rest = if not (is_empty token) || quoted then token ∷ rest else rest

abbrev pub emitted : Text → Bool → Result (List Text) → Result (List Text)
emitted token quoted rest = rest >>= λ tokens. ok (emit token quoted tokens)

-- The reader: the state, the token so far, whether it had quotes, and the text that is left.
pub lex : Lexing → Text → Bool → Text → Result (List Text)
unfolding is_blank is_quote
lex between token quoted [] = ok []
lex word token quoted [] = ok (emit token quoted [])
lex (quoting q) token quoted [] = raised value_error
lex escaping token quoted [] = raised value_error
lex (escaping_in q) token quoted [] = raised value_error
lex between token quoted (c ∷ s) =
    let blank = lex between [] false s in
    let escape = lex escaping [] false s in
    let quote = lex (quoting c) [] false s in
    let start = lex word (c ∷ []) false s in
    if is_blank c
    then blank
    else if c == backslash
    then escape
    else if is_quote c
    then quote
    else start
lex word token quoted (c ∷ s) =
    let blank = emitted token quoted (lex between [] false s) in
    let quote = lex (quoting c) token quoted s in
    let escape = lex escaping token quoted s in
    let more = lex word (token ++ c ∷ []) quoted s in
    if is_blank c
    then blank
    else if is_quote c
    then quote
    else if c == backslash
    then escape
    else more
lex (quoting q) token quoted (c ∷ s) =
    let close = lex word token true s in
    let escape = lex (escaping_in q) token true s in
    let more = lex (quoting q) (token ++ c ∷ []) true s in
    if c == q then close else if c == backslash && q == double_quote then escape else more
lex escaping token quoted (c ∷ s) = lex word (token ++ c ∷ []) quoted s
lex (escaping_in q) token quoted (c ∷ s) =
    let kept = lex (quoting q) (token ++ backslash ∷ c ∷ []) quoted s in
    let dropped = lex (quoting q) (token ++ c ∷ []) quoted s in
    if c == backslash || c == q then dropped else kept

unfoldable pub shlex_split : Text → Result (List Text)
unfolding lex
shlex_split text = lex between [] false text

quoted_words :
    shlex_split (codes "-k \"smoke and\" -p '' a\\ b")
    ≡ ok (codes "-k" ∷ codes "smoke and" ∷ codes "-p" ∷ [] ∷ codes "a b" ∷ [])
unfolding shlex_split ℕ_discrete
quoted_words = refl

-- A character that `shlex` gives no meaning to.
abbrev pub IsPlain : ℕ → Type 0
IsPlain c = (is_blank c ≡ false) × (is_quote c ≡ false) × (c ≢ backslash)

pub plain_word :
    (token s rest : Text)
    → All IsPlain s
    → lex word token false (s ++ rest) ≡ lex word (token ++ s) false rest
unfolding lex
plain_word token [] rest h = rw (append-nil token)
plain_word token (c ∷ s) rest h =
    let (blank, quote, escape) = h.0 in
    let step : lex word token false (c ∷ (s ++ rest))
        ≡ lex word (token ++ c ∷ []) false (s ++ rest) =
      ground (arith, blank, quote, escape) in
    step
    ∙ plain_word (token ++ c ∷ []) s rest h.1
    ∙ ap (λ t. lex word t false rest) (append_assoc token (c ∷ []) s)

start_word :
    (c : ℕ) (s rest : Text)
    → All IsPlain (c ∷ s)
    → lex between [] false ((c ∷ s) ++ rest) ≡ lex word (c ∷ s) false rest
unfolding lex
start_word c s rest h =
    let (blank, quote, escape) = h.0 in
    let step : lex between [] false ((c ∷ s) ++ rest) ≡ lex word (c ∷ []) false (s ++ rest) =
      ground (arith, blank, quote, escape) in
    step ∙ plain_word (c ∷ []) s rest h.1

abbrev pub IsPlainWord : Text → Type 0
IsPlainWord w = (is_empty w ≡ false) × All IsPlain w

-- A test for `IsPlainWord`.
is_plain : ℕ → Bool
is_plain c = not (is_blank c) && not (is_quote c) && not (c == backslash)

are_plain : Text → Bool
are_plain [] = true
are_plain (c ∷ s) = is_plain c && are_plain s

unfoldable pub is_plain_word : Text → Bool
unfolding is_plain are_plain is_blank is_quote
is_plain_word w = not (is_empty w) && are_plain w

is_plain-IsPlain : (c : ℕ) → is_plain c ≡ true → IsPlain c
unfolding is_plain
is_plain-IsPlain c h = (
  grind arith,
  grind arith,
  λ e. absurd (false≢true (sym (rw e (unfold is_blank is_quote ℕ_discrete in refl)) ∙ h)),
)

are_plain-IsPlain : (s : Text) → are_plain s ≡ true → All IsPlain s
unfolding are_plain
are_plain-IsPlain [] h = tt
are_plain-IsPlain (c ∷ s) h = (is_plain-IsPlain c (grind arith), are_plain-IsPlain s (grind arith))

pub is_plain_word-IsPlainWord : (w : Text) → is_plain_word w ≡ true → IsPlainWord w
unfolding is_plain_word
is_plain_word-IsPlainWord [] h = absurd (false≢true h)
is_plain_word-IsPlainWord (c ∷ s) h = (refl, are_plain-IsPlain (c ∷ s) h)

lex-join :
    (w : Text) (words : List Text)
    → All IsPlainWord (w ∷ words)
    → lex between [] false (join b' ' (w ∷ words)) ≡ ok (w ∷ words)
unfolding join
lex-join [] words h = cc (h.0.0)
lex-join (c ∷ s) [] h =
    ap (lex between [] false) (sym (append-nil (c ∷ s)))
    ∙ start_word c s [] h.0.1
    ∙ unfold lex in refl
lex-join (c ∷ s) (v ∷ words) h =
    start_word c s (b' ' ∷ join b' ' (v ∷ words)) h.0.1 ∙ ended (lex-join v words h.1)
  where
    ended :
        lex between [] false (join b' ' (v ∷ words)) ≡ ok (v ∷ words)
        → lex word (c ∷ s) false (b' ' ∷ join b' ' (v ∷ words)) ≡ ok ((c ∷ s) ∷ v ∷ words)
    ended e = unfold lex is_blank ℕ_discrete in rw e

-- Words of plain characters that are joined by spaces are split into the same words.
pub shlex_split-join :
    (w : Text) (words : List Text)
    → All IsPlainWord (w ∷ words)
    → shlex_split (join b' ' (w ∷ words)) ≡ ok (w ∷ words)
shlex_split-join w words h = unfold shlex_split in lex-join w words h

-- A character that does not end a text in double quotes.
abbrev pub IsUnquoted : ℕ → Type 0
IsUnquoted c = (c ≢ double_quote) × (c ≢ backslash)

-- A double quote that is never closed is a ValueError, whatever words stand before it.
lex-unclosed :
    (token s : Text) (quoted : Bool)
    → All IsUnquoted s
    → lex (quoting double_quote) token quoted s ≡ raised value_error
unfolding lex
lex-unclosed token [] quoted h = refl
lex-unclosed token (c ∷ s) quoted h = ground (arith, h.0, lex-unclosed (token ++ c ∷ []) s true h.1)

-- Words that stand before a space are read off.
read_words :
    (w : Text) (words : List Text) (r : Text)
    → All IsPlainWord (w ∷ words)
    → lex between [] false (join b' ' (w ∷ words) ++ b' ' ∷ r)
      ≡ (lex between [] false r >>= λ tokens. ok (w ∷ words ++ tokens))
unfolding join
read_words [] words r h = cc (h.0.0)
read_words (c ∷ s) [] r h = start_word c s (b' ' ∷ r) h.0.1 ∙ ended
  where
    ended :
        lex word (c ∷ s) false (b' ' ∷ r)
        ≡ (lex between [] false r >>= λ tokens. ok ((c ∷ s) ∷ tokens))
    ended = unfold lex is_blank ℕ_discrete in refl
read_words (c ∷ s) (v ∷ words) r h =
    ap (lex between [] false) (append_assoc (c ∷ s) (b' ' ∷ join b' ' (v ∷ words)) (b' ' ∷ r))
    ∙ start_word c s (b' ' ∷ (join b' ' (v ∷ words) ++ b' ' ∷ r)) h.0.1
    ∙ ended
    ∙ ap (emitted (c ∷ s) false) (read_words v words r h.1)
    ∙ bind_twice (lex between [] false r)
  where
    ended :
        lex word (c ∷ s) false (b' ' ∷ (join b' ' (v ∷ words) ++ b' ' ∷ r))
        ≡ emitted (c ∷ s) false (lex between [] false (join b' ' (v ∷ words) ++ b' ' ∷ r))
    ended = unfold lex is_blank ℕ_discrete in refl

    bind_twice :
        (x : Result (List Text))
        → emitted (c ∷ s) false (x >>= λ tokens. ok (v ∷ words ++ tokens))
          ≡ (x >>= λ tokens. ok ((c ∷ s) ∷ v ∷ words ++ tokens))
    bind_twice (ok tokens) = refl
    bind_twice (raised e) = refl

pub shlex_split-unclosed :
    (w : Text) (words : List Text) (s : Text)
    → All IsPlainWord (w ∷ words)
    → All IsUnquoted s
    → shlex_split (join b' ' (w ∷ words) ++ b' ' ∷ double_quote ∷ s) ≡ raised value_error
shlex_split-unclosed w words s h k =
    unfold shlex_split in read_words w words (double_quote ∷ s) h ∙ rw at_quote refl
  where
    at_quote : lex between [] false (double_quote ∷ s) ≡ raised value_error
    at_quote = unfold lex is_blank is_quote ℕ_discrete in lex-unclosed [] s false k

emit-quoted : (token : Text) → emit token true [] ≡ token ∷ []
emit-quoted [] = refl
emit-quoted (c ∷ token) = refl

lex-quoted :
    (token s : Text) (quoted : Bool)
    → All IsUnquoted s
    → lex (quoting double_quote) token quoted (s ++ double_quote ∷ []) ≡ ok ((token ++ s) ∷ [])
unfolding lex
lex-quoted token [] quoted h =
    rw (append-nil token) (unfold ℕ_discrete in ap ok (emit-quoted token))
lex-quoted token (c ∷ s) quoted h =
    let step : lex (quoting double_quote) token quoted ((c ∷ s) ++ double_quote ∷ [])
        ≡ lex (quoting double_quote) (token ++ c ∷ []) true (s ++ double_quote ∷ []) =
      ground (arith, h.0) in
    step
    ∙ lex-quoted (token ++ c ∷ []) s true h.1
    ∙ ap (λ t. ok (t ∷ [])) (append_assoc token (c ∷ []) s)

-- What stands in double quotes behind plain words is one argument.
pub shlex_split-quoted :
    (w : Text) (words : List Text) (s : Text)
    → All IsPlainWord (w ∷ words)
    → All IsUnquoted s
    → shlex_split (join b' ' (w ∷ words) ++ b' ' ∷ double_quote ∷ (s ++ double_quote ∷ []))
      ≡ ok (w ∷ words ++ s ∷ [])
unfolding shlex_split
shlex_split-quoted w words s h k =
    read_words w words (double_quote ∷ (s ++ double_quote ∷ [])) h
    ∙ ap (λ r. r >>= λ tokens. ok (w ∷ words ++ tokens)) at_quote
  where
    at_quote : lex between [] false (double_quote ∷ (s ++ double_quote ∷ [])) ≡ ok (s ∷ [])
    at_quote = unfold lex is_blank is_quote ℕ_discrete in lex-quoted [] s false k

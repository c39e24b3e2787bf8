-- ===== src/Parsing/Laws.antt =====
-- The parser: what it lets through, what an expression may be, and where it raises.
use slack_runtests.Prelude.{
  All, Bool, Bool-cases, List, Option, Option-cases, Text, Text-discrete, [], codes, contains,
  false, inl, inr, length, none, or_default, refl, some, subst, suc, true, zero, ℕ, ℕ_discrete,
  ◌++◌, ◌∷◌, ◌≡◌, nat_eq, text_eq, int_eq, option_eq,
}
use slack_runtests.Parsing.{
  Args, Flag, Given, Item, Parsed, actions, and_then, bad_usage, check_expressions, classify,
  complete, consume, dashes, flag, is_bad, marker_flag, nothing_given, parse, parse_args, parsed,
  product_flag, products, select_flag, server_flag, servers, skip_dashes, slack_arg_error, store,
  store_action, value,
}
use slack_runtests.Strings.{join}
use slack_runtests.Python.{Result, Result-cases, ok, raised, value_error}
use slack_runtests.Shlex.{IsPlainWord, IsUnquoted, double_quote, shlex_split, shlex_split-unclosed}

abbrev pub is_allowed : List Text → Option Text → Bool
is_allowed choices none = true
is_allowed choices (some v) = contains choices v

-- Every value so far is one of its choices.
record IsChecked (g : Given) : Type 0 where
  action : is_allowed actions g.action ≡ true
  product : is_allowed products g.product ≡ true
  server : is_allowed servers g.server ≡ true

-- The outcome of a step, if it has one, is checked.
abbrev Checked : Option Given → Type 0
Checked none = Unit {0}
Checked (some g) = IsChecked g

store-IsChecked : (f : Flag) (v : Text) (g : Given) → IsChecked g → Checked (store f v g)
unfolding store
store-IsChecked product_flag v g h = elim (Bool-cases (contains products v)) [
  | inl fits ↦ rw fits (record { action = h.action; product = fits; server = h.server })
  | inr wrong ↦ rw wrong tt
]
store-IsChecked server_flag v g h = elim (Bool-cases (contains servers v)) [
  | inl fits ↦ rw fits (record { action = h.action; product = h.product; server = fits })
  | inr wrong ↦ rw wrong tt
]
store-IsChecked select_flag v g h = record {
  action = h.action;
  product = h.product;
  server = h.server;
}
store-IsChecked marker_flag v g h = record {
  action = h.action;
  product = h.product;
  server = h.server;
}

store_action-IsChecked : (v : Text) (g : Given) → IsChecked g → Checked (store_action v g)
unfolding store_action
store_action-IsChecked v g h = elim (Bool-cases (contains actions v)) [
  | inl fits ↦ rw fits (record { action = fits; product = h.product; server = h.server })
  | inr wrong ↦ rw wrong tt
]

and_then-Checked :
    (o : Option Given) (f : Given → Option Given)
    → Checked o
    → ((g : Given) → IsChecked g → Checked (f g))
    → Checked (and_then o f)
and_then-Checked none f h k = tt
and_then-Checked (some g) f h k = k g h

consume-IsChecked :
    (n : ℕ) (is_open : Bool) (items : List Item) (g : Given)
    → IsChecked g
    → Checked (consume n is_open items g)
unfolding consume
consume-IsChecked zero is_open items g h = tt
consume-IsChecked (suc n) is_open [] g h = h
consume-IsChecked (suc n) is_open (flag f (some v) ∷ items) g h =
    and_then-Checked (store f v g) _ (store-IsChecked f v g h)
      (λ g' h'. consume-IsChecked n is_open items g' h')
consume-IsChecked (suc n) is_open (flag f none ∷ value v ∷ items) g h =
    and_then-Checked (store f v g) _ (store-IsChecked f v g h)
      (λ g' h'. consume-IsChecked n is_open items g' h')
consume-IsChecked (suc n) true (value v ∷ items) g h =
    and_then-Checked (store_action v g) _ (store_action-IsChecked v g h)
      (λ g' h'. consume-IsChecked n false (skip_dashes items) g' h')
consume-IsChecked (suc n) true (dashes ∷ items) g h = consume-IsChecked n true items g h
consume-IsChecked (suc n) is_open _ g h = tt

-- Arguments that the allowlists and the pattern for expressions let through.
pub record IsAllowed (a : Args) : Type 0 where
  pub action : contains actions a.action ≡ true
  pub product : contains products a.product ≡ true
  pub server : contains servers a.server ≡ true
  pub select : is_bad a.select ≡ false
  pub marker : is_bad a.marker ≡ false

-- The outcome of the parser, if it is arguments, has passed the allowlists.
abbrev OnLists : Args → Type 0
OnLists a =
    (contains actions a.action ≡ true)
    × (contains products a.product ≡ true)
    × (contains servers a.server ≡ true)

or_default-fits :
    (choices : List Text) (o : Option Text) (d : Text)
    → is_allowed choices o ≡ true
    → contains choices d ≡ true
    → contains choices (or_default o d) ≡ true
or_default-fits choices none d h k = k
or_default-fits choices (some v) d h k = h

abbrev AreOnLists : Option Args → Type 0
AreOnLists none = Unit {0}
AreOnLists (some a) = OnLists a

complete-OnLists : (g : Given) → IsChecked g → AreOnLists (complete g)
complete-OnLists g h = elim (Option-cases g.product) [
  | inl absent ↦ rw absent tt
  | inr (p, given) ↦ rw given (
    or_default-fits actions g.action (codes "run") h.action
        (unfold Text-discrete ℕ_discrete in refl),
    subst (λ o. is_allowed products o ≡ true) given h.product,
    or_default-fits servers g.server (codes "staging") h.server
        (unfold Text-discrete ℕ_discrete in refl),
  )
]

parse_args-OnLists : (words : List Text) → AreOnLists (parse_args words)
unfolding parse_args
parse_args-OnLists words =
    let items = classify words in
    let end = consume (suc (length items)) true items nothing_given in
    let checked : Checked end =
      consume-IsChecked (suc (length items)) true items nothing_given
        (record { action = refl; product = refl; server = refl }) in
    elim (Option-cases end) [
      | inl failed ↦ rw (failed, AreOnLists) tt
      | inr (g, left) ↦ rw (left, AreOnLists) (complete-OnLists g (subst Checked left checked))
    ]

-- Arguments that come out are allowed ones.
abbrev AreAllowed : Result Parsed → Type 0
AreAllowed (ok (parsed a)) = IsAllowed a
AreAllowed (ok (slack_arg_error error)) = Unit {0}
AreAllowed (raised e) = Unit {0}

check_expressions-AreAllowed : (a : Args) → OnLists a → AreAllowed (ok (check_expressions a))
unfolding check_expressions
check_expressions-AreAllowed a (on_actions, on_products, on_servers) =
    elim (Bool-cases (is_bad a.select)) [
      | inl bad ↦ rw bad tt
      | inr select ↦ elim (Bool-cases (is_bad a.marker)) [
        | inl bad ↦ rw (select, bad) tt
        | inr marker ↦
            rw (select, marker)
              (record {
                action = on_actions;
                product = on_products;
                server = on_servers;
                select = select;
                marker = marker;
              })
      ]
    ]

checked_words-AreAllowed :
    (words : List Text)
    → AreAllowed (
        ok (elim (parse_args words) [
          | none ↦ slack_arg_error bad_usage
          | some args ↦ check_expressions args
        ]))
checked_words-AreAllowed words = elim (Option-cases (parse_args words)) [
  | inl failed ↦ rw failed tt
  | inr (args, given) ↦
      rw given
        (check_expressions-AreAllowed args (subst AreOnLists given (parse_args-OnLists words)))
]

parse-AreAllowed : (text : Text) → AreAllowed (parse text)
unfolding parse
parse-AreAllowed text = elim (Result-cases (shlex_split text)) [
  | inl (words, split) ↦ rw (split, AreAllowed) (checked_words-AreAllowed words)
  | inr (e, raises) ↦ rw (raises, AreAllowed) tt
]

-- Whatever the text is, arguments that the parser returns name an action, a product and a server
-- of the allowlists, and their expressions match the pattern.
pub parse-IsAllowed : (text : Text) (a : Args) → parse text ≡ ok (parsed a) → IsAllowed a
parse-IsAllowed text a e = subst AreAllowed e (parse-AreAllowed text)

-- A double quote that is never closed makes `parse` raise a ValueError, which is no
-- SlackArgError, whatever plain words stand before it.
pub parse_unclosed :
    (w : Text) (words : List Text) (s : Text)
    → All IsPlainWord (w ∷ words)
    → All IsUnquoted s
    → parse (join b' ' (w ∷ words) ++ b' ' ∷ double_quote ∷ s) ≡ raised value_error
unfolding parse
parse_unclosed w words s h k = rw (shlex_split-unclosed w words s h k) refl

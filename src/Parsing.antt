-- ===== src/Parsing.antt =====
-- src/slack_runtests/parsing.py: the words of a slash command, by `shlex` and `argparse`.
pub mod Laws
pub mod Fuel
pub mod Quoting
mod Tests
use slack_runtests.Prelude.{
  Bool, List, Option, Text, [], all_chars, codes, contains, false, if◌then◌else◌, is_empty, leb,
  length, map, none, not, or_default, some, suc, true, zero, ℕ, ◌&&◌, ◌==◌, ◌||◌, ◌∷◌, nat_eq,
  text_eq, int_eq, option_eq,
}
use slack_runtests.Strings.{is_ascii_alpha, is_digit, split_at, starts_with}
use slack_runtests.Python.{Result, ok, ◌>>=◌}
use slack_runtests.Shlex.{shlex_split}

abbrev pub products : List Text
products = codes "webapp" ∷ codes "billing" ∷ codes "catalog" ∷ []

abbrev pub servers : List Text
servers = codes "local" ∷ codes "dev" ∷ codes "staging" ∷ []

abbrev pub actions : List Text
actions = codes "run" ∷ codes "results" ∷ []

-- `[A-Za-z0-9_ -]`
pub is_expression_char : ℕ → Bool
unfolding is_ascii_alpha is_digit
is_expression_char c = is_ascii_alpha c || is_digit c || c == b'_' || c == b' ' || c == b'-'

-- The text without a line break at its end, before which `$` matches too.
pub drop_last_newline : Text → Text
drop_last_newline [] = []
drop_last_newline (c ∷ s) =
    let rest = drop_last_newline s in if c == 10 && is_empty s then [] else c ∷ rest

-- `EXPRESSION.match(value)`
unfoldable pub expression_matches : Text → Bool
unfolding is_expression_char drop_last_newline
expression_matches value =
    let body = drop_last_newline value in
    all_chars is_expression_char body && not (is_empty body) && leb (length body) 80

-- The parser's options, each with one value.
pub data Flag : Type 0 where
  product_flag server_flag select_flag marker_flag : Flag

pub record Args : Type 0 where
  pub action : Text
  pub product : Text
  pub server : Text
  pub select : Option Text
  pub marker : Option Text

abbrev pub flag_names : List (Text × Flag)
flag_names =
    (codes "-p", product_flag)
    ∷ (codes "--product", product_flag)
    ∷ (codes "-s", server_flag)
    ∷ (codes "--server", server_flag)
    ∷ (codes "-k", select_flag)
    ∷ (codes "--select", select_flag)
    ∷ (codes "-m", marker_flag)
    ∷ (codes "--marker", marker_flag)
    ∷ []

named : Text → List (Text × Flag) → Option Flag
named s [] = none
named s ((t, f) ∷ names) = if s == t then some f else named s names

-- The flags whose name begins with a text.
beginning : Text → List (Text × Flag) → List Flag
unfolding starts_with
beginning s [] = []
beginning s ((t, f) ∷ names) =
    let rest = beginning s names in if starts_with s t then f ∷ rest else rest

-- `s.split("=", 1)`; `none` if there is no `=`.
cut : Text → Option (Text × Text)
cut [] = none
cut (c ∷ s) =
    let later : Option (Text × Text) = elim (cut s) [
      | none ↦ none
      | some (a, b) ↦ some (c ∷ a, b)
    ] in
    if c == b'=' then some ([], s) else later

-- What an argument is to argparse: a flag with a value of its own or without, a plain value, the
-- argument `--`, or what leads to an error: an unknown or ambiguous flag.
pub data Item : Type 0 where
  flag : Flag → Option Text → Item
  value : Text → Item
  dashes : Item
  unknown : Item

-- `^-\d+$|^-\d*\.\d+$` after the dash.
is_number_tail : Text → Bool
unfolding is_digit split_at
is_number_tail s =
    let (whole, parts) = split_at b'.' s in
    elim parts [
      | [] ↦ all_chars is_digit whole && not (is_empty whole)
      | decimals ∷ more ↦
          all_chars is_digit whole
          && all_chars is_digit decimals
          && not (is_empty decimals)
          && is_empty more
    ]

-- `-5` and `-a b` are plain values, if no flag fits them.
pub no_flag : Text → Item
unfolding is_number_tail
no_flag [] = value []
no_flag (c ∷ s) = if is_number_tail s || contains s b' ' then value (c ∷ s) else unknown

-- The flags that fit: one is meant, several are an error.
pub pick : Text → Option Text → List Flag → Item
unfolding no_flag
pick arg explicit [] = no_flag arg
pick arg explicit (f ∷ []) = flag f explicit
pick arg explicit (f ∷ g ∷ more) = unknown

abbrev pub to_list : Option Flag → List Flag
to_list none = []
to_list (some f) = f ∷ []

-- `--prod`, `--prod=x` and `-px`, for an argument that is no flag's name.
pub abbreviated : Text → Item
unfolding pick named beginning cut
abbreviated (c ∷ d ∷ s) =
    if d == b'-'
    then (elim (cut (c ∷ d ∷ s)) [
      | none ↦ pick (c ∷ d ∷ s) none (beginning (c ∷ d ∷ s) flag_names)
      | some (a, b) ↦ pick (c ∷ d ∷ s) (some b) (beginning a flag_names)
    ])
    else pick (c ∷ d ∷ s) (some s) (to_list (named (c ∷ d ∷ []) flag_names))
abbreviated s = value s

abbrev or_item : Option Flag → Option Text → Item → Item
or_item none explicit item = item
or_item (some f) explicit item = flag f explicit

-- `_parse_optional`
pub parse_optional : Text → Item
unfolding abbreviated
parse_optional [] = value []
parse_optional (c ∷ s) =
    if not (c == b'-')
    then value (c ∷ s)
    else or_item (named (c ∷ s) flag_names) none (elim (cut (c ∷ s)) [
      | none ↦ abbreviated (c ∷ s)
      | some (a, b) ↦ or_item (named a flag_names) (some b) (abbreviated (c ∷ s))
    ])

-- After `--` every argument is a plain value.
pub classify : List Text → List Item
unfolding parse_optional
classify [] = []
classify (arg ∷ args) =
    let rest = classify args in
    if arg == codes "--" then dashes ∷ map value args else parse_optional arg ∷ rest

-- The namespace so far; an option that was not given is absent.
pub record Given : Type 0 where
  pub action : Option Text
  pub product : Option Text
  pub server : Option Text
  pub select : Option Text
  pub marker : Option Text

-- A flag's value is stored, after the check of `choices`; the last one counts.
unfoldable pub store : Flag → Text → Given → Option Given
store product_flag v g = if contains products v then some (record g { product = some v }) else none
store server_flag v g = if contains servers v then some (record g { server = some v }) else none
store select_flag v g = some (record g { select = some v })
store marker_flag v g = some (record g { marker = some v })

unfoldable pub store_action : Text → Given → Option Given
store_action v g = if contains actions v then some (record g { action = some v }) else none

-- `--` behind the positional argument belongs to it.
pub skip_dashes : List Item → List Item
skip_dashes (dashes ∷ items) = items
skip_dashes items = items

abbrev pub and_then : Option Given → (Given → Option Given) → Option Given
and_then none f = none
and_then (some g) f = f g

-- The loop of `parse_args` on fuel, an item a round; `open` while the positional argument
-- `action` may still come. Nothing is the error of argparse, whichever it is.
pub consume : ℕ → Bool → List Item → Given → Option Given
unfolding store store_action skip_dashes
consume zero is_open items g = none
consume (suc n) is_open [] g = some g
consume (suc n) is_open (flag f (some v) ∷ items) g =
    and_then (store f v g) (consume n is_open items)
consume (suc n) is_open (flag f none ∷ value v ∷ items) g =
    and_then (store f v g) (consume n is_open items)
consume (suc n) true (value v ∷ items) g =
    and_then (store_action v g) (consume n false (skip_dashes items))
consume (suc n) true (dashes ∷ items) g = consume n true items g
consume (suc n) is_open _ g = none

-- What an error of `parse` says; the wording of argparse is not modelled.
pub data ArgError : Type 0 where
  bad_usage : ArgError
  bad_expression : Flag → ArgError

pub data Parsed : Type 0 where
  parsed : Args → Parsed
  slack_arg_error : ArgError → Parsed

abbrev pub nothing_given : Given
nothing_given = record {
  action = none;
  product = none;
  server = none;
  select = none;
  marker = none;
}

-- The product is required, the other arguments have defaults.
abbrev pub complete : Given → Option Args
complete g = elim g.product [
  | none ↦ none
  | some product ↦ some (record {
    action = or_default g.action (codes "run");
    product = product;
    server = or_default g.server (codes "staging");
    select = g.select;
    marker = g.marker;
  })
]

pub parse_args : List Text → Option Args
unfolding consume classify
parse_args words =
    let items = classify words in
    elim (consume (suc (length items)) true items nothing_given) [
      | none ↦ none
      | some g ↦ complete g
    ]

abbrev pub is_bad : Option Text → Bool
is_bad none = false
is_bad (some v) = not (expression_matches v)

pub check_expressions : Args → Parsed
check_expressions args =
    if is_bad args.select
    then slack_arg_error (bad_expression select_flag)
    else if is_bad args.marker
    then slack_arg_error (bad_expression marker_flag)
    else parsed args

-- `parse(text)`; what `shlex.split` raises goes through.
unfoldable pub parse : Text → Result Parsed
unfolding parse_args check_expressions
parse text = do
  words ← shlex_split text
  ok (elim (parse_args words) [
    | none ↦ slack_arg_error bad_usage
    | some args ↦ check_expressions args
  ])

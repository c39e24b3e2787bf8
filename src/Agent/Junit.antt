-- ===== src/Agent/Junit.antt =====
-- `counts_from_junit` of test-server/test_server/agent.py, behind the XML reader: an element of the
-- tree has a tag, attributes and children. As for `int`, texts have code points up to U+00FF.
use slack_runtests.Prelude.{
  Bool, List, Option, Text, Text-discrete, [], codes, contains, false, if◌then◌else◌, is_empty,
  keep_if, leb, map, negate, negsuc, none, not, or_default, pos, refl, some, tests, true,
  ℕ_discrete, ℤ, ◌&&◌, ◌++◌, ◌+ℤ◌, ◌+◌, ◌==◌, ◌||◌, ◌∷◌, ◌≡◌, text_eq, option_eq, nat_eq, int_eq,
}
use slack_runtests.Strings.{is_digit, is_space, strip}
use slack_runtests.Python.{Result, ok, parse_int, raised, value_error, ◌>>=◌}

mutual
  pub data Node : Type 0 where
    element : Text → List (Text × Text) → Nodes → Node

  pub data Nodes : Type 0 where
    nil : Nodes
    cons : Node → Nodes → Nodes

abbrev pub tag_of : Node → Text
tag_of (element tag attributes children) = tag

-- `element.get(key)`
unfoldable pub value_of : Text → List (Text × Text) → Option Text
value_of key [] = none
value_of key ((k, v) ∷ more) = if k == key then some v else value_of key more

unfoldable pub get_of : Text → Node → Option Text
unfolding value_of
get_of key (element tag attributes children) = value_of key attributes

-- `element.iter(tag)`: the element and all below it with the tag, in the order of the document.
unfoldable mutual
  pub iter : Text → Node → List Node
  iter tag (element t attributes children) =
      let below = iter_all tag children in
      if t == tag then element t attributes children ∷ below else below

  pub iter_all : Text → Nodes → List Node
  iter_all tag nil = []
  iter_all tag (cons n more) = iter tag n ++ iter_all tag more

-- `element.find(tag) is not None`
unfoldable pub has_child : Text → Nodes → Bool
has_child tag nil = false
has_child tag (cons n more) = tag_of n == tag || has_child tag more

unfoldable pub finds : Text → Node → Bool
unfolding has_child
finds tag (element t attributes children) = has_child tag children

-- A run of digits, with a single `_` allowed between two of them, and what follows it.
unfoldable pub digits_from : Bool → Text → Option Text
unfolding is_digit
digits_from after_digit [] = if after_digit then some [] else none
digits_from after_digit (c ∷ s) =
    let as_digit = digits_from true s in
    let as_underscore = digits_from false s in
    if is_digit c
    then as_digit
    else if not after_digit
    then none
    else if c == b'_'
    then as_underscore
    else some (c ∷ s)

abbrev pub unsigned_part : Text → Text
unsigned_part [] = []
unsigned_part (c ∷ s) = if c == b'+' || c == b'-' then s else c ∷ s

abbrev pub is_end : Option Text → Bool
is_end none = false
is_end (some rest) = is_empty rest

unfoldable pub is_exponent : Text → Bool
unfolding digits_from
is_exponent [] = true
is_exponent (c ∷ s) = (c == b'e' || c == b'E') && is_end (digits_from false (unsigned_part s))

-- What follows the digits in front of the point.
unfoldable pub is_fraction : Text → Bool
unfolding digits_from is_exponent
is_fraction [] = true
is_fraction (c ∷ s) =
    if c == b'.'
    then elim (digits_from false s) [ none ↦ is_exponent s | some rest ↦ is_exponent rest ]
    else is_exponent (c ∷ s)

unfoldable pub starts_fraction : Text → Bool
unfolding digits_from is_exponent
starts_fraction [] = false
starts_fraction (c ∷ s) =
    c == b'.' && elim (digits_from false s) [ none ↦ false | some rest ↦ is_exponent rest ]

unfoldable pub lower : Text → Text
lower = map (λ c. if leb b'A' c && leb c b'Z' then c + 32 else c)

-- Does `float(text)` return?
unfoldable pub is_float : Text → Bool
unfolding strip digits_from is_fraction starts_fraction lower
is_float s =
    let number = unsigned_part (strip s) in
    contains (codes "inf" ∷ codes "infinity" ∷ codes "nan" ∷ []) (lower number)
    || elim (digits_from false number) [
      | none ↦ starts_fraction number
      | some rest ↦ is_fraction rest
    ]

-- `int(suite.get(key, 0) or 0)`
unfoldable pub int_of : Option Text → Result ℤ
unfolding parse_int
int_of attribute =
    if is_empty (or_default attribute [])
    then ok (pos 0)
    else elim (parse_int (or_default attribute [])) [ none ↦ raised value_error | some n ↦ ok n ]

-- `float(suite.get("time", 0) or 0)`, whose value is only logged.
unfoldable pub float_of : Option Text → Result (Unit {0})
unfolding is_float
float_of attribute =
    if is_empty (or_default attribute []) || is_float (or_default attribute [])
    then ok tt
    else raised value_error

pub record Totals : Type 0 where
  pub total : ℤ
  pub failures : ℤ
  pub errors : ℤ
  pub skipped : ℤ
  pub failed_ids : List Text

abbrev pub no_totals : Totals
no_totals = record {
  total = pos 0;
  failures = pos 0;
  errors = pos 0;
  skipped = pos 0;
  failed_ids = [];
}

-- The name under which a failed case is listed.
unfoldable pub id_of : Node → Text
unfolding get_of
id_of case =
    let name = or_default (get_of (codes "name") case) (codes "?") in
    let cls = or_default (get_of (codes "classname") case) [] in
    if is_empty cls then name else cls ++ codes "::" ++ name

unfoldable pub is_failed : Node → Bool
unfolding finds
is_failed case = finds (codes "failure") case || finds (codes "error") case

unfoldable pub failed_of : List Node → List Text
unfolding is_failed id_of
failed_of cases = map id_of (keep_if is_failed cases)

-- The body of the loop over the suites.
unfoldable pub add_suite : Node → Totals → Result Totals
unfolding get_of int_of float_of iter failed_of
add_suite suite t = do
  tests ← int_of (get_of (codes "tests") suite)
  failed ← int_of (get_of (codes "failures") suite)
  erred ← int_of (get_of (codes "errors") suite)
  skips ← int_of (get_of (codes "skipped") suite)
  timed ← float_of (get_of (codes "time") suite)
  ok (record {
    total = t.total +ℤ tests;
    failures = t.failures +ℤ failed;
    errors = t.errors +ℤ erred;
    skipped = t.skipped +ℤ skips;
    failed_ids = t.failed_ids ++ failed_of (iter (codes "testcase") suite);
  })

unfoldable pub add_suites : List Node → Totals → Result Totals
unfolding add_suite
add_suites [] t = ok t
add_suites (suite ∷ suites) t = do t' ← add_suite suite t; add_suites suites t'

-- What a report says, without the time of the suite.
pub record JunitCounts : Type 0 where
  pub passed : ℤ
  pub failed : ℤ
  pub skipped : ℤ
  pub failed_ids : List Text

-- `max(n, 0)`
abbrev pub at_least_zero : ℤ → ℤ
at_least_zero (pos n) = pos n
at_least_zero (negsuc n) = pos 0

abbrev pub counts_of_totals : Totals → JunitCounts
counts_of_totals t =
    let failed_all = t.failures +ℤ t.errors in
    record {
      passed = at_least_zero (t.total +ℤ negate failed_all +ℤ negate t.skipped);
      failed = failed_all;
      skipped = t.skipped;
      failed_ids = t.failed_ids;
    }

unfoldable pub suites_of : Node → List Node
unfolding iter
suites_of root =
    if tag_of root == codes "testsuite" then root ∷ [] else iter (codes "testsuite") root

-- `counts_from_junit`; there is no tree where the file cannot be read or is no XML.
unfoldable pub counts_from_junit : Option Node → Result JunitCounts
unfolding suites_of add_suites
counts_from_junit none = ok (counts_of_totals no_totals)
counts_from_junit (some root) = do
  t ← add_suites (suites_of root) no_totals
  ok (counts_of_totals t)

floats :
    (is_float (codes "0.041") ≡ true)
    × (is_float (codes " -1_0.e+5 ") ≡ true)
    × (is_float (codes ".5") ≡ true)
    × (is_float (codes "Infinity") ≡ true)
    × (is_float (codes "1_.5") ≡ false)
    × (is_float (codes ".") ≡ false)
    × (is_float (codes "1e") ≡ false)
unfolding is_float digits_from is_fraction is_exponent starts_fraction lower is_digit strip is_space
    ℕ_discrete Text-discrete
floats = (refl, refl, refl, refl, refl, refl, refl)

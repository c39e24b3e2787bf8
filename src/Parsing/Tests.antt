-- ===== src/Parsing/Tests.antt =====
-- The parser at concrete command lines.
use slack_runtests.Prelude.{
  Text-discrete, [], arith, codes, none, refl, some, true, ℕ_discrete, ◌∷◌, ◌≡◌,
}
use slack_runtests.Parsing.{
  bad_expression, bad_usage, classify, consume, expression_matches, nothing_given, parse, parsed,
  select_flag, slack_arg_error,
}
use slack_runtests.Strings.{join, starts_with}
use slack_runtests.Python.{ok, raised, value_error}
use slack_runtests.Shlex.{is_plain_word, is_plain_word-IsPlainWord, shlex_split}
use slack_runtests.Parsing.Laws.{IsAllowed, parse-IsAllowed, parse_unclosed}
use slack_runtests.Parsing.Fuel.{consume-fuel}
use slack_runtests.Parsing.Quoting.{expression-IsUnquoted, expression_matches-newline}

smoke_line :
    parse (codes "-p webapp -s dev -k \"smoke and not slow\"")
    ≡ ok (
        parsed (record {
          action = codes "run";
          product = codes "webapp";
          server = codes "dev";
          select = some (codes "smoke and not slow");
          marker = none;
        }))
unfolding parse shlex_split expression_matches starts_with Text-discrete ℕ_discrete
smoke_line = refl

abbreviated_line :
    parse (codes "results --prod=billing -mfast")
    ≡ ok (
        parsed (record {
          action = codes "results";
          product = codes "billing";
          server = codes "staging";
          select = none;
          marker = some (codes "fast");
        }))
unfolding parse shlex_split expression_matches starts_with Text-discrete ℕ_discrete
abbreviated_line = refl

refused_lines :
    (parse (codes "-p ../../etc") ≡ ok (slack_arg_error bad_usage))
    × (parse (codes "-s dev") ≡ ok (slack_arg_error bad_usage))
    × (parse (codes "-p webapp -s prod") ≡ ok (slack_arg_error bad_usage))
    × (parse (codes "-p webapp --se dev") ≡ ok (slack_arg_error bad_usage))
    × (parse (codes "-p webapp -k 'a;b'") ≡ ok (slack_arg_error (bad_expression select_flag)))
unfolding parse shlex_split expression_matches starts_with Text-discrete ℕ_discrete
refused_lines = (refl, refl, refl, refl, refl)

parse-IsAllowed_example : IsAllowed (record {
  action = codes "run";
  product = codes "webapp";
  server = codes "dev";
  select = some (codes "smoke and not slow");
  marker = none;
})
parse-IsAllowed_example =
    parse-IsAllowed (codes "-p webapp -s dev -k \"smoke and not slow\"") _ smoke_line

parse_unclosed_sample : parse (codes "-k \"smoke") ≡ raised value_error
unfolding is_plain_word join expression_matches ℕ_discrete
parse_unclosed_sample =
    parse_unclosed (codes "-k") [] (codes "smoke") (is_plain_word-IsPlainWord (codes "-k") refl, tt)
      (expression-IsUnquoted (codes "smoke") refl)

expression_matches-newline_sample : expression_matches (codes "smoke\n") ≡ true
unfolding expression_matches ℕ_discrete
expression_matches-newline_sample =
    expression_matches-newline (codes "smoke") refl refl (omega arith)

consume-fuel_sample :
    consume 9 true (classify (codes "-p" ∷ codes "webapp" ∷ [])) nothing_given
    ≡ consume 3 true (classify (codes "-p" ∷ codes "webapp" ∷ [])) nothing_given
unfolding classify ℕ_discrete Text-discrete
consume-fuel_sample = consume-fuel 9 3 true _ nothing_given (omega arith) (omega arith)

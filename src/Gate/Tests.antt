-- ===== src/Gate/Tests.antt =====
-- The gate at concrete requests, with a toy digest for the HMAC.
use slack_runtests.Prelude.{
  Bool-cases, Text, Text-discrete, [], arith, codes, false, if◌then◌else◌, inl, inr, length, none,
  pos, refl, some, true, ℕ_discrete, ◌==◌, ◌∷◌, ◌≡◌, int_eq, nat_eq, text_eq, option_eq,
}
use slack_runtests.Gate.{Headers, Settings, check, judged}
use slack_runtests.Strings.{join, starts_with}
use slack_runtests.Python.{Bytes, age, encode, is_ascii, ok, parse_int}
use slack_runtests.Signature.{sign}
use slack_runtests.Shlex.{shlex_split}
use slack_runtests.Forms.{get, parse_form}
use slack_runtests.Parsing.{Args, expression_matches, parse, parsed}
use slack_runtests.Gate.Entitled.{IsEntitled}
use slack_runtests.Gate.Laws.{IsAccepted, IsSigned, check_accepts, check_passes, text_of}
use slack_runtests.Gate.Names.{check-SameNames}

abbrev toy_hmac : Bytes → Bytes → Text
toy_hmac key message = if length key == length message then codes "00ff" else codes "ab12"

toy_hex : (k m : Bytes) → is_ascii (toy_hmac k m) ≡ true
toy_hex k m = elim (Bool-cases (length k == length m)) [
  | inl same ↦ rw same (unfold is_ascii in refl)
  | inr other ↦ rw other (unfold is_ascii in refl)
]

abbrev team : Settings
team = record {
  signing_secret = codes "key";
  allowed_team = codes "T1";
  allowed_channels = codes "C1" ∷ codes "C2" ∷ [];
  allowed_users = codes "U1" ∷ [];
}

abbrev headers : Headers
headers name =
    if name == codes "X-Slack-Request-Timestamp"
    then some (codes "100")
    else if name == codes "X-Slack-Signature"
    then some (codes "v0=ab12")
    else none

abbrev body : Bytes
body = codes "team_id=T1&channel_id=C2&user_id=U1&text=-p+webapp"

abbrev args : Args
args = record {
  action = codes "run";
  product = codes "webapp";
  server = codes "staging";
  select = none;
  marker = none;
}

is_signed : IsSigned toy_hmac toy_hex body headers team 101000000
unfolding parse_int age sign encode Text-discrete ℕ_discrete
is_signed = inr ((pos 100, refl, (1000000, refl, omega arith)), refl)

is_entitled : IsEntitled team (parse_form body)
unfolding parse_form get join Text-discrete ℕ_discrete
is_entitled = record {
  team = inr refl;
  channel = inr (codes "C2", refl, refl);
  user = inr (codes "U1", refl, refl);
}

text_parsed : parse (text_of (parse_form body)) ≡ ok (parsed args)
unfolding parse_form get parse shlex_split expression_matches starts_with join Text-discrete
    ℕ_discrete
text_parsed = refl

-- The request of these tests passes.
passed_check :
    check toy_hmac body headers team 101000000 ≡ ok (judged (parse_form body) false (parsed args))
passed_check =
    check_passes toy_hmac toy_hex body headers team 101000000 args is_signed is_entitled text_parsed

check_accepts_example :
    IsSigned toy_hmac toy_hex body headers team 101000000
    × IsAccepted team (parse_form body) false (judged (parse_form body) false (parsed args))
check_accepts_example =
    check_accepts toy_hmac toy_hex body headers team 101000000 _ passed_check refl

check_passes_example :
    check toy_hmac body headers team 101000000 ≡ ok (judged (parse_form body) false (parsed args))
check_passes_example =
    check_passes toy_hmac toy_hex body headers team 101000000 args is_signed is_entitled text_parsed

-- The lists of the workspace in another order, and one of them twice.
check-SameNames_sample :
    check toy_hmac body headers
      (record team {
        allowed_channels = codes "C1" ∷ codes "C2" ∷ [];
        allowed_users = codes "U1" ∷ [];
      })
      101000000
    ≡ check toy_hmac body headers
        (record team {
          allowed_channels = codes "C2" ∷ codes "C1" ∷ codes "C2" ∷ [];
          allowed_users = codes "U1" ∷ [];
        })
        101000000
check-SameNames_sample =
    check-SameNames toy_hmac body headers team (codes "C1" ∷ codes "C2" ∷ [])
      (codes "C2" ∷ codes "C1" ∷ codes "C2" ∷ []) (codes "U1" ∷ []) (codes "U1" ∷ []) 101000000
      (λ x. ground arith) (λ x. refl)

-- ===== src/Signature/Tests.antt =====
-- The signature check at concrete inputs, with a toy digest for the HMAC.
use slack_runtests.Prelude.{
  Bool-cases, Text, [], arith, codes, false, if◌then◌else◌, inl, inr, length, pos, refl, some, suc,
  true, zero, ℕ, ℕ_discrete, ◌-◌, ◌==◌, ◌^◌, ◌↔◌, ◌∷◌, ◌≡◌, text_eq, nat_eq, int_eq, option_eq,
}
use slack_runtests.Signature.{is_valid, max_age_seconds, sign}
use slack_runtests.Python.{Bytes, IsFresh, age, is_ascii, ok, overflow_error, parse_int, raised}
use slack_runtests.Signature.Laws.{is_valid_iff, is_valid_overflow}

abbrev toy_hmac : Bytes → Bytes → Text
toy_hmac key message = if length key == length message then codes "00ff" else codes "ab12"

toy_hex : (k m : Bytes) → is_ascii (toy_hmac k m) ≡ true
toy_hex k m = elim (Bool-cases (length k == length m)) [
  | inl same ↦ rw same (unfold is_ascii in refl)
  | inr other ↦ rw other (unfold is_ascii in refl)
]

stamp-IsFresh : IsFresh (codes "100") 101000000 max_age_seconds
unfolding parse_int age ℕ_discrete
stamp-IsFresh = (pos 100, refl, (1000000, refl, omega arith))

is_valid_iff_example :
    (is_valid toy_hmac (codes "a=b") (codes "100") (codes "v0=ab12") (codes "key") 101000000
      ≡ ok true)
    ↔ (IsFresh (codes "100") 101000000 max_age_seconds
        × (codes "v0=ab12" ≡ sign toy_hmac (codes "a=b") (codes "100") (codes "key")))
is_valid_iff_example =
    is_valid_iff toy_hmac toy_hex (codes "a=b") (codes "100") (codes "v0=ab12") (codes "key")
      101000000 refl

stale :
    is_valid toy_hmac (codes "a=b") (codes "100") (codes "v0=ab12") (codes "key") 500000000
    ≡ ok false
unfolding is_valid parse_int age ℕ_discrete
stale = refl

-- 310 digits.
abbrev nines : ℕ → Text
nines zero = []
nines (suc n) = b'9' ∷ nines n

nines-parsed : parse_int (nines 310) ≡ some (pos (10 ^ 310 - 1))
unfolding parse_int ℕ_discrete
nines-parsed = refl

is_valid_overflow_sample :
    is_valid toy_hmac (codes "a=b") (nines 310) (codes "v0=ab12") (codes "key") 101000000
    ≡ raised overflow_error
is_valid_overflow_sample =
    is_valid_overflow toy_hmac (codes "a=b") (nines 310) (codes "v0=ab12") (codes "key") 101000000
      (pos (10 ^ 310 - 1)) refl refl nines-parsed (omega arith)

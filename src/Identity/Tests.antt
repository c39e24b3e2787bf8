-- ===== src/Identity/Tests.antt =====
-- The signatures at concrete inputs, with a toy scheme that signs the length of the message.
use slack_runtests.Prelude.{
  All, Text, [], arith, codes, length, pos, refl, some, suc, true, zero, ℕ, ℕ_discrete, ◌%◌, ◌-◌,
  ◌<◌, ◌==◌, ◌^◌, ◌∷◌, ◌≡◌, text_eq, nat_eq, int_eq, option_eq,
}
use slack_runtests.Identity.{
  Crypto, IsCrypto, canonical, max_age_seconds, public_b64, sign, sign_reply, upper, verify,
  verify_reply,
}
use slack_runtests.Python.{Bytes, IsFresh, age, is_ascii, ok, overflow_error, parse_int, raised}
use slack_runtests.Base64.{IsByte}
use slack_runtests.Identity.Laws.{
  IsLine, canonical_injective, verify-sign, verify_overflow, verify_reply-sign_reply,
}

abbrev copies : ℕ → ℕ → Bytes
copies zero b = []
copies (suc n) b = b ∷ copies n b

copies-IsByte : (n b : ℕ) → b < 256 → All IsByte (copies n b)
copies-IsByte zero b h = tt
copies-IsByte (suc n) b h = (h, copies-IsByte n b h)

abbrev pub toy : Crypto
toy = record {
  Key = ℕ;
  public_bytes = λ k. copies 32 (k % 256);
  signature = λ k m. copies 64 (length m % 256);
  verifies = λ key sig m. sig == copies 64 (length m % 256);
  sha256_hex = λ m. codes "00ff";
}

pub toy_laws : IsCrypto toy
toy_laws = record {
  public_size = λ k. refl;
  public_byte = λ k. copies-IsByte 32 (k % 256) (omega arith);
  signature_size = λ k m. refl;
  signature_byte = λ k m. copies-IsByte 64 (length m % 256) (omega arith);
  correct = λ k m. ground arith;
  hex_line = λ m. omega arith;
  hex_ascii = λ m. unfold is_ascii in refl;
}

stamp-IsFresh : IsFresh (codes "100") 101000000 max_age_seconds
unfolding parse_int age ℕ_discrete
stamp-IsFresh = (pos 100, refl, (1000000, refl, omega arith))

verify-sign_sample :
    verify toy
      (public_b64 toy 7)
      (codes "POST")
      (codes "/runner/heartbeat")
      (codes "100")
      (sign toy 7 (codes "POST") (codes "/runner/heartbeat") (codes "100") [])
      []
      101000000
      max_age_seconds
    ≡ ok true
verify-sign_sample =
    verify-sign toy toy_laws 7 (codes "POST") (codes "/runner/heartbeat") (codes "100") [] 101000000
      max_age_seconds stamp-IsFresh

verify_reply-sign_reply_sample :
    verify_reply toy
      (public_b64 toy 7)
      (codes "100")
      (sign_reply toy 7 (codes "100") [])
      []
      101000000
      max_age_seconds
    ≡ ok true
verify_reply-sign_reply_sample =
    verify_reply-sign_reply toy toy_laws 7 (codes "100") [] 101000000 max_age_seconds stamp-IsFresh

post-IsLine : IsLine (codes "POST")
post-IsLine = record { ascii = unfold is_ascii in refl; unbroken = omega arith }

lower-IsLine : IsLine (codes "post")
lower-IsLine = record { ascii = unfold is_ascii in refl; unbroken = omega arith }

path-IsLine : IsLine (codes "/runner")
path-IsLine = record { ascii = unfold is_ascii in refl; unbroken = omega arith }

stamp-IsLine : IsLine (codes "100")
stamp-IsLine = record { ascii = unfold is_ascii in refl; unbroken = omega arith }

same_bytes :
    canonical toy (codes "POST") (codes "/runner") (codes "100") []
    ≡ canonical toy (codes "post") (codes "/runner") (codes "100") (1 ∷ [])
unfolding canonical
same_bytes = refl

canonical_injective_example :
    (upper (codes "POST") ≡ upper (codes "post"))
    × (codes "/runner" ≡ codes "/runner")
    × (codes "100" ≡ codes "100")
    × (toy.sha256_hex [] ≡ toy.sha256_hex (1 ∷ []))
canonical_injective_example =
    canonical_injective toy toy_laws (codes "POST") (codes "/runner") (codes "100") (codes "post")
      (codes "/runner") (codes "100") [] (1 ∷ []) post-IsLine path-IsLine stamp-IsLine lower-IsLine
      path-IsLine stamp-IsLine same_bytes

abbrev nines : ℕ → Text
nines zero = []
nines (suc n) = b'9' ∷ nines n

nines-parsed : parse_int (nines 310) ≡ some (pos (10 ^ 310 - 1))
unfolding parse_int ℕ_discrete
nines-parsed = refl

verify_overflow_sample :
    verify toy
      (codes "key")
      (codes "POST")
      (codes "/runner/enroll")
      (nines 310)
      (codes "sig")
      []
      101000000
      max_age_seconds
    ≡ raised overflow_error
verify_overflow_sample =
    verify_overflow toy (codes "key") (codes "POST") (codes "/runner/enroll") (nines 310)
      (codes "sig") [] 101000000 max_age_seconds (pos (10 ^ 310 - 1)) refl refl nines-parsed
      (omega arith)

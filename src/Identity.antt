-- ===== src/Identity.antt =====
-- src/slack_runtests/identity.py: the Ed25519 signatures between the edge and a test server.
pub mod Laws
pub mod Keys
pub mod Tests
use slack_runtests.Prelude.{
  All, Bool, Text, [], codes, false, if◌then◌else◌, is_empty, leb, length, ltb, map, none, not,
  some, take, true, ℕ, ◌&&◌, ◌*◌, ◌-◌, ◌==◌, ◌||◌, ◌∷◌, ◌≡◌, text_eq, nat_eq, int_eq, option_eq,
}
use slack_runtests.Strings.{Lacks, join, strip}
use slack_runtests.Python.{Bytes, Result, age, encode, is_ascii, ok, parse_int, ◌>>=◌}
use slack_runtests.Base64.{IsByte, b64decode, b64encode}

abbrev pub max_age_seconds : ℕ
max_age_seconds = 300 * 1000000

unfoldable pub upper : Text → Text
upper = map (λ c. if leb b'a' c && leb c b'z' then c - 32 else c)

-- `_b64`, and `_unb64`: what cannot be decoded is no bytes.
unfoldable pub b64 : Bytes → Text
b64 = b64encode

unfoldable pub unb64 : Text → Bytes
unb64 text = elim (b64decode (strip text)) [ none ↦ [] | some bytes ↦ bytes ]

-- The third-party cryptography: private keys, and what the program calls of them. `verifies` is
-- false where `verify` or `from_public_bytes` raises.
pub record Crypto : Type 1 where
  pub Key : Type 0
  pub public_bytes : Key → Bytes
  pub signature : Key → Bytes → Bytes
  pub verifies : Bytes → Bytes → Bytes → Bool
  pub sha256_hex : Bytes → Text

-- The documented sizes and formats, and that a signature verifies under its own key.
pub record IsCrypto (c : Crypto) : Type 0 where
  pub public_size : (k : c.Key) → length (c.public_bytes k) ≡ 32
  pub public_byte : (k : c.Key) → All IsByte (c.public_bytes k)
  pub signature_size : (k : c.Key) (m : Bytes) → length (c.signature k m) ≡ 64
  pub signature_byte : (k : c.Key) (m : Bytes) → All IsByte (c.signature k m)
  pub correct : (k : c.Key) (m : Bytes) → c.verifies (c.public_bytes k) (c.signature k m) m ≡ true
  pub hex_line : (m : Bytes) → Lacks 10 (c.sha256_hex m)
  pub hex_ascii : (m : Bytes) → is_ascii (c.sha256_hex m) ≡ true

module _ (c : Crypto) where
  open c use {Key, public_bytes, signature, verifies, sha256_hex}

  unfoldable pub public_b64 : Key → Text
  unfolding b64
  public_b64 key = b64 (public_bytes key)

  unfoldable pub fingerprint : Text → Text
  unfolding unb64
  fingerprint public_key_b64 = take 16 (sha256_hex (unb64 public_key_b64))

  unfoldable pub canonical : Text → Text → Text → Bytes → Bytes
  unfolding upper
  canonical method path timestamp body =
      encode (join 10 (codes "v1" ∷ upper method ∷ path ∷ timestamp ∷ sha256_hex body ∷ []))

  unfoldable pub sign : Key → Text → Text → Text → Bytes → Text
  unfolding canonical b64
  sign key method path timestamp body = b64 (signature key (canonical method path timestamp body))

  unfoldable pub canonical_reply : Text → Bytes → Bytes
  canonical_reply timestamp body =
      encode (join 10 (codes "v1-reply" ∷ timestamp ∷ sha256_hex body ∷ []))

  unfoldable pub sign_reply : Key → Text → Bytes → Text
  unfolding canonical_reply b64
  sign_reply key timestamp body = b64 (signature key (canonical_reply timestamp body))

  -- The part of `verify` and of `verify_reply` after the time check.
  pub check_sizes : Text → Text → Bytes → Bool
  unfolding unb64
  check_sizes public_key_b64 signature_b64 message =
      let raw_key = unb64 public_key_b64 in
      let raw_sig = unb64 signature_b64 in
      if not (length raw_key == 32) || not (length raw_sig == 64)
      then false
      else verifies raw_key raw_sig message

  -- What both verifiers do with the message that should have been signed.
  pub verify_message : Text → Text → Text → Bytes → ℕ → ℕ → Result Bool
  unfolding check_sizes
  verify_message public_key_b64 timestamp signature_b64 message now max_age =
      if is_empty public_key_b64 || is_empty timestamp || is_empty signature_b64
      then ok false
      else elim (parse_int timestamp) [
        | none ↦ ok false
        | some t ↦ do
          a ← age now t
          if ltb max_age a then ok false else ok (check_sizes public_key_b64 signature_b64 message)
      ]

  unfoldable pub verify : Text → Text → Text → Text → Text → Bytes → ℕ → ℕ → Result Bool
  unfolding verify_message canonical
  verify public_key_b64 method path timestamp signature_b64 body now max_age =
      verify_message public_key_b64 timestamp signature_b64 (canonical method path timestamp body)
        now max_age

  unfoldable pub verify_reply : Text → Text → Text → Bytes → ℕ → ℕ → Result Bool
  unfolding verify_message canonical_reply
  verify_reply public_key_b64 timestamp signature_b64 body now max_age =
      verify_message public_key_b64 timestamp signature_b64 (canonical_reply timestamp body) now
        max_age

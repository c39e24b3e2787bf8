-- ===== src/Signature.antt =====
-- src/slack_runtests/signature.py: is this request from Slack, and is it recent?
pub mod Laws
mod Tests
use slack_runtests.Prelude.{
  Bool, Text, codes, false, if◌then◌else◌, is_empty, ltb, none, some, ℕ, ◌*◌, ◌++◌, ◌||◌,
}
use slack_runtests.Python.{Bytes, Result, age, compare_digest, encode, ok, parse_int, ◌>>=◌}

-- 60 * 5 seconds, in microseconds.
abbrev pub max_age_seconds : ℕ
max_age_seconds = 300 * 1000000

-- `b"v0:" + timestamp.encode() + b":" + body`
pub base : Text → Bytes → Bytes
base timestamp body = codes "v0:" ++ (encode timestamp ++ (codes ":" ++ body))

-- The parameter is `hmac.new(key, message, sha256).hexdigest()`.
module _ (hmac_hex : Bytes → Bytes → Text) where
  unfoldable pub sign : Bytes → Text → Text → Text
  unfolding base
  sign body timestamp signing_secret =
      codes "v0=" ++ hmac_hex (encode signing_secret) (base timestamp body)

  unfoldable pub is_valid : Bytes → Text → Text → Text → ℕ → Result Bool
  unfolding base
  is_valid body timestamp signature signing_secret now =
      if is_empty signing_secret || is_empty timestamp || is_empty signature
      then ok false
      else elim (parse_int timestamp) [
        | none ↦ ok false
        | some t ↦ do
          a ← age now t
          if ltb max_age_seconds a
              then ok false
              else compare_digest
                  (codes "v0=" ++ hmac_hex (encode signing_secret) (base timestamp body)) signature
      ]

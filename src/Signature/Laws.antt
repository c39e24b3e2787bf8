-- ===== src/Signature/Laws.antt =====
-- The signature check: what it accepts, and where it raises.
use slack_runtests.Prelude.{
  Bool, Bool-cases, Option-cases, Text, arith, false, if◌then◌else◌, inl, inr, is_empty, ltb, none,
  refl, some, true, ℕ, ℤ, ◌↔◌, ◌∙◌, ◌≡◌, ◌≤◌,
}
use slack_runtests.Signature.{is_valid, max_age_seconds, sign}
use slack_runtests.Python.{
  Bytes, IsFresh, Result, age, age-cases, age-large, compare_digest, float_limit, is_ascii,
  magnitude, ok, overflow_error, parse_int, parse_int-nonempty, raised, ◌>>=◌,
}

-- What becomes of a check once the age is known.
abbrev judge : Text → Text → ℕ → Result Bool
judge expected signature a =
    if ltb max_age_seconds a then ok false else compare_digest expected signature

compare_digest-same : (s : Text) → is_ascii s ≡ true → compare_digest s s ≡ ok true
unfolding compare_digest
compare_digest-same s h = ground (arith, h)

compare_digest-true : (s t : Text) → compare_digest s t ≡ ok true → t ≡ s
unfolding compare_digest
compare_digest-true s t h = ground arith

-- A finite age makes the check a comparison.
module _ (hmac_hex : Bytes → Bytes → Text) where
  is_valid-parsed :
      (body : Bytes) (timestamp signature signing_secret : Text) (now : ℕ) (t : ℤ)
      → is_empty signing_secret ≡ false
      → is_empty signature ≡ false
      → parse_int timestamp ≡ some t
      → is_valid hmac_hex body timestamp signature signing_secret now
        ≡ (age now t >>= judge (sign hmac_hex body timestamp signing_secret) signature)
  unfolding is_valid sign
  is_valid-parsed body timestamp signature signing_secret now t secret sig e =
      rw (secret, sig, parse_int-nonempty timestamp t e, e)

  is_valid-unsigned :
      (body : Bytes) (timestamp signature signing_secret : Text) (now : ℕ)
      → is_empty signature ≡ true
      → is_valid hmac_hex body timestamp signature signing_secret now ≡ ok false
  unfolding is_valid
  is_valid-unsigned body timestamp signature signing_secret now sig = ground arith

  is_valid-unparsed :
      (body : Bytes) (timestamp signature signing_secret : Text) (now : ℕ)
      → parse_int timestamp ≡ none
      → is_valid hmac_hex body timestamp signature signing_secret now ≡ ok false
  unfolding is_valid
  is_valid-unparsed body timestamp signature signing_secret now e = ground arith

  accepted-parsed :
      (body : Bytes) (timestamp signature signing_secret : Text) (now : ℕ) (t : ℤ)
      → parse_int timestamp ≡ some t
      → (age now t >>= judge (sign hmac_hex body timestamp signing_secret) signature) ≡ ok true
      → IsFresh timestamp now max_age_seconds
        × (signature ≡ sign hmac_hex body timestamp signing_secret)
  accepted-parsed body timestamp signature signing_secret now t e h = elim (age-cases now t) [
    | inl large ↦ cc
    | inr (a, small) ↦
        let h' : judge (sign hmac_hex body timestamp signing_secret) signature a ≡ ok true =
          rw small at h in
        elim (Bool-cases (ltb max_age_seconds a)) [
          | inl old ↦ cc
          | inr young ↦ (
            (t, e, (a, small, ground arith)),
            compare_digest-true (sign hmac_hex body timestamp signing_secret) signature
                (rw young at h'),
          )
        ]
  ]

  accepted :
      (body : Bytes) (timestamp signature signing_secret : Text) (now : ℕ)
      → is_empty signing_secret ≡ false
      → is_valid hmac_hex body timestamp signature signing_secret now ≡ ok true
      → IsFresh timestamp now max_age_seconds
        × (signature ≡ sign hmac_hex body timestamp signing_secret)
  accepted body timestamp signature signing_secret now secret h =
      elim (Bool-cases (is_empty signature)) [
        | inl unsigned ↦ cc (is_valid-unsigned body timestamp signature signing_secret now unsigned)
        | inr sig ↦ elim (Option-cases (parse_int timestamp)) [
          | inl e ↦ cc (is_valid-unparsed body timestamp signature signing_secret now e)
          | inr (t, e) ↦
              accepted-parsed body timestamp signature signing_secret now t e (
                rw (is_valid-parsed body timestamp signature signing_secret now t secret sig e) at
                  h)
        ]
      ]

  sign-nonempty :
      (body : Bytes) (timestamp signing_secret : Text)
      → is_empty (sign hmac_hex body timestamp signing_secret) ≡ false
  unfolding sign
  sign-nonempty body timestamp signing_secret = refl

module _ (hmac_hex : Bytes → Bytes → Text)
    (hex : (k m : Bytes) → is_ascii (hmac_hex k m) ≡ true) where
  sign-is_ascii :
      (body : Bytes) (timestamp signing_secret : Text)
      → is_ascii (sign hmac_hex body timestamp signing_secret) ≡ true
  unfolding sign is_ascii
  sign-is_ascii body timestamp signing_secret = hex _ _

  -- With a secret, a request is accepted exactly if its time stamp is a number within five minutes
  -- of the clock and its signature is the one that `sign` makes for the body, the time stamp and
  -- the secret.
  pub is_valid_iff :
      (body : Bytes) (timestamp signature signing_secret : Text) (now : ℕ)
      → is_empty signing_secret ≡ false
      → (is_valid hmac_hex body timestamp signature signing_secret now ≡ ok true) ↔ (
          IsFresh timestamp now max_age_seconds
          × (signature ≡ sign hmac_hex body timestamp signing_secret))
  is_valid_iff body timestamp signature signing_secret now secret = (
    accepted hmac_hex body timestamp signature signing_secret now secret,
    λ h.
        let ((t, e, (a, small, young)), same) = h in
        let expected = sign hmac_hex body timestamp signing_secret in
        rw
          (
            same,
            is_valid-parsed hmac_hex body timestamp expected signing_secret now t secret
                (sign-nonempty hmac_hex body timestamp signing_secret) e,
            small,
          )
          (ground (
            arith,
            young,
            compare_digest-same expected (sign-is_ascii body timestamp signing_secret),
          )),
  )

-- The verifier raises instead of refusing, whatever the signature and the secret, on every time
-- stamp that is a number too large for a float.
pub is_valid_overflow :
    (hmac_hex : Bytes → Bytes → Text) (body : Bytes) (timestamp signature signing_secret : Text)
    (now : ℕ) (t : ℤ)
    → is_empty signing_secret ≡ false
    → is_empty signature ≡ false
    → parse_int timestamp ≡ some t
    → float_limit ≤ magnitude t
    → is_valid hmac_hex body timestamp signature signing_secret now ≡ raised overflow_error
is_valid_overflow hmac_hex body timestamp signature signing_secret now t secret sig e large =
    is_valid-parsed hmac_hex body timestamp signature signing_secret now t secret sig e
    ∙ rw (age-large now t large)

-- ===== src/Gate/Laws.antt =====
-- The gate: which requests pass, and what the others are answered.
use slack_runtests.Prelude.{
  Bool, Bool-cases, Option-cases, Text, [], ap, codes, false, false≢true, inl, inr, is_empty, none,
  or_default, refl, some, sym, true, ℕ, ◌∙◌, ◌≡◌, ◌⊎◌,
}
use slack_runtests.Gate.{
  Headers, Message, Outcome, Settings, check, check_form, judged, objection, refused, unless,
  unsigned,
}
use slack_runtests.Python.{Bytes, Exn, IsFresh, Result, Result-cases, is_ascii, ok, raised}
use slack_runtests.Signature.{is_valid, max_age_seconds, sign}
use slack_runtests.Signature.Laws.{is_valid_iff}
use slack_runtests.Forms.{Form, get, parse_form}
use slack_runtests.Parsing.{Args, Parsed, parse, parsed, slack_arg_error}
use slack_runtests.Gate.Entitled.{IsEntitled, IsEntitled-objection, objection-IsEntitled}

abbrev pub timestamp_of : Headers → Text
timestamp_of headers = or_default (headers (codes "X-Slack-Request-Timestamp")) []

abbrev pub signature_of : Headers → Text
signature_of headers = or_default (headers (codes "X-Slack-Signature")) []

ok-injective : {a b : Outcome} → ok a ≡ ok b → a ≡ b
ok-injective e = cc

abbrev pub text_of : Form → Text
text_of form = or_default (get (codes "text") form) []

-- What a form has to be for `out` to be its outcome, and a passing one.
abbrev pub IsAccepted : Settings → Form → Bool → Outcome → Type 0
IsAccepted s form unverified out =
    IsEntitled s form
    × ((a : Args) × (parse (text_of form) ≡ ok (parsed a))
        × (out ≡ judged form unverified (parsed a)))

judged-IsAccepted :
    (s : Settings) (form : Form) (unverified : Bool) (out : Outcome) (p : Parsed)
    → IsEntitled s form
    → parse (text_of form) ≡ ok p
    → judged form unverified p ≡ out
    → out.is_ok ≡ true
    → IsAccepted s form unverified out
judged-IsAccepted s form unverified out (parsed a) h e same fine = (h, (a, e, sym same))
judged-IsAccepted s form unverified out (slack_arg_error m) h e same fine =
    absurd (false≢true (ap (λ o. o.is_ok) same ∙ fine))

module _ (s : Settings) (form : Form) (unverified : Bool) where
  check_form-refused :
      (m : Message) → objection s form ≡ some m → check_form s form unverified ≡ ok (refused m form)
  unfolding check_form objection
  check_form-refused m e = ap (λ o. unless o form unverified) e

  check_form-raised :
      (x : Exn)
      → objection s form ≡ none
      → parse (text_of form) ≡ raised x
      → check_form s form unverified ≡ raised x
  unfolding check_form objection
  check_form-raised x e read = ap (λ o. unless o form unverified) e ∙ rw read refl

  check_form-judged :
      (p : Parsed)
      → objection s form ≡ none
      → parse (text_of form) ≡ ok p
      → check_form s form unverified ≡ ok (judged form unverified p)
  unfolding check_form objection
  check_form-judged p e read = ap (λ o. unless o form unverified) e ∙ rw read refl

  check_form-IsAccepted :
      (out : Outcome)
      → check_form s form unverified ≡ ok out
      → out.is_ok ≡ true
      → IsAccepted s form unverified out
  check_form-IsAccepted out e fine = elim (Option-cases (objection s form)) [
    | inr (m, objects) ↦ absurd (
        false≢true
          (ap (λ o. o.is_ok) (ok-injective (sym (check_form-refused m objects) ∙ e)) ∙ fine))
    | inl agreed ↦ elim (Result-cases (parse (text_of form))) [
      | inr (x, raises) ↦ cc (check_form-raised x agreed raises)
      | inl (p, read) ↦
          judged-IsAccepted s form unverified out p (objection-IsEntitled s form agreed) read
            (ok-injective (sym (check_form-judged p agreed read) ∙ e)) fine
    ]
  ]

module _ (hmac_hex : Bytes → Bytes → Text) (hex : (k m : Bytes) → is_ascii (hmac_hex k m) ≡ true)
    (body : Bytes) (headers : Headers) (s : Settings) (now : ℕ) where
  -- No secret is configured, or the headers carry a fresh time stamp and the signature of the body.
  abbrev pub IsSigned : Type 0
  IsSigned =
      (is_empty s.signing_secret ≡ true)
      ⊎ (IsFresh (timestamp_of headers) now max_age_seconds
          × (signature_of headers ≡ sign hmac_hex body (timestamp_of headers) s.signing_secret))

  abbrev validity : Result Bool
  validity =
      is_valid hmac_hex body (timestamp_of headers) (signature_of headers) s.signing_secret now

  check-open :
      is_empty s.signing_secret ≡ true
      → check hmac_hex body headers s now ≡ check_form s (parse_form body) true
  unfolding check
  check-open e = rw e refl

  check-signed :
      is_empty s.signing_secret ≡ false
      → validity ≡ ok true
      → check hmac_hex body headers s now ≡ check_form s (parse_form body) false
  unfolding check
  check-signed e v = rw (e, v) refl

  check-unsigned :
      is_empty s.signing_secret ≡ false
      → validity ≡ ok false
      → check hmac_hex body headers s now ≡ ok unsigned
  unfolding check
  check-unsigned e v = rw (e, v) refl

  check-raised :
      (x : Exn)
      → is_empty s.signing_secret ≡ false
      → validity ≡ raised x
      → check hmac_hex body headers s now ≡ raised x
  unfolding check
  check-raised x e v = rw (e, v) refl

  -- A request passes only if no secret is configured or it carries a fresh time stamp and the
  -- signature of its body, the workspace, the channel and the person that its form names are
  -- allowed, and its text is parsed; the outcome then holds what was parsed, and is marked as
  -- unverified exactly if there is no secret.
  pub check_accepts :
      (out : Outcome)
      → check hmac_hex body headers s now ≡ ok out
      → out.is_ok ≡ true
      → IsSigned × IsAccepted s (parse_form body) (is_empty s.signing_secret) out
  check_accepts out e fine = elim (Bool-cases (is_empty s.signing_secret)) [
    | inl no_secret ↦ (
      inl no_secret,
      rw no_secret (
          check_form-IsAccepted s (parse_form body) true out (sym (check-open no_secret) ∙ e) fine),
    )
    | inr secret ↦ elim (Result-cases validity) [
      | inr (x, raises) ↦ cc (check-raised x secret raises)
      | inl (true, valid) ↦ (
        inr ((is_valid_iff hmac_hex hex body _ _ s.signing_secret now secret).0 valid),
        rw secret (
            check_form-IsAccepted s (parse_form body) false out
              (sym (check-signed secret valid) ∙ e) fine),
      )
      | inl (false, invalid) ↦ absurd (
          false≢true
            (ap (λ o. o.is_ok) (ok-injective (sym (check-unsigned secret invalid) ∙ e)) ∙ fine))
    ]
  ]

  -- A request that is signed or needs no signature, from an allowed workspace, channel and
  -- person, whose text the parser takes, passes with what was parsed.
  pub check_passes :
      (a : Args)
      → IsSigned
      → IsEntitled s (parse_form body)
      → parse (text_of (parse_form body)) ≡ ok (parsed a)
      → check hmac_hex body headers s now
        ≡ ok (judged (parse_form body) (is_empty s.signing_secret) (parsed a))
  check_passes a signed entitled read = elim (Bool-cases (is_empty s.signing_secret)) [
    | inl no_secret ↦
        check-open no_secret
        ∙ check_form-judged s (parse_form body) true (parsed a) (IsEntitled-objection s _ entitled)
            read
        ∙ rw no_secret refl
    | inr secret ↦ elim signed [
      | inl no_secret ↦ cc
      | inr h ↦
          check-signed secret ((is_valid_iff hmac_hex hex body _ _ s.signing_secret now secret).1 h)
          ∙ check_form-judged s (parse_form body) false (parsed a)
              (IsEntitled-objection s _ entitled) read
          ∙ rw secret refl
    ]
  ]

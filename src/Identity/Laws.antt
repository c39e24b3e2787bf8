-- ===== src/Identity/Laws.antt =====
-- identity.py, continued: what is signed, and what is accepted.
use slack_runtests.Prelude.{
  All, All-imp, List, Text, [], ap, arith, codes, false, if◌then◌else◌, is_empty, length, ltb, refl,
  some, suc, sym, true, ℕ, ℕ_discrete, ℤ, ◌&&◌, ◌∙◌, ◌∷◌, ◌≡◌, ◌≤◌,
}
use slack_runtests.Identity.{
  Crypto, IsCrypto, b64, canonical, canonical_reply, check_sizes, public_b64, sign, sign_reply,
  unb64, upper, verify, verify_message, verify_reply,
}
use slack_runtests.Strings.{Lacks, join, split_on, split_on-join, strip-Unspaced}
use slack_runtests.Python.{
  Bytes, IsFresh, age, age-large, encode, encode-ascii, float_limit, is_ascii, is_ascii-append,
  magnitude, ok, overflow_error, parse_int, parse_int-nonempty, raised, ◌>>=◌,
}
use slack_runtests.Base64.{IsByte, b64decode-b64encode, b64encode, b64encode-unspaced}

unb64-b64 : (bytes : Bytes) → All IsByte bytes → unb64 (b64 bytes) ≡ bytes
unfolding unb64 b64
unb64-b64 bytes h = rw (
  strip-Unspaced (b64encode bytes) (b64encode-unspaced bytes h),
  b64decode-b64encode bytes h,
  unb64,
)

length-ne-empty : (bytes : Bytes) (n : ℕ) → length bytes ≡ suc n → is_empty (b64 bytes) ≡ false
unfolding b64 b64encode
length-ne-empty [] n h = absurd (omega arith)
length-ne-empty (a ∷ []) n h = refl
length-ne-empty (a ∷ b ∷ []) n h = refl
length-ne-empty (a ∷ b ∷ c ∷ rest) n h = refl

-- One line of what is signed: ASCII, with no line break.
pub record IsLine (s : Text) : Type 0 where
  pub ascii : is_ascii s ≡ true
  pub unbroken : Lacks 10 s

upper-is_ascii : (s : Text) → is_ascii s ≡ true → is_ascii (upper s) ≡ true
unfolding upper is_ascii
upper-is_ascii [] h = refl
upper-is_ascii (x ∷ s) h = ground (arith, upper-is_ascii s)

upper-Lacks : (s : Text) → Lacks 10 s → Lacks 10 (upper s)
unfolding upper
upper-Lacks [] h = tt
upper-Lacks (x ∷ s) h = (ground (arith, h.0), upper-Lacks s h.1)

upper-IsLine : (s : Text) → IsLine s → IsLine (upper s)
upper-IsLine s h = record { ascii = upper-is_ascii s h.ascii; unbroken = upper-Lacks s h.unbroken }

join-is_ascii : (pieces : List Text) → All IsLine pieces → is_ascii (join 10 pieces) ≡ true
unfolding join
join-is_ascii [] h = unfold is_ascii in refl
join-is_ascii (s ∷ []) h = h.0.ascii
join-is_ascii (s ∷ t ∷ pieces) h =
    is_ascii-append s (10 ∷ join 10 (t ∷ pieces)) ∙ joined (join-is_ascii (t ∷ pieces) h.1)
  where
    joined :
        is_ascii (join 10 (t ∷ pieces)) ≡ true
        → (is_ascii s && is_ascii (10 ∷ join 10 (t ∷ pieces))) ≡ true
    joined rest = unfold is_ascii in ground (arith, h.0.ascii, rest)

-- Lines that were joined and encoded are known from the bytes.
lines_injective :
    (s t : Text) (pieces pieces' : List Text)
    → All IsLine (s ∷ pieces)
    → All IsLine (t ∷ pieces')
    → encode (join 10 (s ∷ pieces)) ≡ encode (join 10 (t ∷ pieces'))
    → s ∷ pieces ≡ t ∷ pieces'
lines_injective s t pieces pieces' h h' e =
    sym (split_on-join 10 s pieces (All-imp IsLine (Lacks 10) (λ x l. l.unbroken) (s ∷ pieces) h))
    ∙ ap (split_on 10) (
        sym (encode-ascii (join 10 (s ∷ pieces)) (join-is_ascii (s ∷ pieces) h))
        ∙ e
        ∙ encode-ascii (join 10 (t ∷ pieces')) (join-is_ascii (t ∷ pieces') h'))
    ∙ split_on-join 10 t pieces' (All-imp IsLine (Lacks 10) (λ x l. l.unbroken) (t ∷ pieces') h')

module _ (c : Crypto) (laws : IsCrypto c) where
  open c use {Key, public_bytes, signature, verifies, sha256_hex}

  verify_message-signed :
      (k : Key) (message : Bytes) (timestamp : Text) (now max_age : ℕ)
      → IsFresh timestamp now max_age
      → verify_message c (public_b64 c k) timestamp (b64 (signature k message)) message now max_age
        ≡ ok true
  unfolding verify_message public_b64 ℕ_discrete
  verify_message-signed k message timestamp now max_age (t, e, (a, small, young)) =
      rw
        (
          length-ne-empty (public_bytes k) 31 (laws.public_size k),
          length-ne-empty (signature k message) 63 (laws.signature_size k message),
          parse_int-nonempty timestamp t e,
          e,
          small,
          unb64-b64 (public_bytes k) (laws.public_byte k),
          unb64-b64 (signature k message) (laws.signature_byte k message),
          laws.public_size k,
          laws.signature_size k message,
          laws.correct k message,
        )
        (ground (arith, young))

  -- A request that was signed with a key is accepted under the public half of that key while its
  -- time stamp is fresh.
  pub verify-sign :
      (k : Key) (method path timestamp : Text) (body : Bytes) (now max_age : ℕ)
      → IsFresh timestamp now max_age
      → verify c
          (public_b64 c k)
          method
          path
          timestamp
          (sign c k method path timestamp body)
          body
          now
          max_age
        ≡ ok true
  unfolding verify sign
  verify-sign k method path timestamp body now max_age fresh =
      verify_message-signed k (canonical c method path timestamp body) timestamp now max_age fresh

  -- A reply that the edge signed is accepted under the public half of its key while its time stamp
  -- is fresh.
  pub verify_reply-sign_reply :
      (k : Key) (timestamp : Text) (body : Bytes) (now max_age : ℕ)
      → IsFresh timestamp now max_age
      → verify_reply c (public_b64 c k) timestamp (sign_reply c k timestamp body) body now max_age
        ≡ ok true
  unfolding verify_reply sign_reply
  verify_reply-sign_reply k timestamp body now max_age fresh =
      verify_message-signed k (canonical_reply c timestamp body) timestamp now max_age fresh

  canonical-lines :
      (method path timestamp : Text) (body : Bytes)
      → IsLine method
      → IsLine path
      → IsLine timestamp
      → All IsLine (codes "v1" ∷ upper method ∷ path ∷ timestamp ∷ sha256_hex body ∷ [])
  canonical-lines method path timestamp body m p t = (
    record { ascii = unfold is_ascii in refl; unbroken = (omega arith, (omega arith, tt)) },
    (
      upper-IsLine method m,
      (p, (t, (record { ascii = laws.hex_ascii body; unbroken = laws.hex_line body }, tt))),
    ),
  )

  -- What is signed pins the request down: if two requests whose method, path and time stamp are
  -- single ASCII lines have the same canonical bytes, they have the same method up to case, the
  -- same path, the same time stamp and the same digest of the body.
  pub canonical_injective :
      (method path timestamp method' path' timestamp' : Text) (body body' : Bytes)
      → IsLine method
      → IsLine path
      → IsLine timestamp
      → IsLine method'
      → IsLine path'
      → IsLine timestamp'
      → canonical c method path timestamp body ≡ canonical c method' path' timestamp' body'
      → (upper method ≡ upper method')
        × (path ≡ path')
        × (timestamp ≡ timestamp')
        × (sha256_hex body ≡ sha256_hex body')
  unfolding canonical
  canonical_injective method path timestamp method' path' timestamp' body body' m p t m' p' t' e =
      let same =
        lines_injective (codes "v1") (codes "v1") _ _
          (canonical-lines method path timestamp body m p t)
          (canonical-lines method' path' timestamp' body' m' p' t') e in
      (cc, cc, cc, cc)

module _ (c : Crypto) where
  verify_message-parsed :
      (public_key_b64 timestamp signature_b64 : Text) (message : Bytes) (now max_age : ℕ) (t : ℤ)
      → is_empty public_key_b64 ≡ false
      → is_empty signature_b64 ≡ false
      → parse_int timestamp ≡ some t
      → verify_message c public_key_b64 timestamp signature_b64 message now max_age ≡ (
          age now t >>= λ a.
          if ltb max_age a
          then ok false
          else ok (check_sizes c public_key_b64 signature_b64 message))
  unfolding verify_message
  verify_message-parsed public_key_b64 timestamp signature_b64 message now max_age t key sig e =
      rw (key, sig, parse_int-nonempty timestamp t e, e)

  -- The verifier raises instead of refusing on every time stamp that is a number too large for a
  -- float, whoever sends it and whatever the signature is, as long as there is one.
  pub verify_overflow :
      (public_key_b64 method path timestamp signature_b64 : Text) (body : Bytes) (now max_age : ℕ)
      (t : ℤ)
      → is_empty public_key_b64 ≡ false
      → is_empty signature_b64 ≡ false
      → parse_int timestamp ≡ some t
      → float_limit ≤ magnitude t
      → verify c public_key_b64 method path timestamp signature_b64 body now max_age
        ≡ raised overflow_error
  unfolding verify
  verify_overflow public_key_b64 method path timestamp signature_b64 body now max_age t key sig e
        large =
      verify_message-parsed public_key_b64 timestamp signature_b64
        (canonical c method path timestamp body) now max_age t key sig e
      ∙ rw (age-large now t large)

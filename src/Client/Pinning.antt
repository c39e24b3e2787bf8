-- ===== src/Client/Pinning.antt =====
-- The fingerprint that a test server is given for the key of the edge, and what it guards.
use slack_runtests.Identity.{max_age_seconds, Crypto, fingerprint, verify_reply}
use slack_runtests.Prelude.{
  Bool-cases, Option, Option-cases, Text, [], ap, arith, codes, false, inl, inr, is_empty, none,
  or_default, refl, some, subst, sym, true, ℕ, ℕ_discrete, ◌==◌, ◌∙◌, ◌∷◌, ◌≡◌, ◌⊎◌, int_eq, nat_eq,
  text_eq, option_eq,
}
use slack_runtests.Client.{
  Answer, Called, EdgeClient, check_reply, edge_error, failed_with, http_status, not_signed,
  refused_runner, returned, unreachable, wrong_fingerprint, ◌>>=◌,
}
use slack_runtests.Python.{Bytes, Result-cases, ok, value_error, Result}
use slack_runtests.Store.{job}
use slack_runtests.Edge.Replies.{Response}
use slack_runtests.Client.Calls.{adopt, claim_call, enroll_call}

abbrev IsFailure : {A : Type 0} → Called A → Type 0
IsFailure (returned x) = ⊥
IsFailure (edge_error r) = Unit
IsFailure (failed_with x) = Unit

is_empty-cases : (s : Text) → ((s ≡ []) × (is_empty s ≡ true)) ⊎ (is_empty s ≡ false)
is_empty-cases [] = inl (refl, refl)
is_empty-cases (x ∷ s) = inr refl

returned-bind :
    {A B : Type 0} (x : Called A) (f : A → Called B) (b : B)
    → (x >>= f) ≡ returned b
    → (a : A) × (x ≡ returned a) × (f a ≡ returned b)
returned-bind (returned a) f b e = (a, refl, e)
returned-bind (edge_error r) f b e = cc
returned-bind (failed_with x) f b e = cc

module _ (c : Crypto) (client : EdgeClient c) (response : Response) (now : ℕ) where
  -- The headers of the reply sign its body under the key of the edge that the client keeps.
  abbrev pub IsVerified : Type 0
  IsVerified =
      verify_reply c client.edge_public_key
        (or_default (response.headers (codes "X-Edge-Timestamp")) [])
        (or_default (response.headers (codes "X-Edge-Signature")) []) response.content now
        max_age_seconds
      ≡ ok true

  check_reply_passed :
      (is_empty client.edge_public_key ≡ false)
      → check_reply c client response now ≡ returned tt
      → IsVerified
  unfolding check_reply
  check_reply_passed known accepted =
      elim (Result-cases (
        verify_reply c client.edge_public_key
          (or_default (response.headers (codes "X-Edge-Timestamp")) [])
          (or_default (response.headers (codes "X-Edge-Signature")) []) response.content now
          max_age_seconds)) [
            | inl (true, fine) ↦ fine
            | inl (false, forged) ↦
                let e : check_reply c client response now ≡ edge_error not_signed =
                  rw (known, forged) refl in
                absurd (subst IsFailure (sym e ∙ accepted) tt)
            | inr (x, raises) ↦
                let e : check_reply c client response now ≡ failed_with x =
                  rw (known, raises) refl in
                absurd (subst IsFailure (sym e ∙ accepted) tt)
          ]

module _ (c : Crypto) (J : Type 0) (json_of : Bytes → Option J)
    (edge_key_of : J → Result Text) where
  abbrev enrolment : EdgeClient c → Answer → ℕ → EdgeClient c × Called J
  enrolment = enroll_call c J json_of edge_key_of

  -- The key has the fingerprint that is pinned, if one is.
  abbrev pub IsPinned : EdgeClient c → Text → Type 0
  IsPinned client key =
      (is_empty client.pinned_fingerprint ≡ true) ⊎ (fingerprint c key ≡ client.pinned_fingerprint)

  -- The enrolment fails and changes nothing; or the reply names a key with the pinned fingerprint,
  -- the client keeps it, and then checks the reply with it.
  pub enroll_call_cases :
      (client : EdgeClient c) (answer : Answer) (now : ℕ)
      → ((x : Called J) × (enrolment client answer now ≡ (client, x)) × IsFailure x)
        ⊎ ((response : Response) × (payload : J) × (key : Text) × (answer ≡ some response)
            × (json_of response.content ≡ some payload)
            × (edge_key_of payload ≡ ok key)
            × (enrolment client answer now
                ≡ adopt c J json_of edge_key_of client response payload key now)
            × IsPinned client key)
  unfolding enroll_call
  enroll_call_cases client none now = inl (edge_error unreachable, refl, tt)
  enroll_call_cases client (some response) now = elim (Bool-cases (response.status == 401)) [
    | inl denied ↦ inl (edge_error refused_runner, rw denied refl, tt)
    | inr known ↦ elim (Bool-cases (response.status == 200)) [
      | inr other ↦ inl (edge_error (http_status response.status), rw (known, other) refl, tt)
      | inl fine ↦ elim (Option-cases (json_of response.content)) [
        | inl unread ↦ inl (failed_with value_error, rw (known, fine, unread) refl, tt)
        | inr (payload, found) ↦ elim (Result-cases (edge_key_of payload)) [
          | inr (x, raises) ↦ inl (failed_with x, rw (known, fine, found, raises) refl, tt)
          | inl (key, names) ↦ elim (Bool-cases (is_empty client.pinned_fingerprint)) [
            | inl free ↦ inr (
              response,
              payload,
              key,
              refl,
              found,
              names,
              rw (known, fine, found, names, free) refl,
              inl free,
            )
            | inr pinned ↦ elim (Bool-cases (fingerprint c key == client.pinned_fingerprint)) [
              | inl same ↦ inr (
                response,
                payload,
                key,
                refl,
                found,
                names,
                rw (known, fine, found, names, pinned, same) refl,
                inr (ground (arith, same)),
              )
              | inr differs ↦ inl (
                edge_error wrong_fingerprint,
                rw (known, fine, found, names, pinned, differs) refl,
                tt,
              )
            ]
          ]
        ]
      ]
    ]
  ]

  -- An enrolment that returns has kept a key with the pinned fingerprint, and the reply passes the
  -- check with that key.
  enrolled-IsPinned :
      (client client' : EdgeClient c) (answer : Answer) (now : ℕ) (payload : J)
      → enrolment client answer now ≡ (client', returned payload)
      → IsPinned client client'.edge_public_key
  enrolled-IsPinned client client' answer now payload e =
      elim (enroll_call_cases client answer now) [
        | inl (x, f, fails) ↦ absurd (subst IsFailure (ap (λ p. p.1) (sym f ∙ e)) fails)
        | inr (response, read_payload, key, here, found, names, f, pinned) ↦
            subst (IsPinned client) (ap (λ p. p.0.edge_public_key) (sym f ∙ e)) pinned
      ]

  -- A client that knows a key of the edge takes a job only from a reply that is signed with it.
  pub claimed-IsVerified :
      (client : EdgeClient c) (answer : Answer) (now : ℕ) (job : Option J)
      → is_empty client.edge_public_key ≡ false
      → claim_call c J json_of edge_key_of client answer now ≡ returned job
      → (response : Response) × (answer ≡ some response) × IsVerified c client response now
  unfolding claim_call
  claimed-IsVerified client none now job known took = cc
  claimed-IsVerified client (some response) now job known took =
      let (checked, passes, more) = returned-bind (check_reply c client response now) _ job took in
      (response, refl, check_reply_passed c client response now known passes)

  -- If a fingerprint is pinned, and it is not that of an empty key, then after an enrolment that
  -- returned a job is taken only from a reply that was signed with a key of that fingerprint.
  pub claim_call-IsVerified :
      (client client' : EdgeClient c) (answer answer' : Answer) (now now' : ℕ) (payload : J)
      (job : Option J)
      → is_empty client.pinned_fingerprint ≡ false
      → ¬ (fingerprint c [] ≡ client.pinned_fingerprint)
      → enrolment client answer now ≡ (client', returned payload)
      → claim_call c J json_of edge_key_of client' answer' now' ≡ returned job
      → (response : Response) × (answer' ≡ some response)
        × (fingerprint c client'.edge_public_key ≡ client.pinned_fingerprint)
        × IsVerified c client' response now'
  claim_call-IsVerified client client' answer answer' now now' payload job pinned real enrols took =
      elim (enrolled-IsPinned client client' answer now payload enrols) [
        | inl free ↦ absurd (cc)
        | inr same ↦
            let (response, here, checked) =
              claimed-IsVerified client' answer' now' job (known same) took in
            (response, here, same, checked)
      ]
    where
      known :
          fingerprint c client'.edge_public_key ≡ client.pinned_fingerprint
          → is_empty client'.edge_public_key ≡ false
      known same = elim (is_empty-cases client'.edge_public_key) [
        | inl (e, nothing) ↦ absurd (real (rw e at same))
        | inr full ↦ full
      ]

  -- If no fingerprint is pinned, a reply with status 200 whose object names no key ends an enrolment well,
  -- signed or not, and the client then takes every reply unchecked.
  pub enroll_call_keyless :
      (client : EdgeClient c) (response : Response) (payload : J) (now : ℕ)
      → is_empty client.pinned_fingerprint ≡ true
      → response.status ≡ 200
      → json_of response.content ≡ some payload
      → edge_key_of payload ≡ ok []
      → (client' : EdgeClient c) × (enrolment client (some response) now
          ≡ (client', returned payload))
        × ((later : Response) (now' : ℕ) → check_reply c client' later now' ≡ returned tt)
  unfolding enroll_call check_reply ℕ_discrete
  enroll_call_keyless client response payload now free fine found keyless = (
    record client { edge_public_key = [] },
    rw (fine, found, keyless, free) refl,
    λ later now'. refl,
  )

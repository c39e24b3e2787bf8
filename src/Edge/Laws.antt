-- ===== src/Edge/Laws.antt =====
-- The door for test servers: who may enrol with which key.
use slack_runtests.Prelude.{
  Bool, Bool-cases, Option, Option-cases, Text, [], arith, codes, false, inl, inr, is_empty, none,
  not, or_default, refl, some, true, ℕ, ◌||◌, ◌≡◌, ◌⊎◌, nat_eq, option_eq, text_eq, int_eq,
}
use slack_runtests.Edge.{
  EdgeConfig, Enrolment, Request, State, authenticate, bad_request, enroll, may_enrol, unauthorised,
  valid_runner_id, verify_signed, welcome,
}
use slack_runtests.Python.{Exn, Result-cases, ok, raised}
use slack_runtests.Identity.{Crypto}
use slack_runtests.Store.Ownership.{holds}
use slack_runtests.Store.Runners.{RunnerRow, RunnerRows, enrol, runner, touch}
use slack_runtests.Store.Rows.{state_eq}

module _ (c : Crypto) (beyond : ℕ → Bool) (cfg : EdgeConfig) (trusted : Text → Option Text)
    (r : Request) (e : Enrolment) (now : ℕ) (s : State) where
  -- The key is proven to be held, and it is the known one of the test server, or the
  -- pre-authorised one, or the token is right.
  pub record IsEnrollable : Type 0 where
    pub named : valid_runner_id beyond e.runner_id ≡ true
    pub possessed : verify_signed c beyond e.public_key r now ≡ ok true
    pub permitted :
        may_enrol cfg.enroll_token e (runner e.runner_id s.runners) (trusted e.runner_id) ≡ ok true

  abbrev pub enrolled_state : State
  enrolled_state = record s { runners = enrol e.runner_id e.public_key e.labels now s.runners }

  -- An enrolment raises or is refused, and changes nothing then; or the test server has a valid
  -- name, has signed the request with the key that it presents, and may enrol with it, and then
  -- its row is written and nothing else changes.
  pub enroll_cases :
      ((x : Exn) × (enroll c beyond cfg trusted r e now s ≡ raised x))
      ⊎ (enroll c beyond cfg trusted r e now s ≡ ok (s, bad_request))
      ⊎ (enroll c beyond cfg trusted r e now s ≡ ok (s, unauthorised))
      ⊎ ((enroll c beyond cfg trusted r e now s ≡ ok (enrolled_state, welcome)) × IsEnrollable)
  unfolding enroll
  enroll_cases =
      elim (Bool-cases (not (valid_runner_id beyond e.runner_id) || is_empty e.public_key)) [
        | inl bad ↦ inr (inl (rw bad refl))
        | inr well ↦ elim (Result-cases (verify_signed c beyond e.public_key r now)) [
          | inr (x, raises) ↦ inl (x, rw (well, raises) refl)
          | inl (false, lacks) ↦ inr (inr (inl (rw (well, lacks) refl)))
          | inl (true, holds) ↦
              elim (Result-cases (
                may_enrol cfg.enroll_token e (runner e.runner_id s.runners)
                  (trusted e.runner_id))) [
                    | inr (x, raises) ↦ inl (x, rw (well, holds, raises) refl)
                    | inl (false, forbidden) ↦ inr (inr (inl (rw (well, holds, forbidden) refl)))
                    | inl (true, permitted) ↦ inr (
                        inr (
                          inr (
                            rw (well, holds, permitted) refl,
                            record {
                              named = grind arith;
                              possessed = holds;
                              permitted = permitted;
                            },
                          )))
                  ]
        ]
      ]

module _ (c : Crypto) (beyond : ℕ → Bool) (r : Request) (now : ℕ) (rows : RunnerRows) where
  abbrev pub caller_id : Text
  caller_id = or_default (r.headers (codes "X-Runner-Id")) []

  -- The request names a registered test server and is signed with the key of its row.
  pub record IsCaller (row : RunnerRow) : Type 0 where
    pub named : valid_runner_id beyond caller_id ≡ true
    pub registered : runner caller_id rows ≡ some row
    pub signed : verify_signed c beyond row.public_key r now ≡ ok true

  -- A call raises, or is refused, or names a registered test server and is signed with the key
  -- of its row, and then that test server has been seen.
  pub authenticate_cases :
      ((x : Exn) × (authenticate c beyond r now rows ≡ raised x))
      ⊎ (authenticate c beyond r now rows ≡ ok none)
      ⊎ ((row : RunnerRow) × (authenticate c beyond r now rows
            ≡ ok (some (touch caller_id now rows, row)))
          × IsCaller row)
  unfolding authenticate
  authenticate_cases = elim (Bool-cases (valid_runner_id beyond caller_id)) [
    | inr bad ↦ inr (inl (rw bad refl))
    | inl named ↦ elim (Option-cases (runner caller_id rows)) [
      | inl absent ↦ inr (inl (rw (named, absent) refl))
      | inr (row, registered) ↦ elim (Result-cases (verify_signed c beyond row.public_key r now)) [
        | inr (x, raises) ↦ inl (x, rw (named, registered, raises) refl)
        | inl (false, forged) ↦ inr (inl (rw (named, registered, forged) refl))
        | inl (true, signed) ↦ inr (
            inr (
              row,
              rw (named, registered, signed) refl,
              record { named = named; registered = registered; signed = signed },
            ))
      ]
    ]
  ]

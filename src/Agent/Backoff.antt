-- ===== src/Agent/Backoff.antt =====
-- `run_forever`: how long a test server waits between its attempts to enrol.
use slack_runtests.Prelude.{
  List, Option, Text, [], ap, arith, if◌then◌else◌, inl, inr, leb, length, refl, suc, zero, ℕ, ◌*◌,
  ◌∙◌, ◌∷◌, ◌≡◌, ◌≤◌,
}
use slack_runtests.Python.{Bytes, Result}
use slack_runtests.Identity.{Crypto}
use slack_runtests.Store.{first}
use slack_runtests.Client.{Answer, Called-cases, EdgeClient}
use slack_runtests.Client.Calls.{enroll_call}
use slack_runtests.Agent.Execute.{◌then◌}
use slack_runtests.Agent.Loop.{Waiting, enrol_loop, longer}

abbrev pub smaller : ℕ → ℕ → ℕ
smaller a b = if leb a b then a else b

-- n waits: the first one, and each time the double of it, but at most the limit.
abbrev pub doubled : ℕ → ℕ → ℕ → List ℕ
doubled first limit zero = []
doubled first limit (suc n) = smaller first limit ∷ doubled (first * 2) limit n

longer-smaller :
    (w : Waiting) (first : ℕ)
    → longer w (smaller first w.max_retry) ≡ smaller (first * 2) w.max_retry
unfolding longer
longer-smaller w first = ground arith

module _ (c : Crypto) (J : Type 0) (json_of : Bytes → Option J) (edge_key_of : J → Result Text)
    (w : Waiting) where
  waits-doubled :
      (first delay : ℕ) (client : EdgeClient c) (answers : List (Answer × ℕ))
      → delay ≡ smaller first w.max_retry
      → (enrol_loop c J json_of edge_key_of w delay client answers).waits
        ≡ doubled first w.max_retry
            (length (enrol_loop c J json_of edge_key_of w delay client answers).waits)
  unfolding enrol_loop
  waits-doubled first delay client [] h = refl
  waits-doubled first delay client ((answer, now) ∷ more) h =
      elim (Called-cases (enroll_call c J json_of edge_key_of client answer now).1) [
        | inl (payload, e) ↦ rw (e, enrol_loop) refl
        | inr (inl (r, e)) ↦
            rw (e, enrol_loop)
              (cc (
                h,
                waits-doubled (first * 2) (longer w delay)
                    (enroll_call c J json_of edge_key_of client answer now).0 more
                    (ap (longer w) h ∙ longer-smaller w first),
              ))
        | inr (inr (x, e)) ↦ rw (e, enrol_loop) refl
      ]

  -- If the first delay is at most the limit, then however the enrolment goes, the waits between its
  -- attempts start with the first delay and double, up to the limit.
  pub enrol_loop-doubled :
      (client : EdgeClient c) (answers : List (Answer × ℕ))
      → w.retry ≤ w.max_retry
      → (enrol_loop c J json_of edge_key_of w w.retry client answers).waits
        ≡ doubled w.retry w.max_retry
            (length (enrol_loop c J json_of edge_key_of w w.retry client answers).waits)
  enrol_loop-doubled client answers h =
      waits-doubled w.retry w.retry client answers (ground (arith, h))

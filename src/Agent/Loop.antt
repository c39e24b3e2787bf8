-- ===== src/Agent/Loop.antt =====
-- `run_forever` of test-server/test_server/agent.py: the two loops, and the loop of the
-- heartbeats. Answers come as a list; a loop that the list does not end goes on. Times are in microseconds.
use slack_runtests.Client.Calls.{heartbeat_call, claim_call, enroll_call}
use slack_runtests.Prelude.{
  All, List, Option, Text, [], arith, if◌then◌else◌, inl, inr, leb, length, none, refl, some, ℕ,
  ◌*◌, ◌+◌, ◌∷◌, ◌≡◌, ◌≢◌,
}
use slack_runtests.Python.{Bytes, Exn, Result, ok, raised}
use slack_runtests.Identity.{Crypto}
use slack_runtests.Store.{job}
use slack_runtests.Client.{Answer, Called-cases, EdgeClient, edge_error, failed_with, returned}
use slack_runtests.Reporter.{Payload}
use slack_runtests.Agent.Execute.{AgentConfig, Meeting, Trace, did, died, execute, sleeps, ◌then◌}

-- What the loops read of the configuration.
pub record Waiting : Type 0 where
  pub retry : ℕ
  pub max_retry : ℕ

-- `min(delay * 2, cfg.max_retry_seconds)`
unfoldable pub longer : Waiting → ℕ → ℕ
longer w delay = if leb (delay * 2) w.max_retry then delay * 2 else w.max_retry

module _ (c : Crypto) (J : Type 0) (json_of : Bytes → Option J)
    (edge_key_of : J → Result Text) where
  -- The enrolment: the client, the waits, and how it ended, if it did.
  pub record Enrolled : Type 0 where
    pub client : EdgeClient c
    pub waits : List ℕ
    pub end : Option (Result J)

  abbrev pub after_wait : ℕ → Enrolled → Enrolled
  after_wait delay e = record e { waits = delay ∷ e.waits }

  -- The loop of the enrolment.
  unfoldable pub enrol_loop : Waiting → ℕ → EdgeClient c → List (Answer × ℕ) → Enrolled
  unfolding longer enroll_call
  enrol_loop w delay client [] = record { client = client; waits = []; end = none }
  enrol_loop w delay client ((answer, now) ∷ more) =
      let (client', ends) = enroll_call c J json_of edge_key_of client answer now in
      let again = after_wait delay (enrol_loop w (longer w delay) client' more) in
      elim ends [
        | returned payload ↦ record { client = client'; waits = []; end = some (ok payload) }
        | edge_error r ↦ again
        | failed_with x ↦ record { client = client'; waits = []; end = some (raised x) }
      ]

  -- A turn of the loop of work: how the edge answers, when, and what a job meets.
  pub record Turn : Type 0 where
    pub answer : Answer
    pub now : ℕ
    pub meeting : Meeting

  -- The loop of work; `payload_of` reads a job.
  unfoldable pub poll_loop :
      (J → Payload) → AgentConfig → Waiting → ℕ → EdgeClient c → List Turn → Trace
  unfolding longer claim_call execute
  poll_loop payload_of cfg w delay client [] = did []
  poll_loop payload_of cfg w delay client (t ∷ turns) =
      let rest = poll_loop payload_of cfg w w.retry client turns in
      let again = poll_loop payload_of cfg w (longer w delay) client turns in
      elim (claim_call c J json_of edge_key_of client t.answer t.now) [
        | returned none ↦ rest
        | returned (some job) ↦ execute cfg t.meeting (payload_of job) then rest
        | edge_error r ↦ did (sleeps delay ∷ []) then again
        | failed_with x ↦ died x
      ]

  -- `_heartbeat_loop`, with the answers to its heartbeats until it is stopped: how many it sends, and
  -- the exception that ends its thread, if one does; only an EdgeError is caught.
  unfoldable pub heartbeat_loop : EdgeClient c → List (Answer × ℕ) → ℕ × Option Exn
  unfolding heartbeat_call
  heartbeat_loop client [] = (0, none)
  heartbeat_loop client ((answer, now) ∷ more) =
      let rest = heartbeat_loop client more in
      elim (heartbeat_call c J json_of edge_key_of client answer now) [
        | returned payload ↦ (1 + rest.0, rest.1)
        | edge_error r ↦ (1 + rest.0, rest.1)
        | failed_with x ↦ (1, some x)
      ]

  -- A heartbeat that is not answered, or answered in a way that raises an EdgeError or returns.
  abbrev pub IsBorne : EdgeClient c → Answer × ℕ → Type 0
  IsBorne client (answer, now) =
      (x : Exn) → heartbeat_call c J json_of edge_key_of client answer now ≢ failed_with x

  -- Refusals, unsigned replies and an edge that is down do not end the heartbeats: as long as no
  -- answer raises another exception, every one is sent.
  heartbeat_loop-length :
      (client : EdgeClient c) (answers : List (Answer × ℕ))
      → All (IsBorne client) answers
      → heartbeat_loop client answers ≡ (length answers, none)
  unfolding heartbeat_loop
  heartbeat_loop-length client [] h = refl
  heartbeat_loop-length client ((answer, now) ∷ more) h =
      elim (Called-cases (heartbeat_call c J json_of edge_key_of client answer now)) [
        | inl (payload, e) ↦
            rw (e, heartbeat_loop-length client more h.1, heartbeat_loop) (ground arith)
        | inr (inl (r, e)) ↦
            rw (e, heartbeat_loop-length client more h.1, heartbeat_loop) (ground arith)
        | inr (inr (x, e)) ↦ absurd (h.0 x e)
      ]

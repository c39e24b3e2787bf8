-- ===== src/Agent/Polling.antt =====
-- `run_forever`: the loop of work, whatever the edge answers.
use mathlib.Core.List.{Memᴰ}
use slack_runtests.Prelude.{
  All, All-imp, List, Option, Text, [], false, inl, inr, is_empty, none, refl, some, subst, true, ℕ,
  ◌∷◌, ◌≡◌,
}
use slack_runtests.Python.{Bytes, Result-cases, ok, Result}
use slack_runtests.Identity.{Crypto}
use slack_runtests.Store.{job}
use slack_runtests.Edge.Replies.{Response}
use slack_runtests.Client.{Called, Called-cases, EdgeClient, edge_error, failed_with, returned}
use slack_runtests.Client.Calls.{claim_call}
use slack_runtests.Client.Pinning.{IsVerified, claimed-IsVerified}
use slack_runtests.Reporter.{Payload, Shown, shown_of}
use slack_runtests.Agent.Execute.{
  Act, AgentConfig, Meeting, Trace, execute, job_argv, runs, says, sleeps, tells_result,
  tells_started, ◌then◌,
}
use slack_runtests.Agent.Loop.{Turn, Waiting, longer, poll_loop}
use slack_runtests.Agent.Trust.{IsDue, IsTrusted, execute-IsDue, then-All}

then-ends : (s t : Trace) → s.failure ≡ none → t.failure ≡ none → (s then t).failure ≡ none
then-ends s t h k = rw h k

module _ (c : Crypto) (J : Type 0) (json_of : Bytes → Option J) (edge_key_of : J → Result Text)
    (payload_of : J → Payload) (cfg : AgentConfig) (w : Waiting) (client : EdgeClient c) where
  abbrev pub turn_claim : Turn c J json_of edge_key_of → Called (Option J)
  turn_claim t = claim_call c J json_of edge_key_of client t.answer t.now

  -- The edge is not reached or refuses, or gives no job, or one that is executed to its end.
  abbrev pub IsSurvived : Called (Option J) → Meeting → Type 0
  IsSurvived (returned none) m = Unit
  IsSurvived (returned (some job)) m = (execute cfg m (payload_of job)).failure ≡ none
  IsSurvived (edge_error r) m = Unit
  IsSurvived (failed_with x) m = ⊥

  -- The loop of work goes on as long as the calls to the edge raise no more than an EdgeError and
  -- each job that comes is executed to its end.
  pub poll_loop-survives :
      (delay : ℕ) (turns : List (Turn c J json_of edge_key_of))
      → All (λ t. IsSurvived (turn_claim t) t.meeting) turns
      → (poll_loop c J json_of edge_key_of payload_of cfg w delay client turns).failure ≡ none
  unfolding poll_loop
  poll_loop-survives delay [] h = refl
  poll_loop-survives delay (t ∷ turns) (h, hs) = elim (Called-cases (turn_claim t)) [
    | inl (none, e) ↦ rw (e, poll_loop) (poll_loop-survives w.retry turns hs)
    | inl (some job, e) ↦
        let ends : (execute cfg t.meeting (payload_of job)).failure ≡ none =
          subst (λ x. IsSurvived x t.meeting) e h in
        rw (e, poll_loop)
          (then-ends (execute cfg t.meeting (payload_of job)) _ ends
            (poll_loop-survives w.retry turns hs))
    | inr (inl (r, e)) ↦ rw (e, poll_loop) (poll_loop-survives (longer w delay) turns hs)
    | inr (inr (x, e)) ↦ absurd (subst (λ y. IsSurvived y t.meeting) e h)
  ]

  -- A command is the one that is built for a job that may be run and has a suite, and that one of
  -- the turns has brought in a reply that is signed with the key of the edge.
  abbrev pub IsVouched : List (Turn c J json_of edge_key_of) → Act → Type 0
  IsVouched turns (says events) = Unit
  IsVouched turns (tells_started job_id) = Unit
  IsVouched turns (runs argv) =
      (t : Turn c J json_of edge_key_of) × (job : J) × (response : Response) × (j : Shown) × Memᴰ t
        turns
      × (turn_claim t ≡ returned (some job))
      × (t.answer ≡ some response)
      × IsVerified c client response t.now
      × IsTrusted (payload_of job)
      × (t.meeting.suite_is_dir ≡ true)
      × (shown_of (payload_of job) ≡ ok j)
      × (argv ≡ job_argv cfg t.meeting (payload_of job) j)
  IsVouched turns (tells_result job_id report) = Unit
  IsVouched turns (sleeps n) = Unit

  IsVouched-tail :
      (t : Turn c J json_of edge_key_of) (turns : List (Turn c J json_of edge_key_of)) (act : Act)
      → IsVouched turns act
      → IsVouched (t ∷ turns) act
  IsVouched-tail t turns (says events) h = tt
  IsVouched-tail t turns (tells_started job_id) h = tt
  IsVouched-tail t turns (runs argv) (u, job, response, j, here, a, b, d, e, f, g, h) =
      (u, job, response, j, Memᴰ.tail here, a, b, d, e, f, g, h)
  IsVouched-tail t turns (tells_result job_id report) h = tt
  IsVouched-tail t turns (sleeps n) h = tt

  due-IsVouched :
      (t : Turn c J json_of edge_key_of) (turns : List (Turn c J json_of edge_key_of)) (job : J)
      (response : Response) (j : Shown)
      → turn_claim t ≡ returned (some job)
      → t.answer ≡ some response
      → IsVerified c client response t.now
      → shown_of (payload_of job) ≡ ok j
      → (act : Act) → IsDue cfg t.meeting (payload_of job) j act
      → IsVouched (t ∷ turns) act
  due-IsVouched t turns job response j e here checked named (says events) h = tt
  due-IsVouched t turns job response j e here checked named (tells_started job_id) h = tt
  due-IsVouched t turns job response j e here checked named (runs argv) (trusted, there, same) =
      (t, job, response, j, Memᴰ.head refl, e, here, checked, trusted, there, named, same)
  due-IsVouched t turns job response j e here checked named (tells_result job_id report) h = tt
  due-IsVouched t turns job response j e here checked named (sleeps n) h = tt

  executed-IsVouched :
      (t : Turn c J json_of edge_key_of) (turns : List (Turn c J json_of edge_key_of)) (job : J)
      → is_empty client.edge_public_key ≡ false
      → turn_claim t ≡ returned (some job)
      → All (IsVouched (t ∷ turns)) (execute cfg t.meeting (payload_of job)).acts
  unfolding execute
  executed-IsVouched t turns job known e = elim (Result-cases (shown_of (payload_of job))) [
    | inr (x, raises) ↦ rw raises tt
    | inl (j, named) ↦
        let (response, here, checked) =
          claimed-IsVerified c J json_of edge_key_of client t.answer t.now (some job) known e in
        All-imp (IsDue cfg t.meeting (payload_of job) j) (IsVouched (t ∷ turns))
          (due-IsVouched t turns job response j e here checked named) _
          (execute-IsDue cfg t.meeting (payload_of job) j named)
  ]

  -- If the client knows a key of the edge, each command that the loop of work runs is the one
  -- that is built for a job that may be run and has a suite, and that a turn has brought in a reply
  -- that is signed with this key.
  pub poll_loop-IsVouched :
      (delay : ℕ) (turns : List (Turn c J json_of edge_key_of))
      → is_empty client.edge_public_key ≡ false
      → All
          (IsVouched turns)
          (poll_loop c J json_of edge_key_of payload_of cfg w delay client turns).acts
  unfolding poll_loop
  poll_loop-IsVouched delay [] known = tt
  poll_loop-IsVouched delay (t ∷ turns) known =
      let rest : (d : ℕ)
          → All (IsVouched (t ∷ turns))
              (poll_loop c J json_of edge_key_of payload_of cfg w d client turns).acts =
        λ d.
          All-imp (IsVouched turns) (IsVouched (t ∷ turns)) (IsVouched-tail t turns) _
            (poll_loop-IsVouched d turns known) in
      elim (Called-cases (turn_claim t)) [
        | inl (none, e) ↦ rw (e, poll_loop) (rest w.retry)
        | inl (some job, e) ↦
            rw (e, poll_loop)
              (then-All (IsVouched (t ∷ turns)) (execute cfg t.meeting (payload_of job)) _
                (executed-IsVouched t turns job known e) (rest w.retry))
        | inr (inl (r, e)) ↦ rw (e, poll_loop) (tt, rest (longer w delay))
        | inr (inr (x, e)) ↦ rw (e, poll_loop) tt
      ]

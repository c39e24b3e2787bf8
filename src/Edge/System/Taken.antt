-- ===== src/Edge/System/Taken.antt =====
-- From the Slack door of the edge over the wire to the test server: the jobs that its client reads.
use slack_runtests.Reporter.{Payload}
use slack_runtests.Prelude.{
  List, Option, Text, [], none, refl, some, subst, sym, true, ℕ, ◌+◌, ◌<◌, ◌∙◌, ◌≡◌,
}
use slack_runtests.Edge.{State}
use slack_runtests.Edge.System.{AreFit, IsOrdered, Reach, Setting}
use slack_runtests.Python.{Bytes, Result, is_ascii, ok}
use slack_runtests.Identity.{IsCrypto, public_b64}
use slack_runtests.Store.Rows.{Job}
use slack_runtests.Store.Runners.{RunnerRow, labels_of}
use slack_runtests.Edge.Polling.{Polled, Round, dispatched, is_waiting, no_content, poll}
use slack_runtests.Edge.System.Orders.{Reach-IsWellFormed}
use slack_runtests.Edge.Wire.{Told, job_told}
use slack_runtests.Client.{Called, EdgeClient, returned}
use slack_runtests.Client.Protocol.{AreNear, IsRegistered, Times, claim_exchange}
use slack_runtests.Client.Served.{claim_exchange-served, taken}
use slack_runtests.Agent.{validate}
use slack_runtests.Agent.Dispatch.{as_dispatch}
use slack_runtests.Edge.System.Delivery.{IsOrdered-IsAccepted, poll-AllJobs}

polled-injective :
    {A : Type 0} {a b : State} {x y : A}
    → ◌≡◌ {A = Result (State × A)} (ok (a, x)) (ok (b, y))
    → x ≡ y
polled-injective e = cc

module _ (g : Setting) (hex : (k m : Bytes) → is_ascii (g.hmac_hex k m) ≡ true)
    (laws : IsCrypto g.c) (dumps : Told → Bytes) (json_of : Bytes → Option Payload)
    (reads : (j : Job) → json_of (dumps (job_told j)) ≡ some (as_dispatch j))
    (edge_key_of : Payload → Result Text) (client : EdgeClient g.c) (edge_key : g.c.Key)
    (known : client.edge_public_key ≡ public_b64 g.c edge_key)
    (times : Times g.c g.beyond dumps Payload json_of edge_key_of client edge_key)
    (near : AreNear g.c g.beyond dumps Payload json_of edge_key_of client edge_key times) where
  -- The test server asks this edge for work.
  abbrev pub took :
      Bytes → ℕ → List Round → State → Result (State × Option (Called (Option Payload)))
  took =
      claim_exchange g.c g.beyond dumps Payload json_of edge_key_of client edge_key times g.edge
        g.poll_timeout g.max_attempts

  taken_job :
      (polled : Polled) (payload : Payload)
      → taken as_dispatch polled ≡ some (returned (some payload))
      → (j : Job) × (polled ≡ dispatched j) × (payload ≡ as_dispatch j)
  taken_job (dispatched j) payload e = (j, refl, cc)
  taken_job no_content payload e = cc
  taken_job is_waiting payload e = cc

  -- If a registered test server, which keeps the key of the edge and whose clock agrees with that of
  -- the edge, asks an edge that started with an empty table, after any requests at both doors, and
  -- reads a job from the reply, then the job was ordered, by a request that is signed if a secret is
  -- set, from an allowed workspace, channel and person, with a text that the parser takes; what is
  -- read is what the edge sent; and the test server's own test of the job finds no fault. The cap
  -- on attempts is positive, what others queue while the request waits was ordered too, the HMAC is
  -- written in ASCII, and the JSON text of a job is read as what it was written from.
  pub took-IsAccepted :
      (s t u : State) (body : Bytes) (monotonic : ℕ) (rounds : List Round) (row : RunnerRow)
      (payload : Payload)
      → s.jobs ≡ []
      → 0 < g.max_attempts
      → Reach g s t
      → AreFit g rounds
      → IsRegistered g.c g.beyond dumps Payload json_of edge_key_of client edge_key t.runners row
      → took body monotonic rounds t ≡ ok (u, some (returned (some payload)))
      → (j : Job) × IsOrdered g j × (payload ≡ as_dispatch j) × (validate payload ≡ ok none)
  took-IsAccepted s t u body monotonic rounds row payload empty capped path fit there e =
      let deadline = monotonic + g.poll_timeout in
      let polled =
        (poll row.runner_id (labels_of row.labels) g.edge.lease_seconds g.max_attempts deadline
          rounds t.jobs).1 in
      let served =
        claim_exchange-served g.c g.beyond dumps Payload json_of edge_key_of client edge_key laws
          known times near t row there as_dispatch g.edge g.poll_timeout g.max_attempts body
          monotonic rounds reads in
      let (j, handed_over, same) = taken_job polled payload (polled-injective (sym served ∙ e)) in
      let ordered =
        poll-AllJobs (IsOrdered g) row.runner_id (labels_of row.labels) g.edge.lease_seconds
          g.max_attempts deadline rounds t.jobs j (Reach-IsWellFormed g hex path capped empty).1 fit
          handed_over in
      (
        j,
        ordered,
        same,
        subst (λ p. validate p ≡ ok none) (sym same) (IsOrdered-IsAccepted g hex j ordered),
      )

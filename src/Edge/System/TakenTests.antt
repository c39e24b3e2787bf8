-- ===== src/Edge/System/TakenTests.antt =====
-- A command at the Slack door whose job a test server takes over the wire, with a toy scheme of
-- signatures and a toy notation for JSON: every part of a job stands behind its length.
use slack_runtests.Reporter.{text, Payload}
use slack_runtests.Identity.Tests.{toy, toy_laws}
use slack_runtests.Prelude.{
  Option, Text, Text-discrete, [], ap, arith, codes, drop, length, none, or_default, refl, some,
  take, ℕ_discrete, ◌++◌, ◌∙◌, ◌∷◌, ◌≡◌,
}
use slack_runtests.Edge.{State, valid_runner_id}
use slack_runtests.Edge.System.{IsOrdered, Setting, commands, here, next}
use slack_runtests.Python.{Bytes, ok, Result}
use slack_runtests.Forms.{get, parse_form}
use slack_runtests.Identity.{public_b64}
use slack_runtests.Store.Rows.{Job, JobState-discrete}
use slack_runtests.Store.{Rows, claim, enqueue}
use slack_runtests.Store.Runners.{RunnerRow, labels_of, runner, touch}
use slack_runtests.Edge.Slack.{commanded}
use slack_runtests.Edge.Polling.{Polled, dispatched, poll}
use slack_runtests.Edge.Wire.{Told, job_told}
use slack_runtests.Client.{EdgeClient, returned}
use slack_runtests.Client.Protocol.{AreNear, IsRegistered, Times}
use slack_runtests.Client.Served.{claim_exchange-served, taken}
use slack_runtests.Agent.{validate}
use slack_runtests.Agent.Dispatch.{as_dispatch}
use slack_runtests.Edge.System.Taken.{took, took-IsAccepted}
use slack_runtests.Edge.System.Sample.{
  body, no_headers, ordered, ordered_job, ordered_now, rounds, sample, toy_hex,
}

abbrev part : Text → Bytes → Bytes
part s rest = length s ∷ s ++ rest

take-part : (s rest : Text) → take (length s) (s ++ rest) ≡ s
take-part [] rest = refl
take-part (x ∷ s) rest = rw (take-part s rest) refl

drop-part : (s rest : Text) → drop (length s) (s ++ rest) ≡ rest
drop-part [] rest = refl
drop-part (x ∷ s) rest = drop-part s rest

abbrev read_part : {A : Type 0} → Bytes → (Text → Bytes → Option A) → Option A
read_part [] more = none
read_part (n ∷ rest) more = more (take n rest) (drop n rest)

read_part-part :
    {A : Type 0} (s rest : Bytes) (more : Text → Bytes → Option A)
    → read_part (part s rest) more ≡ more s rest
read_part-part s rest more = rw (take-part s rest, drop-part s rest) refl

abbrev toy_dumps : Told → Bytes
toy_dumps (job_told j) = part j.id (
    part j.product (
      part j.server (
        part (or_default j.select_expr [])
          (part (or_default j.marker []) (part j.slack_channel [])))))
toy_dumps other_told = []

abbrev toy_json : Bytes → Option Payload
toy_json body = read_part body (λ id r1. read_part r1 (λ product r2. read_part r2 (λ server r3.
    read_part r3 (λ select r4. read_part r4 (λ marker r5. read_part r5 (λ channel r6. some (record {
      job_id = some (text id);
      product = some (text product);
      server = some (text server);
      select = some (text select);
      marker = some (text marker);
      slack_channel = some (text channel);
    })))))))

toy_reads : (j : Job) → toy_json (toy_dumps (job_told j)) ≡ some (as_dispatch j)
unfolding as_dispatch
toy_reads j = simp (take-part, drop-part)

abbrev edge_client : EdgeClient toy
edge_client = record {
  runner_id = codes "lab-1";
  key = 7;
  edge_public_key = public_b64 toy 9;
  pinned_fingerprint = [];
}

abbrev lab_row : RunnerRow
lab_row = record {
  runner_id = codes "lab-1";
  public_key = public_b64 toy 7;
  labels = [];
  enrolled_at = 5;
  last_seen = 7;
}

abbrev empty_queue : State
empty_queue = record { jobs = []; runners = lab_row ∷ [] }

abbrev here_only : Setting
here_only = sample toy

abbrev no_key : Payload → Result Text
no_key payload = ok []

abbrev times : Times toy here_only.beyond toy_dumps Payload toy_json no_key edge_client 9
times = record { sent_at = 100000000; now = 102000000; replied_at = 103000000; read_at = 104000000 }

near : AreNear toy here_only.beyond toy_dumps Payload toy_json no_key edge_client 9 times
near = ((omega arith, omega arith, omega arith), (omega arith, omega arith, omega arith))

registered :
    IsRegistered toy here_only.beyond toy_dumps Payload toy_json no_key edge_client 9
      (ordered empty_queue).0.runners
      lab_row
unfolding runner commanded valid_runner_id Text-discrete ℕ_discrete
registered = record { named = refl; registered = refl; keyed = refl }

abbrev polled : Rows × Polled
polled = poll (codes "lab-1") (labels_of []) 60000000 3 25000000 rounds (ordered empty_queue).0.jobs

handed_over : polled.1 ≡ dispatched ordered_job
unfolding poll claim labels_of commanded parse_form get enqueue JobState-discrete Text-discrete
    ℕ_discrete
handed_over = refl

abbrev after : State
after = record {
  jobs = polled.0;
  runners = touch (codes "lab-1") 102000000 (ordered empty_queue).0.runners;
}

took_now :
    took here_only toy_hex toy_laws toy_dumps toy_json toy_reads no_key edge_client 9 refl times
      near
      (codes "{}")
      0
      rounds
      (ordered empty_queue).0
    ≡ ok (after, some (returned (some (as_dispatch ordered_job))))
took_now =
    claim_exchange-served toy here_only.beyond toy_dumps Payload toy_json no_key edge_client 9
      toy_laws refl times near (ordered empty_queue).0 lab_row registered as_dispatch here_only.edge
      25000000 3 (codes "{}") 0 rounds toy_reads
    ∙ ap (λ p. ok (after, taken as_dispatch p)) handed_over

took-IsAccepted_example :
    (j : Job) × IsOrdered here_only j
    × (as_dispatch ordered_job ≡ as_dispatch j)
    × (validate (as_dispatch ordered_job) ≡ ok none)
took-IsAccepted_example =
    took-IsAccepted here_only toy_hex toy_laws toy_dumps toy_json toy_reads no_key edge_client 9
      refl times near empty_queue (ordered empty_queue).0 after (codes "{}") 0 rounds lab_row
      (as_dispatch ordered_job) refl (omega arith)
      (next here (commands body no_headers 101000000 (ordered_now empty_queue))) (tt, tt) registered
      took_now

-- ===== src/Client/ProtocolTests.antt =====
-- Calls of a test server that the edge answers, at concrete inputs, with a toy scheme of signatures.
use slack_runtests.Store.Rows.{Outcome}
use slack_runtests.Store.{finish, renew}
use slack_runtests.Identity.Tests.{toy, toy_laws}
use slack_runtests.Edge.Polling.{Round}
use slack_runtests.Prelude.{
  Bool, List, Option, Text, Text-discrete, [], arith, codes, false, none, pos, refl, some, ℕ,
  ℕ_discrete, ◌∷◌, ◌≡◌,
}
use slack_runtests.Client.{EdgeClient, edge_error, http_status, not_signed, returned}
use slack_runtests.Python.{Bytes, ok, Result}
use slack_runtests.Base64.{b64encode}
use slack_runtests.Identity.{public_b64}
use slack_runtests.Store.Runners.{RunnerRow, runner, touch}
use slack_runtests.Edge.{EdgeConfig, State, valid_runner_id}
use slack_runtests.Edge.Wire.{Intervals, Told, renewed_told}
use slack_runtests.Client.Protocol.{
  AreNear, IsRegistered, Times, claim_exchange, heartbeat_exchange, result_exchange,
  started_exchange,
}
use slack_runtests.Client.Served.{heartbeat_exchange-served, result_exchange-served}
use slack_runtests.Client.Denied.{denied_calls}

abbrev client : EdgeClient toy
client = record {
  runner_id = codes "runner-1";
  key = 7;
  edge_public_key = public_b64 toy 9;
  pinned_fingerprint = codes "00ff";
}

abbrev row : RunnerRow
row = record {
  runner_id = codes "runner-1";
  public_key = public_b64 toy 7;
  labels = [];
  enrolled_at = 0;
  last_seen = 0;
}

abbrev plain : ℕ → Bool
plain d = false

-- A JSON text of a toy notation, and what is read of it.
abbrev shouted : Told → Bytes
shouted (renewed_told n) = n ∷ []
shouted other_told = []

abbrev heard : Bytes → Option Text
heard [] = none
heard (n ∷ body) = some (n ∷ body)

abbrev no_key : Text → Result Text
no_key payload = ok []

abbrev times : Times toy plain shouted Text heard no_key client 9
times = record { sent_at = 100000000; now = 101000000; replied_at = 103000000; read_at = 104000000 }

near : AreNear toy plain shouted Text heard no_key client 9 times
near = ((omega arith, omega arith, omega arith), (omega arith, omega arith, omega arith))

abbrev known : State
known = record { jobs = []; runners = row ∷ [] }

abbrev forgotten : State
forgotten = record { jobs = []; runners = [] }

registered : IsRegistered toy plain shouted Text heard no_key client 9 known.runners row
unfolding runner valid_runner_id Text-discrete ℕ_discrete
registered = record { named = refl; registered = refl; keyed = refl }

abbrev hour : EdgeConfig
hour = record { lease_seconds = 60000000; enroll_token = [] }

abbrev intervals : Intervals
intervals = record {
  heartbeat_interval = 15000000;
  poll_timeout = 25000000;
  lease_seconds = 60000000;
}

abbrev outcome : Outcome
outcome = record {
  exit_code = pos 0;
  passed = pos 3;
  failed = pos 0;
  skipped = pos 0;
  duration = some (pos 1000);
  summary = [];
}

-- A result for a job that nobody holds.
result_exchange-served_example :
    result_exchange toy plain shouted Text heard no_key client 9 times (codes "a") outcome [] known
    ≡ ok (
      record { jobs = []; runners = touch (codes "runner-1") 101000000 (row ∷ []) },
      edge_error (http_status 409),
    )
unfolding finish ℕ_discrete
result_exchange-served_example =
    result_exchange-served toy plain shouted Text heard no_key client 9 toy_laws refl times near
      known row registered (codes "a") outcome []

heartbeat_exchange-served_sample :
    heartbeat_exchange toy plain shouted Text heard no_key client 9 times hour intervals [] known
    ≡ ok (
      record { jobs = []; runners = touch (codes "runner-1") 101000000 (row ∷ []) },
      returned (0 ∷ []),
    )
unfolding renew
heartbeat_exchange-served_sample =
    heartbeat_exchange-served toy plain shouted Text heard no_key client 9 toy_laws refl times near
      known row registered hour intervals [] (0 ∷ []) refl

denied_calls_example :
    ((cfg : EdgeConfig) (intervals : Intervals)
      → heartbeat_exchange toy plain shouted Text heard no_key client 9 times cfg intervals []
          forgotten
        ≡ ok (forgotten, edge_error not_signed))
    × ((cfg : EdgeConfig) (poll_timeout max_attempts monotonic : ℕ) (rounds : List Round)
        → claim_exchange toy plain shouted Text heard no_key client 9 times cfg poll_timeout
            max_attempts [] monotonic rounds forgotten
          ≡ ok (forgotten, some (edge_error not_signed)))
    × ((intervals : Intervals) (job_id : Text)
        → started_exchange toy plain shouted Text heard no_key client 9 times intervals job_id []
            forgotten
          ≡ ok (forgotten, edge_error not_signed))
    × ((job_id : Text) (o : Outcome)
        → result_exchange toy plain shouted Text heard no_key client 9 times job_id o [] forgotten
          ≡ ok (forgotten, edge_error not_signed))
denied_calls_example =
    denied_calls toy plain shouted Text heard no_key client 9 times forgotten []
      (unfold public_b64 b64encode in refl) (unfold runner in refl)

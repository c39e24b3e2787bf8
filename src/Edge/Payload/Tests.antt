-- ===== src/Edge/Payload/Tests.antt =====
-- The payloads of a test server at concrete values. Floats are thousandths here, for the tests.
use slack_runtests.Prelude.{
  Bool, List, Option, Text-discrete, [], codes, false, none, or_default, pos, refl, some, ℕ,
  ℕ_discrete, ℤ, ◌^◌, ◌∷◌, ◌≡◌,
}
use slack_runtests.Edge.{EdgeConfig, Request, State}
use slack_runtests.Edge.Payload.{
  Numbers, ResultReply, Value, array, bound, end_fields, end_items, enroll_body, enroll_payload,
  enrolment_of, field, get_or, int_value, integer, null, object, outcome_of, recorded_outcome,
  result_body, result_payload,
}
use slack_runtests.Strings.{is_space, strip}
use slack_runtests.Python.{Bytes, Result, attribute_error, ok, overflow_error, raised, type_error}
use slack_runtests.Base64.{b64encode}
use slack_runtests.Identity.{Crypto, public_b64}
use slack_runtests.Identity.Tests.{toy}
use slack_runtests.Store.Runners.{runner, touch}
use slack_runtests.Edge.Payload.Laws.{enrolment_of-enroll_payload}
use slack_runtests.Edge.Keys.{
  Call, Door, HasKey, claim_route, enroll_route, heartbeat_route, result_route, served,
  served-HasKey, started_route,
}
use slack_runtests.Client.{EdgeClient, request_of}

abbrev toy_numbers : Numbers
toy_numbers = record {
  Float = ℤ;
  trunc = λ x. ok x;
  of_int = λ n. ok n;
  float_of = λ s. none;
  shown = λ v. codes "?";
  micros = λ x. some x;
}

abbrev c : Crypto
c = toy

abbrev plain : ℕ → Bool
plain d = false

-- Every text is read as an empty list.
abbrev listed : Bytes → Option (Value toy_numbers)
listed body = some (array end_items)

abbrev stranger : Request
stranger = record {
  method = codes "POST";
  path = codes "/runner/enroll";
  headers = λ name. none;
  body = codes "[]";
}

abbrev empty_edge : State
empty_edge = record { jobs = []; runners = [] }

abbrev cfg : EdgeConfig
cfg = record { lease_seconds = 60000000; enroll_token = [] }

-- A body that is JSON but no object.
listed_body :
    enroll_body toy_numbers c plain listed cfg (λ name. none) stranger 5 empty_edge
    ≡ raised attribute_error
unfolding enroll_body enrolment_of
listed_body = refl

enrolment_of-enroll_payload_example :
    enrolment_of toy_numbers
      (enroll_payload toy_numbers (codes "lab-1") (codes "k") (codes "dev" ∷ codes "uat" ∷ []) [])
    ≡ ok (record {
      runner_id = codes "lab-1";
      public_key = codes "k";
      labels = codes "dev" ∷ codes "uat" ∷ [];
      token = [];
    })
enrolment_of-enroll_payload_example =
    enrolment_of-enroll_payload toy_numbers (codes "lab-1") (codes "k")
      (codes "dev" ∷ codes "uat" ∷ []) [] (unfold strip is_space ℕ_discrete in (refl, (refl, tt)))

-- A test server that the edge knows, and its result.
abbrev lab : EdgeClient c
lab = record { runner_id = codes "lab-1"; key = 7; edge_public_key = []; pinned_fingerprint = [] }

abbrev lab_edge : State
lab_edge = record {
  jobs = [];
  runners =
      record {
        runner_id = codes "lab-1";
        public_key = public_b64 c 7;
        labels = [];
        enrolled_at = 0;
        last_seen = 0;
      }
      ∷ [];
}

abbrev lab_result : Bytes → Option (Value toy_numbers)
lab_result body =
    some (result_payload toy_numbers (pos 0) (pos 3) (pos 0) (pos 1) (pos 1000) (codes "fine"))

abbrev lab_request : Request
lab_request = request_of c lab (codes "/runner/jobs/a/result") (codes "{}") 100000000

abbrev lab_visited : State
lab_visited = record lab_edge {
  runners =
      touch (or_default (lab_request.headers (codes "X-Runner-Id")) []) 101000000 lab_edge.runners;
}

abbrev lab_after : State × Result (ResultReply toy_numbers c plain lab_result)
lab_after =
    result_body toy_numbers c plain lab_result (pos 0) (codes "a") lab_request 101000000 lab_edge

-- A number that is given as null is an exception.
null_code :
    outcome_of toy_numbers (pos 0) (object (field (codes "exit_code") null end_fields))
    ≡ raised type_error
unfolding outcome_of get_or int_value Text-discrete ℕ_discrete
null_code = refl

-- A count of 64 bits is too wide for the database.
wide_count :
    recorded_outcome toy_numbers
      (pos 0)
      (object (field (codes "passed") (integer (pos (2 ^ 63))) end_fields))
    ≡ raised overflow_error
unfolding recorded_outcome outcome_of bound get_or int_value Text-discrete ℕ_discrete
wide_count = refl

-- Another key for the name that is taken, with the right token; and the other routes.
abbrev lab_door : Door
lab_door = record {
  crypto = c;
  beyond = plain;
  numbers = toy_numbers;
  loads =
      λ body. some (enroll_payload toy_numbers (codes "lab-1") (public_b64 c 8) [] (codes "token"));
  zero_float = pos 0;
  edge = record { lease_seconds = 60000000; enroll_token = codes "token" };
  trusted = λ name. none;
  poll_timeout = 25000000;
  max_attempts = 3;
}

abbrev calls : List Call
calls =
    enroll_route
      (request_of c (record lab { key = 8 }) (codes "/runner/enroll") (codes "{}") 100000000)
      101000000
    ∷ heartbeat_route lab_request 102000000
    ∷ claim_route lab_request 103000000 0 []
    ∷ started_route (codes "a") lab_request 104000000
    ∷ result_route (codes "a") lab_request 105000000
    ∷ []

lab-HasKey : HasKey (codes "lab-1") (public_b64 c 7) lab_edge
unfolding runner public_b64 b64encode Text-discrete ℕ_discrete
lab-HasKey = (_, refl, refl)

served-HasKey_example : HasKey (codes "lab-1") (public_b64 c 7) (served lab_door calls lab_edge)
served-HasKey_example =
    served-HasKey lab_door (codes "lab-1") (public_b64 c 7) calls lab_edge lab-HasKey

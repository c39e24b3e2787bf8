-- ===== src/Edge/Wire.antt =====
-- What the handlers of edge/edge_server/app.py send for their replies, the bodies included. `dumps`
-- is the JSON text of a payload, `json.dumps(payload, separators=(",", ":")).encode()`.
use slack_runtests.Prelude.{Bool, Option, Text, [], codes, if◌then◌else◌, none, some, ℕ}
use slack_runtests.Edge.{Reply, bad_request, is_started, leases_renewed, unauthorised, welcome}
use slack_runtests.Python.{Bytes}
use slack_runtests.Identity.{Crypto, fingerprint, public_b64}
use slack_runtests.Store.Rows.{Job}
use slack_runtests.Edge.Polling.{
  ClaimReply, answered_claim, dispatched, is_waiting, no_content, refused_claim,
}
use slack_runtests.Edge.Replies.{Response, signed}

-- The numbers that an enrolment is told, in microseconds.
pub record Intervals : Type 0 where
  pub heartbeat_interval : ℕ
  pub poll_timeout : ℕ
  pub lease_seconds : ℕ

-- The payloads: `{"error": …}`, those of `enroll` and `heartbeat`, `{"ok": …}`, and a job.
pub data Told : Type 0 where
  error_told : Text → Told
  enrolled_told : Text → Text → Intervals → Told
  renewed_told : ℕ → Told
  ok_told : Bool → Told
  job_told : Job → Told

module _ (c : Crypto) (dumps : Told → Bytes) (edge_key : c.Key) (now : ℕ) where
  -- `JSONResponse({"error": …}, status_code=…)`, which is not signed.
  abbrev pub refusal : ℕ → Text → Response
  refusal status error = record {
    status = status;
    headers = λ name. none;
    content = dumps (error_told error);
  }

  abbrev pub denial : Response
  denial = refusal 401 (codes "unauthorised")

  -- `signed(request, {"ok": ok}, status=200 if ok else 409)`
  abbrev pub ok_response : Bool → Response
  ok_response did_it = signed c edge_key (dumps (ok_told did_it)) (if did_it then 200 else 409) now

  -- `enroll`, `heartbeat` and `started`.
  unfoldable pub reply_response : Text → Intervals → Reply → Response
  reply_response runner_id intervals unauthorised = denial
  reply_response runner_id intervals bad_request = refusal 400 (codes "bad request")
  reply_response runner_id intervals welcome =
      signed c edge_key (dumps (enrolled_told runner_id (public_b64 c edge_key) intervals)) 200 now
  reply_response runner_id intervals (leases_renewed renewed) =
      signed c edge_key (dumps (renewed_told renewed)) 200 now
  reply_response runner_id intervals (is_started did_it) = ok_response did_it

  -- `claim`; none while it waits.
  unfoldable pub claim_response : ClaimReply → Option Response
  claim_response refused_claim = some denial
  claim_response (answered_claim (dispatched j)) =
      some (signed c edge_key (dumps (job_told j)) 200 now)
  claim_response (answered_claim no_content) = some (signed c edge_key [] 204 now)
  claim_response (answered_claim is_waiting) = none

  -- `result`, once its payload is read.
  unfoldable pub result_response : Option Bool → Response
  result_response none = denial
  result_response (some recorded) = ok_response recorded

-- `edge_identity`: the key that a test server may pin, and its fingerprint.
unfoldable pub edge_identity : (c : Crypto) → c.Key → Text × Text
edge_identity c edge_key = (public_b64 c edge_key, fingerprint c (public_b64 c edge_key))

-- ===== src/Client/Tests.antt =====
-- The calls of a test server at concrete inputs, with the toy scheme of the signatures.
use slack_runtests.Prelude.{
  Bool, Option, Text, Text-discrete, [], all_chars, arith, codes, false, if◌then◌else◌, is_empty,
  none, refl, some, ℕ, ℕ_discrete, ◌∷◌, ◌≡◌,
}
use slack_runtests.Client.{EdgeClient, check_reply, request_of, returned}
use slack_runtests.Strings.{join, strip}
use slack_runtests.Python.{Bytes, age, encode, ok, parse_int}
use slack_runtests.Decimal.{show}
use slack_runtests.Base64.{b64decode, b64encode}
use slack_runtests.Identity.{Crypto, fingerprint, public_b64, sign_reply, unb64, verify_reply}
use slack_runtests.Identity.Tests.{toy, toy_laws}
use slack_runtests.Store.Runners.{RunnerRow, runner, touch}
use slack_runtests.Edge.{authenticate, valid_runner_id}
use slack_runtests.Edge.Replies.{Response, signed}
use slack_runtests.Client.Calls.{claim_call, enroll_call}
use slack_runtests.Client.Laws.{authenticate-request_of, check_reply-signed}
use slack_runtests.Client.Pinning.{IsVerified, claim_call-IsVerified, enroll_call_keyless}

abbrev plain : ℕ → Bool
plain d = false

abbrev client : EdgeClient toy
client = record {
  runner_id = codes "runner-1";
  key = 7;
  edge_public_key = public_b64 toy 9;
  pinned_fingerprint = codes "00ff";
}

abbrev row : RunnerRow
row = record {
  runner_id = codes "runner-1";
  public_key = public_b64 toy 7;
  labels = [];
  enrolled_at = 0;
  last_seen = 0;
}

abbrev beat : Text
beat = codes "/runner/heartbeat"

authenticate-request_of_sample :
    authenticate toy plain (request_of toy client beat (codes "{}") 100000000) 101000000 (row ∷ [])
    ≡ ok (some (touch (codes "runner-1") 101000000 (row ∷ []), row))
unfolding runner Text-discrete
authenticate-request_of_sample =
    authenticate-request_of toy toy_laws plain client beat (codes "{}") 100000000 101000000
      (row ∷ []) row (unfold valid_runner_id all_chars ℕ_discrete in refl) refl refl (omega arith)
      (omega arith) (omega arith)

check_reply-signed_sample :
    check_reply toy client (signed toy 9 (codes "{}") 200 100000000) 101000000 ≡ returned tt
check_reply-signed_sample =
    check_reply-signed toy toy_laws client 9 (codes "{}") 200 100000000 101000000 refl (omega arith)
      (omega arith) (omega arith)

-- JSON, for the tests: a body is the key that it names.
abbrev named_key : Bytes → Option Text
named_key body = if is_empty body then none else some body

abbrev new_client : Text → EdgeClient toy
new_client pin = record {
  runner_id = codes "runner-1";
  key = 7;
  edge_public_key = [];
  pinned_fingerprint = pin;
}

abbrev unsigned : Bytes → Response
unsigned body = record { status = 200; headers = λ name. none; content = body }

enroll_call_keyless_sample :
    (client' : EdgeClient toy) × (enroll_call toy Text named_key
        (λ key. ok [])
        (new_client [])
        (some (unsigned (codes "{}")))
        5
      ≡ (client', returned (codes "{}")))
    × ((later : Response) (now' : ℕ) → check_reply toy client' later now' ≡ returned tt)
enroll_call_keyless_sample =
    enroll_call_keyless toy Text named_key (λ key. ok []) (new_client []) (unsigned (codes "{}"))
      (codes "{}") 5 refl refl refl refl

-- A digest that tells an empty key from others.
abbrev telling : Crypto
telling = record {
  Key = ℕ;
  public_bytes = toy.public_bytes;
  signature = toy.signature;
  verifies = toy.verifies;
  sha256_hex = λ m. if is_empty m then codes "e3b0" else codes "00ff";
}

abbrev fresh : EdgeClient telling
fresh = record {
  runner_id = codes "runner-1";
  key = 7;
  edge_public_key = [];
  pinned_fingerprint = codes "00ff";
}

abbrev edge_key_text : Text
edge_key_text = public_b64 telling 9

abbrev enrolled : EdgeClient telling
enrolled = record fresh { edge_public_key = edge_key_text }

abbrev reply : Response
reply = signed telling 9 edge_key_text 200 100000000

fresh-enrolled :
    enroll_call telling Text named_key (λ key. ok key) fresh (some reply) 101000000
    ≡ (enrolled, returned edge_key_text)
unfolding enroll_call check_reply signed verify_reply fingerprint show parse_int age public_b64
    b64encode b64decode sign_reply encode join ℕ_discrete Text-discrete
fresh-enrolled = refl

claimed :
    claim_call telling Text named_key (λ key. ok key) enrolled (some reply) 101000000
    ≡ returned (some edge_key_text)
unfolding claim_call check_reply signed verify_reply fingerprint show parse_int age public_b64
    b64encode b64decode sign_reply encode join ℕ_discrete Text-discrete
claimed = refl

empty_differs : ¬ (fingerprint telling [] ≡ codes "00ff")
unfolding fingerprint unb64 b64decode strip ℕ_discrete
empty_differs e = let differs : codes "e3b0" ≡ codes "00ff" = e in cc

claim_call-IsVerified_example :
    (response : Response) × (some reply ≡ some response)
    × (fingerprint telling edge_key_text ≡ codes "00ff")
    × IsVerified telling enrolled response 101000000
claim_call-IsVerified_example =
    claim_call-IsVerified telling Text named_key (λ key. ok key) fresh enrolled (some reply)
      (some reply) 101000000 101000000 edge_key_text (some edge_key_text) refl empty_differs
      fresh-enrolled claimed

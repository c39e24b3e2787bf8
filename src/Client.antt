-- ===== src/Client.antt =====
-- test-server/test_server/client.py: the calls of a test server to the edge. What httpx brings back
-- is an argument, and so is what `response.json()` reads of a body.
pub mod Calls
pub mod Denied
pub mod Laws
pub mod Pinning
pub mod Protocol
pub mod Served
mod ProtocolTests
mod Tests
use slack_runtests.Identity.{max_age_seconds, sign, Crypto, verify_reply}
use slack_runtests.Prelude.{
  Option, Text, [], codes, false, if◌then◌else◌, inl, inr, is_empty, none, or_default, refl, some,
  true, ℕ, ◌==◌, ◌≡◌, ◌⊎◌, nat_eq, option_eq, int_eq, text_eq,
}
use slack_runtests.Python.{Bytes, Exn, ok, raised}
use slack_runtests.Edge.{Request}
use slack_runtests.Edge.Replies.{Response, time_stamp}

-- Why a call raises an EdgeError.
pub data Refusal : Type 0 where
  unreachable not_signed refused_runner wrong_fingerprint : Refusal
  http_status : ℕ → Refusal

-- How a call ends: with a value, with an EdgeError, or with another exception.
pub data Called (A : Type 0) : Type 0 where
  returned : A → Called A
  edge_error : Refusal → Called A
  failed_with : Exn → Called A

infixl 5 ◌>>=◌
abbrev pub ◌>>=◌ : {A B : Type 0} → Called A → (A → Called B) → Called B
returned a >>= f = f a
edge_error r >>= f = edge_error r
failed_with x >>= f = failed_with x

-- `httpx.post`: an answer, or an httpx.HTTPError.
abbrev pub Answer : Type 0
Answer = Option Response

module _ (c : Crypto) where
  pub record EdgeClient : Type 0 where
    pub runner_id : Text
    pub key : c.Key
    pub edge_public_key : Text
    pub pinned_fingerprint : Text

  -- `_send`: the request that is posted; `body` is the JSON text of the payload.
  unfoldable pub request_of : EdgeClient → Text → Bytes → ℕ → Request
  request_of client path body now =
      let ts = time_stamp now in
      record {
        method = codes "POST";
        path = path;
        headers = λ name.
            if name == codes "X-Runner-Id"
            then some client.runner_id
            else if name == codes "X-Runner-Timestamp"
            then some ts
            else if name == codes "X-Runner-Signature"
            then some (sign c client.key (codes "POST") path ts body)
            else none;
        body = body;
      }

  -- `_send`: what comes of the answer.
  abbrev pub sent : Answer → Called Response
  sent none = edge_error unreachable
  sent (some response) = returned response

  -- `_verify_reply`
  unfoldable pub check_reply : EdgeClient → Response → ℕ → Called (Unit {0})
  check_reply client response now =
      if is_empty client.edge_public_key
      then returned tt
      else elim (verify_reply c client.edge_public_key
          (or_default (response.headers (codes "X-Edge-Timestamp")) [])
          (or_default (response.headers (codes "X-Edge-Signature")) []) response.content now
          max_age_seconds) [
            | ok true ↦ returned tt
            | ok false ↦ edge_error not_signed
            | raised x ↦ failed_with x
          ]

  -- A status other than 200.
  abbrev pub expect_200 : Response → Called (Unit {0})
  expect_200 response =
      if response.status == 200 then returned tt else edge_error (http_status response.status)

pub Called-cases :
    {A : Type 0} (x : Called A)
    → ((a : A) × (x ≡ returned a))
      ⊎ ((r : Refusal) × (x ≡ edge_error r))
      ⊎ ((e : Exn) × (x ≡ failed_with e))
Called-cases (returned a) = inl (a, refl)
Called-cases (edge_error r) = inr (inl (r, refl))
Called-cases (failed_with e) = inr (inr (e, refl))

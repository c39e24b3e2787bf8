-- ===== src/Edge/Replies.antt =====
-- `signed` of edge/edge_server/app.py: how the edge signs a reply.
-- A reply: the status, the headers and the body.
use slack_runtests.Prelude.{
  Option, Text, codes, if◌then◌else◌, none, some, ℕ, ◌/◌, ◌==◌, text_eq, nat_eq, int_eq, option_eq,
}
use slack_runtests.Python.{Bytes}
use slack_runtests.Decimal.{show}
use slack_runtests.Identity.{Crypto, sign_reply}
use slack_runtests.Store.Rows.{state_eq}

pub record Response : Type 0 where
  pub status : ℕ
  pub headers : Text → Option Text
  pub content : Bytes

-- `str(int(time.time()))`, for a time in microseconds.
abbrev pub time_stamp : ℕ → Text
time_stamp now = show (now / 1000000)

module _ (c : Crypto) where
  -- `signed`, where `body` is the JSON text of the payload, or empty if there is none.
  unfoldable pub signed : c.Key → Bytes → ℕ → ℕ → Response
  signed edge_key body status now = record {
    status = status;
    headers = λ name.
        if name == codes "X-Edge-Timestamp"
        then some (time_stamp now)
        else if name == codes "X-Edge-Signature"
        then some (sign_reply c edge_key (time_stamp now) body)
        else none;
    content = body;
  }

-- ===== src/Notifier/Transport.antt =====
-- `_call` of src/slack_runtests/slack.py: what comes of a request to Slack, and of a post over it.
use slack_runtests.Prelude.{
  Bool, Bool-cases, List, Option, Text, codes, false, if◌then◌else◌, inl, inr, is_empty, none, not,
  or_default, refl, some, ◌++◌, ◌≡◌,
}
use slack_runtests.Notifier.{Event, SentMessage, SlackNotifier, is_enabled, post}
use slack_runtests.Python.{Result, attribute_error, ok, os_error, raised, value_error, ◌>>=◌}

-- What `urlopen` and `json.loads` bring: an error that `_call` catches, with its text; a connection that
-- breaks while the answer is read, bytes that are no UTF-8, a JSON value that is no object, and an object with `ok`, `ts` and `error`.
pub data Fetched : Type 0 where
  caught : Text → Fetched
  broken undecodable no_object : Fetched
  fetched_body : Bool → Option Text → Option Text → Fetched

-- What `_call` returns, as far as it is read, and what it logs.
pub record SlackAnswer : Type 0 where
  pub ts : Option Text
  pub logged : Option Text

unfoldable pub call : Text → Fetched → Result SlackAnswer
call method (caught why) =
    ok (record {
      ts = none;
      logged = some (codes "Slack " ++ (method ++ (codes " failed: " ++ why)));
    })
call method broken = raised os_error
call method undecodable = raised value_error
call method no_object = raised attribute_error
call method (fetched_body is_ok ts error) = ok (record {
  ts = ts;
  logged =
      if is_ok
      then none
      else some
          (codes "Slack " ++ (method ++ (codes " rejected: " ++ or_default error (codes "None"))));
})

-- `post`, with what the request brings; without a token there is none.
unfoldable pub post_over :
    Fetched → Text → SlackNotifier → Result (SlackNotifier × SentMessage × List Event)
unfolding call post
post_over fetched text n =
    if not (is_enabled n)
    then ok (post none text n)
    else do answer ← call (codes "chat.postMessage") fetched; ok (post answer.ts text n)

-- Slack may be down, or refuse: a post returns all the same, and the message to edit later is the one
-- before, if there was one.
post_over-caught :
    (why text : Text) (n : SlackNotifier) (ts : Text)
    → n.ts ≡ some ts
    → is_empty ts ≡ false
    → (r : SlackNotifier × SentMessage × List Event) × (post_over (caught why) text n ≡ ok r)
      × (r.0.ts ≡ some ts)
unfolding post_over post
post_over-caught why text n ts before full = elim (Bool-cases (is_enabled n)) [
  | inl there ↦ (post none text n, rw (there, post_over) refl, rw (there, before) (rw full refl))
  | inr missing ↦
      (post none text n, rw (missing, post_over) refl, rw (missing, before) (rw full refl))
]

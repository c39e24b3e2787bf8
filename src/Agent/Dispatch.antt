-- ===== src/Agent/Dispatch.antt =====
-- `Job.as_dispatch` of edge/edge_server/store.py, and what a test server makes of a job that came
-- through the parser of the edge.
use slack_runtests.Prelude.{
  Bool-cases, Option, Text, [], arith, codes, false, inl, inr, is_empty, none, or_default, refl,
  some, true, ◌≡◌,
}
use slack_runtests.Agent.{check_field, validate}
use slack_runtests.Python.{Bytes, ok}
use slack_runtests.Forms.{Form}
use slack_runtests.Parsing.{Args, expression_matches, is_bad, parse, parsed}
use slack_runtests.Parsing.Laws.{parse-IsAllowed}
use slack_runtests.Store.Rows.{Job}
use slack_runtests.Store.{job}
use slack_runtests.Edge.Slack.{SlackConfig, job_for, trigger_of}
use slack_runtests.Reporter.{Payload, shown_of, text}

-- `Job.as_dispatch`, without the name of the user, which a test server does not read.
unfoldable pub as_dispatch : Job → Payload
as_dispatch job = record {
  job_id = some (text job.id);
  product = some (text job.product);
  server = some (text job.server);
  select = some (text (or_default job.select_expr []));
  marker = some (text (or_default job.marker []));
  slack_channel = some (text job.slack_channel);
}

check_field-allowed :
    (field : Text) (o : Option Text)
    → is_bad o ≡ false
    → check_field field (some (text (or_default o []))) ≡ ok none
unfolding check_field
check_field-allowed field none h = refl
check_field-allowed field (some v) h =
    let fits : expression_matches v ≡ true = ground (arith, h) in
    elim (Bool-cases (is_empty v)) [ inl empty ↦ rw empty refl | inr full ↦ rw (full, fits) refl ]

module _ (hmac_hex : Bytes → Bytes → Text) (uuid12 : Text → Text) where
  -- The job that the edge queues for a command that its parser accepted passes the test of the test
  -- server, and it names all that the messages show.
  pub dispatched-IsAccepted :
      (cfg : SlackConfig) (form : Form) (words : Text) (a : Args)
      → parse words ≡ ok (parsed a)
      → let job = job_for hmac_hex uuid12 cfg form a in
        (validate (as_dispatch job) ≡ ok none)
        × (shown_of (as_dispatch job)
            ≡ ok (record {
              product = a.product;
              server = a.server;
              job_id = uuid12 (trigger_of form);
            }))
  unfolding validate job_for as_dispatch shown_of
  dispatched-IsAccepted cfg form words a h =
      let allowed = parse-IsAllowed words a h in
      (
        rw
            (
              allowed.product,
              allowed.server,
              check_field-allowed (codes "select") a.select allowed.select,
              check_field-allowed (codes "marker") a.marker allowed.marker,
            )
            refl,
        refl,
      )

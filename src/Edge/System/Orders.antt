-- ===== src/Edge/System/Orders.antt =====
-- Both doors of the edge: the queue is that of a history of store calls, and every job in it was
-- ordered.
use slack_runtests.Gate
use slack_runtests.Prelude.{
  Bool-cases, Option-cases, [], ap, codes, inl, inr, some, subst, sym, true, ℕ, ◌<◌, ◌==◌, ◌∙◌, ◌≡◌,
  text_eq, int_eq, option_eq, nat_eq,
}
use slack_runtests.Edge.{State}
use slack_runtests.Edge.System.{
  IsOrdered, Reach, Setting, Step, asks, begins, commands, enrols, heartbeats, here, next, reports,
}
use slack_runtests.Python.{Bytes, Result-cases, is_ascii, ok}
use slack_runtests.Forms.{Form, parse_form}
use slack_runtests.Parsing.{Args, parse, parsed}
use slack_runtests.Gate.{Headers, check}
use slack_runtests.Gate.Laws.{check_accepts, text_of}
use slack_runtests.Store.{job, last_for}
use slack_runtests.Store.History.{enqueues, step}
use slack_runtests.Store.Jobs.{AllJobs, run-AllJobs}
use slack_runtests.Store.Consistent.{IsWellFormed, run-IsWellFormed}
use slack_runtests.Edge.Slack.{commanded, job_for, or_row, slack_commands, trigger_of}
use slack_runtests.Edge.System.Handlers.{
  IsHistory, Keeps, append-IsHistory, claim_request-Keeps, enroll-Keeps, heartbeat-Keeps,
  one-IsHistory, result-Keeps, same-IsHistory, started-Keeps,
}

args-injective : {a b : Args} → some a ≡ some b → a ≡ b
args-injective e = cc

module _ (g : Setting) where
  module _ (hex : (k m : Bytes) → is_ascii (g.hmac_hex k m) ≡ true) (body : Bytes)
      (headers : Headers) (now : ℕ) (s : State) where
    commanded-IsHistory :
        (form : Form) (a : Args)
        → IsOrdered g (job_for g.hmac_hex g.uuid12 g.slack form a)
        → IsHistory g s.jobs (commanded g.hmac_hex g.uuid12 g.slack form a now s).0.jobs
    unfolding commanded step
    commanded-IsHistory form a ordered = elim (Bool-cases (a.action == codes "results")) [
      | inr run_it ↦ rw run_it (
          one-IsHistory g s.jobs (enqueues (job_for g.hmac_hex g.uuid12 g.slack form a) now)
            ordered)
      | inl asked ↦
          elim (Option-cases
            (or_row (job (g.uuid12 (trigger_of form)) s.jobs) (last_for a.product s.jobs))) [
              | inl nothing ↦ rw (asked, nothing) (same-IsHistory g s.jobs)
              | inr (row, found) ↦ rw (asked, found) (same-IsHistory g s.jobs)
            ]
    ]

    accepted-IsOrdered :
        (out : Gate.Outcome) (a : Args)
        → check g.hmac_hex body headers g.slack.settings now ≡ ok out
        → out.is_ok ≡ true
        → out.args ≡ some a
        → IsOrdered g (job_for g.hmac_hex g.uuid12 g.slack out.form a)
    accepted-IsOrdered out a e fine given =
        let (signed, accepted) =
          check_accepts g.hmac_hex hex body headers g.slack.settings now out e fine in
        let (entitled, given_args) = accepted in
        let (b, understood, same) = given_args in
        let same_args : b ≡ a = args-injective (sym (ap (λ o. o.args) same) ∙ given) in
        record {
          body = body;
          headers = headers;
          now = now;
          args = a;
          is_signed = signed;
          entitled = entitled;
          understood =
              subst (λ x. parse (text_of (parse_form body)) ≡ ok (parsed x)) same_args understood;
          job = ap (λ o. job_for g.hmac_hex g.uuid12 g.slack o.form a) same;
        }

    slack_commands-Keeps : Keeps g s (slack_commands g.hmac_hex g.uuid12 g.slack body headers now s)
    unfolding slack_commands
    slack_commands-Keeps =
        elim (Result-cases (check g.hmac_hex body headers g.slack.settings now)) [
          | inr (x, raises) ↦ rw raises tt
          | inl (out, e) ↦ elim (Bool-cases out.is_ok) [
            | inr refusal ↦ rw (e, refusal) (same-IsHistory g s.jobs)
            | inl fine ↦ elim (Option-cases out.args) [
              | inl nothing ↦ rw (e, fine, nothing) tt
              | inr (a, given) ↦
                  rw (e, fine, given)
                    (commanded-IsHistory out.form a (accepted-IsOrdered out a e fine given))
            ]
          ]
        ]

  module _ (hex : (k m : Bytes) → is_ascii (g.hmac_hex k m) ≡ true) where
    Step-IsHistory : {s t : State} → Step g s t → IsHistory g s.jobs t.jobs
    Step-IsHistory {s} (commands body headers now e) =
        subst (Keeps g s) e (slack_commands-Keeps hex body headers now s)
    Step-IsHistory {s} (enrols r e now f) = subst (Keeps g s) f (enroll-Keeps g r e now s)
    Step-IsHistory {s} (heartbeats r now e) = subst (Keeps g s) e (heartbeat-Keeps g r now s)
    Step-IsHistory {s} (asks r now monotonic rounds fit e) =
        subst (Keeps g s) e (claim_request-Keeps g r now monotonic rounds s fit)
    Step-IsHistory {s} (begins job_id r now e) =
        subst (Keeps g s) e (started-Keeps g job_id r now s)
    Step-IsHistory {s} (reports job_id o r now e) =
        subst (Keeps g s) e (result-Keeps g job_id o r now s)

    -- Whatever requests come in at both doors, in any order, the queue is afterwards what some
    -- history of store calls makes of it, and each job that these calls enqueue was ordered: by a
    -- request that is signed if a secret is set, from an allowed workspace, channel and person,
    -- with a text that the parser takes. What others queue while a long poll waits was ordered too,
    -- and the HMAC is written in ASCII.
    pub Reach-IsHistory : {s t : State} → Reach g s t → IsHistory g s.jobs t.jobs
    Reach-IsHistory {s} here = same-IsHistory g s.jobs
    Reach-IsHistory {s} (next {t} {u} path e) =
        append-IsHistory g s.jobs t.jobs u.jobs (Reach-IsHistory path) (Step-IsHistory e)

    -- If the cap on attempts is positive, the queue of an edge that started with an empty table is
    -- well-formed after any requests at both doors, and every job in it was ordered. What others
    -- queue while a long poll waits was ordered too, and the HMAC is written in ASCII.
    pub Reach-IsWellFormed :
        {s t : State}
        → Reach g s t
        → 0 < g.max_attempts
        → s.jobs ≡ []
        → IsWellFormed g.max_attempts t.jobs × AllJobs (IsOrdered g) t.jobs
    Reach-IsWellFormed {s} {t} path capped empty =
        let (ops, fit, e) = Reach-IsHistory path in
        rw (e, empty)
          (
            run-IsWellFormed g.edge.lease_seconds g.max_attempts [] ops capped
                (record { distinct = tt; consistent = tt }),
            run-AllJobs (IsOrdered g) g.edge.lease_seconds g.max_attempts [] ops fit tt,
          )

-- ===== src/Edge/Idempotent.antt =====
-- The Slack door: a retry of a command changes nothing.
use slack_runtests.Prelude.{
  List, Text, ap, codes, false, refl, ℕ, ◌==◌, ◌≡◌, nat_eq, text_eq, int_eq, option_eq,
}
use slack_runtests.Edge.{State}
use slack_runtests.Python.{Bytes}
use slack_runtests.Forms.{Form}
use slack_runtests.Parsing.{Args}
use slack_runtests.Store.History.{Op, run}
use slack_runtests.Store.Final.{enqueue_again}
use slack_runtests.Edge.Slack.{SlackConfig, already_queued, commanded, job_for, trigger_of}
use slack_runtests.Store.Rows.{state_eq}

module _ (hmac_hex : Bytes → Bytes → Text) (uuid12 : Text → Text) (cfg : SlackConfig) where
  -- A command that queues a job is queued once: a later command with the same trigger, after any
  -- history of calls on the queue, changes nothing and is answered that the run is queued already.
  pub slack_retry :
      (form form' : Form) (a a' : Args) (now later : ℕ) (s : State) (lease_seconds max_attempts : ℕ)
      (ops : List Op)
      → (a.action == codes "results") ≡ false
      → (a'.action == codes "results") ≡ false
      → trigger_of form' ≡ trigger_of form
      → let jobs' =
          run lease_seconds max_attempts (commanded hmac_hex uuid12 cfg form a now s).0.jobs ops in
        commanded hmac_hex uuid12 cfg form' a' later (record s { jobs = jobs' })
        ≡ (record s { jobs = jobs' }, already_queued (uuid12 (trigger_of form')))
  unfolding commanded job_for
  slack_retry form form' a a' now later s lease_seconds max_attempts ops h h' same =
      let again =
        enqueue_again lease_seconds max_attempts (job_for hmac_hex uuid12 cfg form a)
          (job_for hmac_hex uuid12 cfg form' a') now later s.jobs ops (ap uuid12 same) in
      rw (h, h', again) refl

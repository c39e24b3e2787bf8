-- ===== src/Store/Heartbeats.antt =====
-- A test server that keeps sending heartbeats keeps its job.
use slack_runtests.Prelude.{
  All, List, Option, Text, [], ap, arith, inl, inr, refl, some, ℕ, ◌++◌, ◌+◌, ◌∙◌, ◌∷◌, ◌≡◌,
}
use slack_runtests.Store.Rows.{Job, JobRow}
use slack_runtests.Store.{Rows, claim, handed_to, is_held_by, is_queued, job, reap, renew}
use slack_runtests.Store.Updates.{Distinct}
use slack_runtests.Store.History.{Op, renews, run, step}
use slack_runtests.Store.Claiming.{claim_cases}
use slack_runtests.Store.Leases.{IsForeign, IsHeld, job-update, run-holds}

-- A claim gives the test server the job, under a full lease.
pub claim-IsHeld :
    (runner_id : Text) (labels : List Text) (lease_seconds max_attempts now : ℕ) (rows : Rows)
    (j : Job)
    → Distinct rows
    → (claim runner_id labels lease_seconds max_attempts now rows).1 ≡ some j
    → (r : JobRow) × (job j.id (claim runner_id labels lease_seconds max_attempts now rows).0
        ≡ some r)
      × (r.job ≡ j)
      × IsHeld runner_id (now + lease_seconds) r
claim-IsHeld runner_id labels lease_seconds max_attempts now rows j d out =
    elim (claim_cases runner_id labels lease_seconds max_attempts now rows d) [
      | inl (result, _) ↦ cc (ap (λ (x : Rows × Option Job). x.1) result)
      | inr (c, result, o) ↦
          let same : c.job ≡ j = ground (arith, ap (λ (x : Rows × Option Job). x.1) result) in
          let now_at =
            job-update c.id (is_queued c.id) (handed_to runner_id (now + lease_seconds))
              (reap max_attempts now rows) c (λ s. refl) o.found in
          (
            handed_to runner_id (now + lease_seconds) c,
            rw result (ground (arith, now_at, same, o.waits)),
            same,
            record { holder = refl; active = refl; leased = refl },
          )
    ]

-- A heartbeat gives a full lease on a job that the test server holds, also when its lease has run
-- out and nobody has noticed.
renew-IsHeld :
    (k runner_id : Text) (lease_seconds lease now : ℕ) (rows : Rows) (r : JobRow)
    → IsHeld runner_id lease r
    → job k rows ≡ some r
    → (r' : JobRow) × (job k (renew runner_id lease_seconds now rows).0 ≡ some r')
      × IsHeld runner_id (now + lease_seconds) r'
      × (r'.attempts ≡ r.attempts)
unfolding renew
renew-IsHeld k runner_id lease_seconds lease now rows r h e =
    let r' : JobRow = record r { lease_expires = some (now + lease_seconds) } in
    (
      r',
      job-update k (is_held_by runner_id)
            (λ s. record s { lease_expires = some (now + lease_seconds) }) rows r (λ s. refl) e
          ∙ ground (arith, h.holder, h.active),
      record { holder = h.holder; active = h.active; leased = refl },
      refl,
    )

-- Rounds of calls by others, each ended by a heartbeat of the test server.
abbrev pub beats : Text → List (List Op × ℕ) → List Op
beats runner_id [] = []
beats runner_id ((ops, now) ∷ rounds) = ops ++ renews runner_id now ∷ beats runner_id rounds

-- Every call of a round comes while the lease of the last heartbeat runs.
abbrev pub IsTimely : Text → ℕ → ℕ → List (List Op × ℕ) → Type 0
IsTimely runner_id lease_seconds last [] = Unit {0}
IsTimely runner_id lease_seconds last ((ops, now) ∷ rounds) =
    All (IsForeign runner_id (last + lease_seconds)) ops
    × IsTimely runner_id lease_seconds now rounds

pub run-append :
    (lease_seconds max_attempts : ℕ) (rows : Rows) (xs ys : List Op)
    → run lease_seconds max_attempts rows (xs ++ ys)
      ≡ run lease_seconds max_attempts (run lease_seconds max_attempts rows xs) ys
unfolding run
run-append lease_seconds max_attempts rows [] ys = refl
run-append lease_seconds max_attempts rows (x ∷ xs) ys =
    run-append lease_seconds max_attempts (step lease_seconds max_attempts rows x) xs ys

-- If in each round the calls of others come before the lease of the last heartbeat runs out, then
-- however many rounds there are, the test server still holds its job at the end, and no attempt
-- was added.
pub beats-IsHeld :
    (lease_seconds max_attempts last : ℕ) (k runner_id : Text) (rows : Rows)
    (rounds : List (List Op × ℕ)) (r : JobRow)
    → IsTimely runner_id lease_seconds last rounds
    → IsHeld runner_id (last + lease_seconds) r
    → job k rows ≡ some r
    → (r' : JobRow) × (lease : ℕ) × (job k
          (run lease_seconds max_attempts rows (beats runner_id rounds))
        ≡ some r')
      × IsHeld runner_id lease r'
      × (r'.attempts ≡ r.attempts)
unfolding run step
beats-IsHeld lease_seconds max_attempts last k runner_id rows [] r timely h e =
    (r, last + lease_seconds, e, h, refl)
beats-IsHeld lease_seconds max_attempts last k runner_id rows ((ops, now) ∷ rounds) r timely h e =
    let rows' = run lease_seconds max_attempts rows ops in
    let kept =
      run-holds k runner_id (last + lease_seconds) r h lease_seconds max_attempts rows ops timely.0
        e in
    let (r', e', h', a') =
      renew-IsHeld k runner_id lease_seconds (last + lease_seconds) now rows' r h kept in
    let (s, lease, found, held, a) =
      beats-IsHeld lease_seconds max_attempts now k runner_id
        (renew runner_id lease_seconds now rows').0 rounds r' timely.1 h' e' in
    (
      s,
      lease,
      rw
          (run-append lease_seconds max_attempts rows ops
            (renews runner_id now ∷ beats runner_id rounds))
          found,
      held,
      a ∙ a',
    )

-- ===== src/Store/Claiming.antt =====
-- What `claim` hands out: the oldest queued job that the test server may take, and nothing else.
use slack_runtests.Prelude.{
  All, All-imp, All-imp_both, Bool-cases, List, Text, [], any, arith, count_if, false, false≢true,
  inl, inr, keep_if, leb→le, none, refl, some, sym, true, ℕ, ℕ_discrete, ◌+◌, ◌==◌, ◌∙◌, ◌∷◌, ◌≡◌,
  ◌≤◌, ◌⊎◌, text_eq, option_eq, nat_eq, int_eq,
}
use slack_runtests.Store.Rows.{JobRow, queued, update_where, state_eq}
use slack_runtests.Store.{
  Rows, claim, claim_loop, handed_to, has_id, is_queued, is_skipped, job, oldest_first, order_by,
  reap, wanted_of,
}
use slack_runtests.Store.Updates.{Distinct, count_if-found, job-cons}
use slack_runtests.Store.Consistent.{reap-Distinct}
use slack_runtests.Store.Order.{
  All-keep_if, All-order_by, IsSorted, keep_if-All, keep_if-passes, oldest_first-IsOrder,
  order_by-All, order_by-IsSorted,
}

not_any-All :
    (k : Text) (rows : Rows) → any (has_id k) rows ≡ false → All (λ r. has_id k r ≡ false) rows
not_any-All k [] h = tt
not_any-All k (r ∷ rows) h = (ground arith, not_any-All k rows (ground arith))

-- With distinct ids the id of a row finds that row.
pub Distinct-found : (rows : Rows) → Distinct rows → All (λ r. job r.id rows ≡ some r) rows
Distinct-found [] d = tt
Distinct-found (x ∷ xs) d = (
  ground (arith, job-cons x.id x xs),
  All-imp_both (λ r. has_id x.id r ≡ false) (λ r. job r.id xs ≡ some r)
      (λ r. job r.id (x ∷ xs) ≡ some r) (λ r other e. ground (arith, job-cons r.id x xs)) xs
      (not_any-All x.id xs d.0) (Distinct-found xs d.1),
)

-- The rows after a claim of the row `c`.
abbrev pub handed : Text → ℕ → JobRow → Rows → Rows
handed runner_id lease c = update_where (is_queued c.id) (handed_to runner_id lease)

-- Nothing was handed out, and all candidates are jobs for other test servers.
abbrev pub NoneFor : List Text → Rows → Type 0
NoneFor wanted = All (λ r. r.state ≡ queued → is_skipped wanted r ≡ true)

-- The row `c` may be handed out, and no such row is older.
pub record IsOldest (wanted : List Text) (rows : Rows) (c : JobRow) : Type 0 where
  pub found : job c.id rows ≡ some c
  pub waits : c.state ≡ queued
  pub fits : is_skipped wanted c ≡ false
  pub oldest :
      All (λ r. r.state ≡ queued → is_skipped wanted r ≡ false → c.created_at ≤ r.created_at) rows

-- A candidate of the loop.
abbrev Waits : Rows → JobRow → Type 0
Waits rows c = (job c.id rows ≡ some c) × (c.state ≡ queued)

module _ (runner_id : Text) (wanted : List Text) (lease : ℕ) (rows : Rows) (d : Distinct rows) where
  one-queued : (c : JobRow) → Waits rows c → count_if (is_queued c.id) rows ≡ 1
  one-queued c (e, q) = count_if-found c.id (λ r. r.state == queued) rows d ∙ rw e (ground arith)

  claim_loop_cases :
      (cands : Rows)
      → IsSorted oldest_first cands
      → All (Waits rows) cands
      → ((claim_loop runner_id wanted lease cands rows ≡ (rows, none))
          × All (λ r. is_skipped wanted r ≡ true) cands)
        ⊎ ((c : JobRow) × (claim_loop runner_id wanted lease cands rows
              ≡ (handed runner_id lease c rows, some c.job))
            × Waits rows c
            × (is_skipped wanted c ≡ false)
            × All (λ r. is_skipped wanted r ≡ false → c.created_at ≤ r.created_at) cands)
  unfolding claim_loop ℕ_discrete
  claim_loop_cases [] s w = inl (refl, tt)
  claim_loop_cases (c ∷ cands) s w = elim (Bool-cases (is_skipped wanted c)) [
    | inl skip ↦ elim (claim_loop_cases cands s.1 w.1) [
      | inl (e, none_fits) ↦ inl (rw skip e, (skip, none_fits))
      | inr (r, e, waits, fits, old) ↦
          inr (r, rw skip e, waits, fits, ((λ k. absurd (false≢true (sym k ∙ skip))), old))
    ]
    | inr fits ↦ inr (
      c,
      rw (fits, one-queued c w.0),
      w.0,
      fits,
      (
        (λ _. omega arith),
        All-imp (λ r. oldest_first c r ≡ true)
            (λ r. is_skipped wanted r ≡ false → c.created_at ≤ r.created_at)
            (λ r h _. leb→le c.created_at r.created_at h) cands s.0,
      ),
    )
  ]

abbrev candidates : Rows → Rows
candidates rows = order_by oldest_first (keep_if (λ r. r.state == queued) rows)

candidates-Waits : (rows : Rows) → Distinct rows → All (Waits rows) (candidates rows)
candidates-Waits rows d =
    order_by-All (Waits rows) oldest_first (keep_if (λ r. r.state == queued) rows) (
      All-imp_both (λ r. job r.id rows ≡ some r) (λ r. (r.state == queued) ≡ true) (Waits rows)
        (λ r e q. (e, ground arith)) (keep_if (λ r. r.state == queued) rows)
        (keep_if-All _ (λ r. r.state == queued) rows (Distinct-found rows d))
        (keep_if-passes (λ r. r.state == queued) rows))

-- What holds of the candidates holds of the queued rows.
All-candidates :
    (P : JobRow → Type 0) (rows : Rows)
    → All P (candidates rows)
    → All (λ r. r.state ≡ queued → P r) rows
All-candidates P rows h =
    All-imp (λ r. (r.state == queued) ≡ true → P r) (λ r. r.state ≡ queued → P r)
      (λ r f q. f (ground arith)) rows
      (All-keep_if P (λ r. r.state == queued) rows
        (All-order_by P oldest_first (keep_if (λ r. r.state == queued) rows) h))

-- With distinct ids, a claim first reaps. Then either it hands out nothing, changes nothing more,
-- and every queued job is one that this test server may not take; or it hands out the job of the
-- oldest queued row that this test server may take, and changes that row alone.
pub claim_cases :
    (runner_id : Text) (labels : List Text) (lease_seconds max_attempts now : ℕ) (rows : Rows)
    → Distinct rows
    → let reaped = reap max_attempts now rows in
      let result = claim runner_id labels lease_seconds max_attempts now rows in
      ((result ≡ (reaped, none)) × NoneFor (wanted_of labels) reaped)
      ⊎ ((c : JobRow) × (result ≡ (handed runner_id (now + lease_seconds) c reaped, some c.job))
          × IsOldest (wanted_of labels) reaped c)
unfolding claim
claim_cases runner_id labels lease_seconds max_attempts now rows distinct =
    let reaped = reap max_attempts now rows in
    let d = reap-Distinct max_attempts now rows distinct in
    elim (claim_loop_cases runner_id (wanted_of labels) (now + lease_seconds) reaped d
      (candidates reaped)
      (order_by-IsSorted oldest_first oldest_first-IsOrder
        (keep_if (λ r. r.state == queued) reaped))
      (candidates-Waits reaped d)) [
        | inl (e, none_fits) ↦ inl (e, All-candidates _ reaped none_fits)
        | inr (c, e, waits, fits, old) ↦ inr (
          c,
          e,
          record {
            found = waits.0;
            waits = waits.1;
            fits = fits;
            oldest = All-candidates _ reaped old;
          },
        )
      ]

-- ===== src/Store/Queries.antt =====
-- The reading methods: `counts`, `recent`, `last_for`.
use mathlib.Core.List.{Perm}
use mathlib.Core.List.Perm
use slack_runtests.Prelude.{
  All, All-imp, All-take, Bool, Bool-cases, List, Text, [], arith, count_if, if◌then◌else◌, inl,
  inr, keep_if, leb→le, length, length-take-le, none, refl, some, suc, take, true, zero, ℕ, ◌++◌,
  ◌+◌, ◌==◌, ◌∷◌, ◌≡◌, ◌≢◌, ◌≤◌, ◌⊎◌, option_eq, nat_eq, int_eq, text_eq,
}
use slack_runtests.Store.Rows.{
  JobRow, JobState, JobState-discrete, abandoned, claimed, done, failed, queued, running, state_eq,
}
use slack_runtests.Store.{
  Rows, count_state, counts, first, insert_by, job, last_for, newest_first, order_by, recent,
}
use slack_runtests.Store.Updates.{Distinct}
use slack_runtests.Store.Order.{
  All-keep_if, All-order_by, IsSorted, keep_if-All, keep_if-passes, newest_first-IsOrder,
  order_by-All, order_by-IsSorted,
}
use slack_runtests.Store.Claiming.{Distinct-found}

-- What `counts` says of a state; an absent state stands for none.
abbrev pub count_of : JobState → List (JobState × ℕ) → ℕ
count_of s [] = 0
count_of s ((t, n) ∷ cs) = if t == s then n + count_of s cs else count_of s cs

count_of-append :
    (s : JobState) (xs ys : List (JobState × ℕ))
    → count_of s (xs ++ ys) ≡ count_of s xs + count_of s ys
count_of-append s [] ys = omega arith
count_of-append s ((t, n) ∷ xs) ys = ground (arith, count_of-append s xs ys)

count_of-count_state :
    (rows : Rows) (s t : JobState)
    → count_of s (count_state rows t) ≡ (if t == s then count_if (λ r. r.state == t) rows else 0)
unfolding count_state
count_of-count_state rows s t = ground arith

count_of-counts_parts :
    (rows : Rows) (s : JobState)
    → count_of s (counts rows)
      ≡ count_of s (count_state rows queued)
        + count_of s (count_state rows claimed)
        + count_of s (count_state rows running)
        + count_of s (count_state rows done)
        + count_of s (count_state rows failed)
        + count_of s (count_state rows abandoned)
unfolding counts
count_of-counts_parts rows s = simp count_of-append (omega arith)

-- `counts` gives for each state the number of its rows.
pub count_of-counts :
    (rows : Rows) (s : JobState) → count_of s (counts rows) ≡ count_if (λ r. r.state == s) rows
unfolding JobState-discrete
count_of-counts rows queued = simp (count_of-counts_parts, count_of-count_state) (omega arith)
count_of-counts rows s = simp (count_of-counts_parts, count_of-count_state) (omega arith)

-- The rows beyond `LIMIT`.
abbrev pub beyond : ℕ → Rows → Rows
beyond zero rows = rows
beyond (suc n) [] = []
beyond (suc n) (r ∷ rows) = beyond n rows

take-append-beyond : (n : ℕ) (rows : Rows) → take n rows ++ beyond n rows ≡ rows
take-append-beyond zero rows = refl
take-append-beyond (suc n) [] = refl
take-append-beyond (suc n) (r ∷ rows) = rw (take-append-beyond n rows)

All-beyond : (P : JobRow → Type 0) (n : ℕ) (rows : Rows) → All P rows → All P (beyond n rows)
All-beyond P zero rows h = h
All-beyond P (suc n) [] h = tt
All-beyond P (suc n) (r ∷ rows) h = All-beyond P n rows h.1

take-IsSorted :
    (before : JobRow → JobRow → Bool) (n : ℕ) (rows : Rows)
    → IsSorted before rows
    → IsSorted before (take n rows)
take-IsSorted before zero rows h = tt
take-IsSorted before (suc n) [] h = tt
take-IsSorted before (suc n) (r ∷ rows) h = (All-take _ n rows h.0, take-IsSorted before n rows h.1)

take-before-beyond :
    (before : JobRow → JobRow → Bool) (n : ℕ) (rows : Rows)
    → IsSorted before rows
    → All (λ r. All (λ s. before r s ≡ true) (beyond n rows)) (take n rows)
take-before-beyond before zero rows h = tt
take-before-beyond before (suc n) [] h = tt
take-before-beyond before (suc n) (r ∷ rows) h =
    (All-beyond _ n rows h.0, take-before-beyond before n rows h.1)

insert_by-perm :
    (before : JobRow → JobRow → Bool) (r : JobRow) (rows : Rows)
    → Perm (r ∷ rows) (insert_by before r rows)
unfolding insert_by
insert_by-perm before r [] = Perm.refl _
insert_by-perm before r (s ∷ rows) = elim (Bool-cases (before r s)) [
  | inl le ↦ rw le (Perm.refl _)
  | inr gt ↦ rw gt (Perm.trans (Perm.swap s r rows) (Perm.cons s (insert_by-perm before r rows)))
]

order_by-perm : (before : JobRow → JobRow → Bool) (rows : Rows) → Perm rows (order_by before rows)
unfolding order_by
order_by-perm before [] = Perm.refl _
order_by-perm before (r ∷ rows) =
    Perm.trans (Perm.cons r (order_by-perm before rows))
      (insert_by-perm before r (order_by before rows))

-- What `recent` shows and the rows that it leaves out are together the rows of the table, no more
-- than `limit` are shown, the newest first, and none that is left out is newer than one shown.
pub recent_newest :
    (limit : ℕ) (rows : Rows)
    → (rest : Rows) × Perm rows (recent limit rows ++ rest)
      × (length (recent limit rows) ≤ limit)
      × IsSorted newest_first (recent limit rows)
      × All (λ r. All (λ s. s.created_at ≤ r.created_at) rest) (recent limit rows)
unfolding recent
recent_newest limit rows =
    let sorted = order_by newest_first rows in
    let in_order = order_by-IsSorted newest_first newest_first-IsOrder rows in
    (
      beyond limit sorted,
      rw (take-append-beyond limit sorted) (order_by-perm newest_first rows),
      length-take-le limit sorted,
      take-IsSorted newest_first limit sorted in_order,
      All-imp (λ r. All (λ s. newest_first r s ≡ true) (beyond limit sorted))
          (λ r. All (λ s. s.created_at ≤ r.created_at) (beyond limit sorted))
          (λ r h.
            All-imp (λ s. newest_first r s ≡ true) (λ s. s.created_at ≤ r.created_at)
              (λ s le. leb→le s.created_at r.created_at le) (beyond limit sorted) h)
          (take limit sorted) (take-before-beyond newest_first limit sorted in_order),
    )

-- The newest row of a product, as a row that its own id finds.
pub record IsNewest (product : Text) (rows : Rows) (r : JobRow) : Type 0 where
  pub found : job r.id rows ≡ some r
  pub of_product : r.product ≡ product
  pub newest : All (λ s. s.product ≡ product → s.created_at ≤ r.created_at) rows

module _ (product : Text) (rows : Rows) (d : Distinct rows) where
  abbrev of_product : Rows
  of_product = keep_if (λ r. r.product == product) rows

  first_cases :
      (sorted : Rows)
      → IsSorted newest_first sorted
      → All (λ r. job r.id rows ≡ some r) sorted
      → All (λ r. (r.product == product) ≡ true) sorted
      → ((first (take 1 sorted) ≡ none) × All (λ s. ⊥) sorted)
        ⊎ ((r : JobRow) × (first (take 1 sorted) ≡ some r)
            × (job r.id rows ≡ some r)
            × (r.product ≡ product)
            × All (λ s. s.created_at ≤ r.created_at) sorted)
  first_cases [] s f p = inl (refl, tt)
  first_cases (r ∷ sorted) s f p = inr (
    r,
    refl,
    f.0,
    ground (arith, p.0),
    (
      omega arith,
      All-imp (λ t. newest_first r t ≡ true) (λ t. t.created_at ≤ r.created_at)
          (λ t le. leb→le t.created_at r.created_at le) sorted s.0,
    ),
  )

  from_sorted :
      (P : JobRow → Type 0)
      → All P (order_by newest_first of_product)
      → All (λ s. s.product ≡ product → P s) rows
  from_sorted P h =
      All-imp (λ s. (s.product == product) ≡ true → P s) (λ s. s.product ≡ product → P s)
        (λ s f e. f (ground arith)) rows
        (All-keep_if P (λ s. s.product == product) rows (All-order_by P newest_first of_product h))

  -- With distinct ids, `last_for` finds nothing exactly if the product has no row, and otherwise a
  -- row of the product that no other row of the product is newer than.
  pub last_for-IsNewest :
      ((last_for product rows ≡ none) × All (λ s. s.product ≢ product) rows)
      ⊎ ((r : JobRow) × (last_for product rows ≡ some r) × IsNewest product rows r)
  unfolding last_for
  last_for-IsNewest =
      let sorted = order_by newest_first of_product in
      elim (first_cases sorted (order_by-IsSorted newest_first newest_first-IsOrder of_product)
        (order_by-All _ newest_first of_product
          (keep_if-All _ (λ r. r.product == product) rows (Distinct-found rows d)))
        (order_by-All _ newest_first of_product
          (keep_if-passes (λ r. r.product == product) rows))) [
            | inl (e, empty) ↦ inl (e, from_sorted (λ s. ⊥) empty)
            | inr (r, e, f, p, newest) ↦ inr (
              r,
              e,
              record {
                found = f;
                of_product = p;
                newest = from_sorted (λ s. s.created_at ≤ r.created_at) newest;
              },
            )
          ]

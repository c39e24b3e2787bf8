-- ===== src/Store/Order.antt =====
-- `ORDER BY` and `WHERE`: the rows come out sorted, and they are the same rows.
use slack_runtests.Prelude.{
  All, Bool, Bool-cases, [], arith, false, false≢true, inl, inr, keep_if, sym, true, ◌∙◌, ◌∷◌, ◌≡◌,
}
use slack_runtests.Store.Rows.{JobRow}
use slack_runtests.Store.{Rows, insert_by, newest_first, oldest_first, order_by}

-- A predicate holds of all rows before exactly if it holds after.
module _ (P : JobRow → Type 0) (before : JobRow → JobRow → Bool) where
  insert_by-All : (r : JobRow) (rows : Rows) → P r → All P rows → All P (insert_by before r rows)
  unfolding insert_by
  insert_by-All r [] p h = (p, tt)
  insert_by-All r (s ∷ rows) p h = elim (Bool-cases (before r s)) [
    | inl le ↦ rw le (p, h)
    | inr gt ↦ rw gt (h.0, insert_by-All r rows p h.1)
  ]

  All-insert_by : (r : JobRow) (rows : Rows) → All P (insert_by before r rows) → P r × All P rows
  unfolding insert_by
  All-insert_by r [] h = h
  All-insert_by r (s ∷ rows) h = elim (Bool-cases (before r s)) [
    | inl le ↦ rw le at h
    | inr gt ↦
        let h' : All P (s ∷ insert_by before r rows) = rw gt at h in
        let (p, rest) = All-insert_by r rows h'.1 in (p, (h'.0, rest))
  ]

  pub order_by-All : (rows : Rows) → All P rows → All P (order_by before rows)
  unfolding order_by
  order_by-All [] h = tt
  order_by-All (r ∷ rows) h = insert_by-All r (order_by before rows) h.0 (order_by-All rows h.1)

  pub All-order_by : (rows : Rows) → All P (order_by before rows) → All P rows
  unfolding order_by
  All-order_by [] h = tt
  All-order_by (r ∷ rows) h =
      let (p, rest) = All-insert_by r (order_by before rows) h in (p, All-order_by rows rest)

module _ (P : JobRow → Type 0) (p : JobRow → Bool) where
  pub keep_if-All : (rows : Rows) → All P rows → All P (keep_if p rows)
  keep_if-All [] h = tt
  keep_if-All (r ∷ rows) h = elim (Bool-cases (p r)) [
    | inl hit ↦ rw hit (h.0, keep_if-All rows h.1)
    | inr miss ↦ rw miss (keep_if-All rows h.1)
  ]

  pub All-keep_if : (rows : Rows) → All P (keep_if p rows) → All (λ r. p r ≡ true → P r) rows
  All-keep_if [] h = tt
  All-keep_if (r ∷ rows) h = elim (Bool-cases (p r)) [
    | inl hit ↦
        let h' : All P (r ∷ keep_if p rows) = rw hit at h in ((λ _. h'.0), All-keep_if rows h'.1)
    | inr miss ↦
        let h' : All P (keep_if p rows) = rw miss at h in
        ((λ hit. absurd (false≢true (sym miss ∙ hit))), All-keep_if rows h')
  ]

pub keep_if-passes : (p : JobRow → Bool) (rows : Rows) → All (λ r. p r ≡ true) (keep_if p rows)
keep_if-passes p [] = tt
keep_if-passes p (r ∷ rows) = elim (Bool-cases (p r)) [
  | inl hit ↦ rw hit (hit, keep_if-passes p rows)
  | inr miss ↦ rw miss (keep_if-passes p rows)
]

-- Each row stands before all that follow it.
abbrev pub IsSorted : (JobRow → JobRow → Bool) → Rows → Type 0
IsSorted before [] = Unit {0}
IsSorted before (r ∷ rows) = All (λ s. before r s ≡ true) rows × IsSorted before rows

-- A comparison that is total and transitive.
pub record IsOrder (before : JobRow → JobRow → Bool) : Type 0 where
  pub total : (r s : JobRow) → before r s ≡ false → before s r ≡ true
  pub trans : (r s t : JobRow) → before r s ≡ true → before s t ≡ true → before r t ≡ true

pub oldest_first-IsOrder : IsOrder oldest_first
oldest_first-IsOrder = record { total = λ r s h. ground arith; trans = λ r s t h k. ground arith }

pub newest_first-IsOrder : IsOrder newest_first
newest_first-IsOrder = record { total = λ r s h. ground arith; trans = λ r s t h k. ground arith }

module _ (before : JobRow → JobRow → Bool) (o : IsOrder before) where
  All-trans :
      (r s : JobRow) (rows : Rows)
      → before r s ≡ true
      → All (λ t. before s t ≡ true) rows
      → All (λ t. before r t ≡ true) rows
  All-trans r s [] h k = tt
  All-trans r s (t ∷ rows) h k = (o.trans r s t h k.0, All-trans r s rows h k.1)

  insert_by-IsSorted :
      (r : JobRow) (rows : Rows) → IsSorted before rows → IsSorted before (insert_by before r rows)
  unfolding insert_by
  insert_by-IsSorted r [] h = (tt, tt)
  insert_by-IsSorted r (s ∷ rows) h = elim (Bool-cases (before r s)) [
    | inl le ↦ rw le ((le, All-trans r s rows le h.0), h)
    | inr gt ↦ rw gt (
      insert_by-All (λ t. before s t ≡ true) before r rows (o.total r s gt) h.0,
      insert_by-IsSorted r rows h.1,
    )
  ]

  pub order_by-IsSorted : (rows : Rows) → IsSorted before (order_by before rows)
  unfolding order_by
  order_by-IsSorted [] = tt
  order_by-IsSorted (r ∷ rows) =
      insert_by-IsSorted r (order_by before rows) (order_by-IsSorted rows)

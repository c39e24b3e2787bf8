-- ===== src/Store/Found.antt =====
-- What `job` and `last_for` find has every property that all rows have.
use slack_runtests.Store.Order.{order_by-All, keep_if-All}
use slack_runtests.Prelude.{
  All, All-take, Text, [], some, subst, ◌==◌, ◌∷◌, ◌≡◌, text_eq, nat_eq, int_eq, option_eq,
}
use slack_runtests.Store.{Rows, first, has_id, job, last_for, newest_first}
use slack_runtests.Store.Rows.{JobRow}

row-injective : {a b : JobRow} → some a ≡ some b → a ≡ b
row-injective e = cc

module _ (P : JobRow → Type 0) where
  first-All : (rows : Rows) (r : JobRow) → All P rows → first rows ≡ some r → P r
  first-All [] r h e = cc
  first-All (x ∷ rows) r h e = subst P (row-injective e) h.0

  pub job-All : (k : Text) (rows : Rows) (r : JobRow) → All P rows → job k rows ≡ some r → P r
  unfolding job
  job-All k rows r h e = first-All _ r (keep_if-All P (has_id k) rows h) e

  pub last_for-All :
      (product : Text) (rows : Rows) (r : JobRow)
      → All P rows
      → last_for product rows ≡ some r
      → P r
  unfolding last_for
  last_for-All product rows r h e =
      first-All _ r
        (All-take P 1 _
          (order_by-All P newest_first _ (keep_if-All P (λ s. s.product == product) rows h)))
        e

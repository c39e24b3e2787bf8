-- ===== src/Store/Updates.antt =====
-- How the statements on the table `jobs` act on the row that an id finds, and on the ids.
use slack_runtests.Prelude.{
  Bool, Option, Option-cases, Text, [], any, arith, count_if, false, if◌then◌else◌, inl, inr,
  is_some, map, none, refl, some, true, ℕ, ◌&&◌, ◌++◌, ◌==◌, ◌||◌, ◌∙◌, ◌∷◌, ◌≡◌, int_eq, nat_eq,
  text_eq,
}
use slack_runtests.Store.Rows.{Job, JobRow, state_eq}
use slack_runtests.Store.{Rows, enqueue, has_id, job, new_row}

-- The row that `SELECT * FROM jobs WHERE id=?` finds, row by row.
pub job-cons :
    (k : Text) (r : JobRow) (rows : Rows)
    → job k (r ∷ rows) ≡ (if has_id k r then some r else job k rows)
unfolding job
job-cons k r rows = ground arith

pub job-nil : (k : Text) → job k [] ≡ none
unfolding job
job-nil k = refl

abbrev pub over : (JobRow → JobRow) → Option JobRow → Option JobRow
over f none = none
over f (some r) = some (f r)

-- A rewrite of every row that keeps its id rewrites the row that is found.
pub job-map :
    (g : JobRow → JobRow) (k : Text) (rows : Rows)
    → ((r : JobRow) → (g r).id ≡ r.id)
    → job k (map g rows) ≡ over g (job k rows)
job-map g k [] same = rw (job-nil k)
job-map g k (r ∷ rows) same =
    rw (job-cons k r rows, job-cons k (g r) (map g rows))
      (ground (arith, job-map g k rows same, same r))

pub job-append :
    (k : Text) (xs ys : Rows)
    → job k (xs ++ ys) ≡ elim (job k xs) [ none ↦ job k ys | some r ↦ some r ]
job-append k [] ys = rw (job-nil k)
job-append k (x ∷ xs) ys =
    rw (job-cons k x (xs ++ ys), job-cons k x xs) (ground (arith, job-append k xs ys))

-- The id of the row that is found.
pub job-has_id : (k : Text) (rows : Rows) (r : JobRow) → job k rows ≡ some r → r.id ≡ k
job-has_id k [] r e = cc (job-nil k)
job-has_id k (x ∷ rows) r e = ground (arith, job-cons k x rows, job-has_id k rows r)

-- Nothing is found exactly if no row has the id.
pub job-none_iff : (k : Text) (rows : Rows) → any (has_id k) rows ≡ is_some (job k rows)
job-none_iff k [] = rw (job-nil k)
job-none_iff k (x ∷ rows) = ground (arith, job-cons k x rows, job-none_iff k rows)

-- The primary key: no two rows have one id.
abbrev pub Distinct : Rows → Type 0
Distinct [] = Unit {0}
Distinct (r ∷ rows) = (any (has_id r.id) rows ≡ false) × Distinct rows

any-map :
    (g : JobRow → JobRow) (k : Text) (rows : Rows)
    → ((r : JobRow) → (g r).id ≡ r.id)
    → any (has_id k) (map g rows) ≡ any (has_id k) rows
any-map g k [] same = refl
any-map g k (r ∷ rows) same = ground (arith, any-map g k rows same, same r)

pub Distinct-map :
    (g : JobRow → JobRow) (rows : Rows)
    → ((r : JobRow) → (g r).id ≡ r.id)
    → Distinct rows
    → Distinct (map g rows)
Distinct-map g [] same d = tt
Distinct-map g (r ∷ rows) same d =
    (rw (same r) (any-map g r.id rows same ∙ d.0), Distinct-map g rows same d.1)

any-snoc :
    (k : Text) (x : JobRow) (rows : Rows)
    → any (has_id k) (rows ++ x ∷ []) ≡ (any (has_id k) rows || x.id == k)
any-snoc k x [] = ground arith
any-snoc k x (r ∷ rows) = ground (arith, any-snoc k x rows)

pub Distinct-snoc :
    (x : JobRow) (rows : Rows)
    → any (has_id x.id) rows ≡ false
    → Distinct rows
    → Distinct (rows ++ x ∷ [])
Distinct-snoc x [] h d = (refl, tt)
Distinct-snoc x (r ∷ rows) h d =
    (ground (arith, any-snoc r.id x rows), Distinct-snoc x rows (ground arith) d.1)

-- With distinct ids a WHERE clause on an id changes the row found, or none.
pub count_if-found :
    (k : Text) (p : JobRow → Bool) (rows : Rows)
    → Distinct rows
    → count_if (λ r. has_id k r && p r) rows
      ≡ elim (job k rows) [ none ↦ 0 | some r ↦ if p r then 1 else 0 ]
count_if-found k p [] d = rw (job-nil k)
count_if-found k p (r ∷ rows) d =
    ground (arith, job-cons k r rows, count_if-found k p rows d.1, job-none_iff k rows)

pub enqueue_old :
    (j : Job) (now : ℕ) (rows : Rows) (r : JobRow)
    → job j.id rows ≡ some r
    → enqueue j now rows ≡ (rows, false)
unfolding enqueue
enqueue_old j now rows r e = rw (job-none_iff j.id rows, e)

pub enqueue_new :
    (j : Job) (now : ℕ) (rows : Rows)
    → job j.id rows ≡ none
    → enqueue j now rows ≡ (rows ++ new_row j now ∷ [], true)
unfolding enqueue
enqueue_new j now rows e = rw (job-none_iff j.id rows, e)

-- After `enqueue` the id finds the row that was there, or else the new row.
pub job-enqueue :
    (j : Job) (now : ℕ) (rows : Rows)
    → job j.id (enqueue j now rows).0
      ≡ elim (job j.id rows) [ none ↦ some (new_row j now) | some r ↦ some r ]
job-enqueue j now rows = elim (Option-cases (job j.id rows)) [
  | inl new ↦
      rw (enqueue_new j now rows new, job-append j.id rows (new_row j now ∷ []), new)
        (job-cons j.id (new_row j now) [] ∙ found)
  | inr (r, old) ↦ rw (enqueue_old j now rows r old, old)
]
  where
    found :
        (if has_id j.id (new_row j now) then some (new_row j now) else job j.id [])
        ≡ some (new_row j now)
    found = unfold new_row in ground arith

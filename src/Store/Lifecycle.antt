-- ===== src/Store/Lifecycle.antt =====
-- The life of one job as a relation on its row, and the relation lifted to the table.
use slack_runtests.Prelude.{
  All, Bool, Bool-cases, Text, [], arith, inl, inr, refl, some, subst, true, ℕ, ◌++◌, ◌<◌, ◌∙◌, ◌∷◌,
  ◌≡◌, ◌≤◌,
}
use slack_runtests.Store.Rows.{
  Job, JobRow, Outcome, claimed, is_active, queued, running, update_where,
}
use slack_runtests.Store.{Rows, finished, given_up, handed_to, has_id, job, new_row, requeued}
use slack_runtests.Store.Updates.{job-cons, job-nil}

-- One legal change of a row. A job moves from `queued` to `claimed`, from there perhaps to
-- `running`, and ends once: settled by its result, or abandoned. A lease that runs out leads back
-- to `queued` while attempts are left.
pub data Move (max_attempts : ℕ) (r : JobRow) : JobRow → Type 0 where
  hand :
      (runner_id : Text) (lease : ℕ)
      → r.state ≡ queued
      → Move max_attempts r (handed_to runner_id lease r)
  start :
      (now : ℕ)
      → r.state ≡ claimed
      → Move max_attempts r (record r { state = running; started_at = some now })
  settle :
      (o : Outcome) (now : ℕ) → is_active r.state ≡ true → Move max_attempts r (finished o now r)
  extend :
      (lease : ℕ)
      → is_active r.state ≡ true
      → Move max_attempts r (record r { lease_expires = some lease })
  requeue : is_active r.state ≡ true → r.attempts < max_attempts → Move max_attempts r (requeued r)
  abandon : is_active r.state ≡ true → max_attempts ≤ r.attempts → Move max_attempts r (given_up r)

pub data Moves (max_attempts : ℕ) (r : JobRow) : JobRow → Type 0 where
  stay : Moves max_attempts r r
  then_move :
      {s t : JobRow} → Moves max_attempts r s → Move max_attempts s t → Moves max_attempts r t

pub Moves-trans :
    {max_attempts : ℕ} {r s t : JobRow}
    → Moves max_attempts r s
    → Moves max_attempts s t
    → Moves max_attempts r t
Moves-trans p stay = p
Moves-trans p (then_move q m) = then_move (Moves-trans p q) m

-- The rows of a table have moved on, in place, and rows that began as new ones follow them.
abbrev pub Evolves : ℕ → Rows → Rows → Type 0
Evolves max_attempts [] ys =
    All (λ y. (j : Job) × (now : ℕ) × Moves max_attempts (new_row j now) y) ys
Evolves max_attempts (x ∷ xs) [] = ⊥
Evolves max_attempts (x ∷ xs) (y ∷ ys) = Moves max_attempts x y × Evolves max_attempts xs ys

pub Evolves-refl : (max_attempts : ℕ) (rows : Rows) → Evolves max_attempts rows rows
Evolves-refl max_attempts [] = tt
Evolves-refl max_attempts (r ∷ rows) = (stay, Evolves-refl max_attempts rows)

-- New rows evolve too.
New-Evolves :
    (max_attempts : ℕ) (ys zs : Rows)
    → Evolves max_attempts [] ys
    → Evolves max_attempts ys zs
    → Evolves max_attempts [] zs
New-Evolves max_attempts [] zs h k = k
New-Evolves max_attempts (y ∷ ys) [] h k = absurd k
New-Evolves max_attempts (y ∷ ys) (z ∷ zs) h k =
    let ((j, now, m), rest) = h in
    ((j, now, Moves-trans m k.0), New-Evolves max_attempts ys zs rest k.1)

pub Evolves-trans :
    (max_attempts : ℕ) (xs ys zs : Rows)
    → Evolves max_attempts xs ys
    → Evolves max_attempts ys zs
    → Evolves max_attempts xs zs
Evolves-trans max_attempts [] ys zs h k = New-Evolves max_attempts ys zs h k
Evolves-trans max_attempts (x ∷ xs) [] zs h k = absurd h
Evolves-trans max_attempts (x ∷ xs) (y ∷ ys) [] h k = absurd k
Evolves-trans max_attempts (x ∷ xs) (y ∷ ys) (z ∷ zs) h k =
    (Moves-trans h.0 k.0, Evolves-trans max_attempts xs ys zs h.1 k.1)

-- An UPDATE whose WHERE clause implies the guard of a move.
pub update-Evolves :
    (max_attempts : ℕ) (p : JobRow → Bool) (f : JobRow → JobRow)
    → ((r : JobRow) → p r ≡ true → Move max_attempts r (f r))
    → (rows : Rows) → Evolves max_attempts rows (update_where p f rows)
update-Evolves max_attempts p f legal [] = tt
update-Evolves max_attempts p f legal (r ∷ rows) = (
  elim (Bool-cases (p r)) [
    | inl hit ↦ rw hit (then_move stay (legal r hit))
    | inr miss ↦ rw miss stay
  ],
  update-Evolves max_attempts p f legal rows,
)

pub snoc-Evolves :
    (max_attempts : ℕ) (j : Job) (now : ℕ) (rows : Rows)
    → Evolves max_attempts rows (rows ++ new_row j now ∷ [])
snoc-Evolves max_attempts j now [] = ((j, now, stay), tt)
snoc-Evolves max_attempts j now (r ∷ rows) = (stay, snoc-Evolves max_attempts j now rows)

Move-has_id : {max_attempts : ℕ} {r s : JobRow} → Move max_attempts r s → s.job ≡ r.job
Move-has_id (hand _ _ _) = refl
Move-has_id (start _ _) = refl
Move-has_id (settle _ _ _) = refl
Move-has_id (extend _ _) = refl
Move-has_id (requeue _ _) = refl
Move-has_id (abandon _ _) = refl

-- What was asked for, and its id, never change.
pub Moves-job : {max_attempts : ℕ} {r s : JobRow} → Moves max_attempts r s → s.job ≡ r.job
Moves-job stay = refl
Moves-job (then_move p m) = Move-has_id m ∙ Moves-job p

-- A row that is found is found again, moved on.
pub job-Evolves :
    (max_attempts : ℕ) (k : Text) (rows rows' : Rows) (r : JobRow)
    → Evolves max_attempts rows rows'
    → job k rows ≡ some r
    → (r' : JobRow) × (job k rows' ≡ some r') × Moves max_attempts r r'
job-Evolves max_attempts k [] rows' r h e = cc (job-nil k)
job-Evolves max_attempts k (x ∷ xs) [] r h e = absurd h
job-Evolves max_attempts k (x ∷ xs) (y ∷ ys) r h e = elim (Bool-cases (has_id k x)) [
  | inl hit ↦ (
    y,
    ground (arith, job-cons k y ys, Moves-job h.0),
    subst (λ s. Moves max_attempts s y) (ground (arith, job-cons k x xs)) h.0,
  )
  | inr miss ↦
      let found = job-Evolves max_attempts k xs ys r h.1 (ground (arith, job-cons k x xs)) in
      (found.0, ground (arith, job-cons k y ys, Moves-job h.0, found.1), found.2)
]

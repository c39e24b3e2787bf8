-- ===== src/Store/Registry.antt =====
-- What the registry of test servers keeps: keys, enrolment times, labels, presence.
use slack_runtests.Prelude.{
  All, All-imp, List, Option, Option-cases, Text, [], any, ap, arith, false, if◌then◌else◌, inl,
  inr, is_empty, is_some, keep_if, map, none, not, refl, some, ℕ, ◌++◌, ◌==◌, ◌∙◌, ◌∷◌, ◌≡◌,
  text_eq, nat_eq, int_eq, option_eq,
}
use slack_runtests.Strings.{Lacks, join, sorted, sorted-All, split_on, split_on-join}
use slack_runtests.Store.Runners.{
  RunnerRow, RunnerRows, enrol, has_runner, labels_of, runner, touch,
}
use slack_runtests.Store.Rows.{state_eq}

pub runner-cons :
    (k : Text) (r : RunnerRow) (rows : RunnerRows)
    → runner k (r ∷ rows) ≡ (if has_runner k r then some r else runner k rows)
unfolding runner
runner-cons k r rows = ground arith

runner-nil : (k : Text) → runner k [] ≡ none
unfolding runner
runner-nil k = refl

-- The row of one id after a rewrite of its rows, and of the other ids.
runner-update :
    (k i : Text) (f : RunnerRow → RunnerRow) (rows : RunnerRows)
    → ((r : RunnerRow) → (f r).runner_id ≡ r.runner_id)
    → runner i (map (λ r. if has_runner k r then f r else r) rows)
      ≡ elim (runner i rows) [ none ↦ none | some r ↦ some (if k == i then f r else r) ]
runner-update k i f [] same = rw (runner-nil i)
runner-update k i f (r ∷ rows) same = ground (
  arith,
  runner-cons i r rows,
  runner-cons i (if has_runner k r then f r else r)
      (map (λ r. if has_runner k r then f r else r) rows),
  runner-update k i f rows same,
  same r,
)

runner-append :
    (k : Text) (xs ys : RunnerRows)
    → runner k (xs ++ ys) ≡ elim (runner k xs) [ none ↦ runner k ys | some r ↦ some r ]
runner-append k [] ys = rw (runner-nil k)
runner-append k (x ∷ xs) ys =
    rw (runner-cons k x (xs ++ ys), runner-cons k x xs) (ground (arith, runner-append k xs ys))

runner-none_iff : (k : Text) (rows : RunnerRows) → any (has_runner k) rows ≡ is_some (runner k rows)
runner-none_iff k [] = rw (runner-nil k)
runner-none_iff k (x ∷ rows) = ground (arith, runner-cons k x rows, runner-none_iff k rows)

runner-has_id :
    (k : Text) (rows : RunnerRows) (r : RunnerRow) → runner k rows ≡ some r → r.runner_id ≡ k
runner-has_id k [] r e = cc (runner-nil k)
runner-has_id k (x ∷ rows) r e = ground (arith, runner-cons k x rows, runner-has_id k rows r)

-- What `enrol` writes over a row that is there, or as a new row.
abbrev pub enrolled : Text → Text → List Text → ℕ → Option RunnerRow → RunnerRow
enrolled k public_key labels now none = record {
  runner_id = k;
  public_key = public_key;
  labels = join b',' (sorted labels);
  enrolled_at = now;
  last_seen = now;
}
enrolled k public_key labels now (some r) = record r {
  public_key = public_key;
  labels = join b',' (sorted labels);
  last_seen = now;
}

-- After an enrolment the id finds the new key and labels, seen now, with the time of the first
-- enrolment; every other id finds what it found before.
pub runner-enrol :
    (k i public_key : Text) (labels : List Text) (now : ℕ) (rows : RunnerRows)
    → runner i (enrol k public_key labels now rows)
      ≡ (if k == i then some (enrolled k public_key labels now (runner k rows)) else runner i rows)
runner-enrol k i public_key labels now rows = elim (Option-cases (runner k rows)) [
  | inl e ↦
      unfold enrol in
      rw
        (
          runner-none_iff k rows,
          e,
          runner-append i rows (enrolled k public_key labels now none ∷ []),
        )
        (ground (arith, e, runner-cons i (enrolled k public_key labels now none) [], runner-nil i))
  | inr (r, e) ↦
      unfold enrol in
      rw
        (
          runner-none_iff k rows,
          e,
          runner-update k i
              (λ s. record s {
                public_key = public_key;
                labels = join b',' (sorted labels);
                last_seen = now;
              })
              rows (λ s. refl),
        )
        (ground (arith, e, Option-cases (runner i rows)))
]

-- `touch` moves the time of the last contact of one test server alone, and adds none.
pub runner-touch :
    (k i : Text) (now : ℕ) (rows : RunnerRows)
    → runner i (touch k now rows) ≡ elim (runner i rows) [
      | none ↦ none
      | some r ↦ some (if k == i then record r { last_seen = now } else r)
    ]
unfolding touch
runner-touch k i now rows = runner-update k i (λ r. record r { last_seen = now }) rows (λ r. refl)

-- A label that the column `labels` can hold: not empty, and without the separator.
abbrev pub IsLabel : Text → Type 0
IsLabel x = (is_empty x ≡ false) × Lacks b',' x

keep_if-labels : (ts : List Text) → All IsLabel ts → keep_if (λ x. not (is_empty x)) ts ≡ ts
keep_if-labels [] h = refl
keep_if-labels (t ∷ ts) h = ground (arith, keep_if-labels ts h.1, h.0.0)

labels_of-join : (ts : List Text) → All IsLabel ts → labels_of (join b',' ts) ≡ ts
unfolding labels_of join
labels_of-join [] h = unfold split_on in refl
labels_of-join (t ∷ ts) h =
    ap (keep_if (λ x. not (is_empty x)))
      (split_on-join b',' t ts (All-imp IsLabel (Lacks b',') (λ x l. l.1) (t ∷ ts) h))
    ∙ keep_if-labels (t ∷ ts) h

-- Labels that are not empty and have no comma come back from the column as they were given, in
-- sorted order.
pub labels_of-enrol :
    (k public_key : Text) (labels : List Text) (now : ℕ) (rows : RunnerRows)
    → All IsLabel labels
    → (r : RunnerRow) × (runner k (enrol k public_key labels now rows) ≡ some r)
      × (labels_of r.labels ≡ sorted labels)
labels_of-enrol k public_key labels now rows h = (
  enrolled k public_key labels now (runner k rows),
  runner-enrol k k public_key labels now rows ∙ ground arith,
  ap labels_of (listed (runner k rows))
      ∙ labels_of-join (sorted labels) (sorted-All IsLabel labels h),
)
  where
    listed :
        (o : Option RunnerRow)
        → (enrolled k public_key labels now o).labels ≡ join b',' (sorted labels)
    listed none = refl
    listed (some r) = refl

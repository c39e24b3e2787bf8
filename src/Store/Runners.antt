-- ===== src/Store/Runners.antt =====
-- The registry of test servers in edge/edge_server/store.py: `enrol`, `runner`, `touch`,
-- `runners`, `online`. Times are microseconds.
use slack_runtests.Prelude.{
  Bool, List, Option, Text, [], any, false, if◌then◌else◌, is_empty, keep_if, leb, map, negsuc,
  none, not, pos, some, sub_ℕ, true, ℕ, ℤ, ◌++◌, ◌+◌, ◌==◌, ◌∷◌, text_eq, int_eq, option_eq, nat_eq,
}
use slack_runtests.Strings.{join, sorted, split_on, text_le}
use slack_runtests.Decimal.{round_tenths}
use slack_runtests.Store.Rows.{state_eq}

pub record RunnerRow : Type 0 where
  pub runner_id : Text
  pub public_key : Text
  pub labels : Text
  pub enrolled_at : ℕ
  pub last_seen : ℕ

abbrev pub RunnerRows : Type 0
RunnerRows = List RunnerRow

abbrev pub has_runner : Text → RunnerRow → Bool
has_runner k r = r.runner_id == k

abbrev pub first_runner : RunnerRows → Option RunnerRow
first_runner [] = none
first_runner (r ∷ rows) = some r

unfoldable pub runner : Text → RunnerRows → Option RunnerRow
runner k rows = first_runner (keep_if (has_runner k) rows)

-- `INSERT … ON CONFLICT(runner_id) DO UPDATE`: the time of enrolment stays.
unfoldable pub enrol : Text → Text → List Text → ℕ → RunnerRows → RunnerRows
enrol k public_key labels now rows =
    let listed = join b',' (sorted labels) in
    if any (has_runner k) rows
    then map
        (λ r.
          if has_runner k r
          then record r { public_key = public_key; labels = listed; last_seen = now }
          else r)
        rows
    else rows
      ++ record {
        runner_id = k;
        public_key = public_key;
        labels = listed;
        enrolled_at = now;
        last_seen = now;
      }
        ∷ []

unfoldable pub touch : Text → ℕ → RunnerRows → RunnerRows
touch k now = map (λ r. if has_runner k r then record r { last_seen = now } else r)

-- `[x for x in labels.split(",") if x]`
unfoldable pub labels_of : Text → List Text
labels_of labels = keep_if (λ x. not (is_empty x)) (split_on b',' labels)

-- `round(t, 1)` of a time in microseconds, in tenths of a second.
tenths : ℤ → ℤ
unfolding round_tenths
tenths (pos n) = pos (round_tenths n)
tenths (negsuc n) = sub_ℕ 0 (round_tenths (n + 1))

pub data Presence : Type 0 where
  is_online is_offline : Presence

pub record RunnerView : Type 0 where
  pub runner_id : Text
  pub labels : List Text
  pub enrolled_at : ℕ
  pub last_seen : ℕ
  pub tenths_since_seen : ℤ
  pub state : Presence

-- `(now - last_seen) <= offline_after`, on integers.
abbrev pub is_recent : ℕ → ℕ → ℕ → Bool
is_recent offline_after now last_seen = leb now (last_seen + offline_after)

pub view : ℕ → ℕ → RunnerRow → RunnerView
unfolding labels_of tenths
view offline_after now r = record {
  runner_id = r.runner_id;
  labels = labels_of r.labels;
  enrolled_at = r.enrolled_at;
  last_seen = r.last_seen;
  tenths_since_seen = tenths (sub_ℕ now r.last_seen);
  state = if is_recent offline_after now r.last_seen then is_online else is_offline;
}

insert_runner : RunnerRow → RunnerRows → RunnerRows
insert_runner r [] = r ∷ []
insert_runner r (s ∷ rows) =
    if text_le r.runner_id s.runner_id then r ∷ s ∷ rows else s ∷ insert_runner r rows

-- `ORDER BY runner_id`
order_runners : RunnerRows → RunnerRows
unfolding insert_runner
order_runners [] = []
order_runners (r ∷ rows) = insert_runner r (order_runners rows)

unfoldable pub runners : ℕ → ℕ → RunnerRows → List RunnerView
unfolding order_runners view
runners offline_after now rows = map (view offline_after now) (order_runners rows)

abbrev pub is_online_view : RunnerView → Bool
is_online_view v = elim v.state [ is_online ↦ true | is_offline ↦ false ]

unfoldable pub online : ℕ → ℕ → RunnerRows → List RunnerView
unfolding runners
online offline_after now rows = keep_if is_online_view (runners offline_after now rows)

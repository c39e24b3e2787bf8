-- ===== src/Store/Rows.antt =====
-- The tables of edge/edge_server/store.py: their rows, and the SQL statements on them.
use slack_runtests.Prelude.{
  Bool, Eq, List, Option, Text, false, if◌then◌else◌, ltb, map, none, some, true, ℕ, ℤ, ◌==◌,
  text_eq, nat_eq, int_eq,
}

pub data JobState : Type 0 where
  queued claimed running done failed abandoned : JobState

unfoldable pub JobState-discrete : Discrete JobState
JobState-discrete = hlevel

instance abbrev pub state_eq : Eq JobState
state_eq = record { discrete = JobState-discrete }

-- The dataclass `Job`: what is asked for, and by whom.
pub record Job : Type 0 where
  pub id : Text
  pub product : Text
  pub server : Text
  pub select_expr : Option Text
  pub marker : Option Text
  pub slack_channel : Text
  pub slack_user : Text

-- What a test server reports.
pub record Outcome : Type 0 where
  pub exit_code : ℤ
  pub passed : ℤ
  pub failed : ℤ
  pub skipped : ℤ
  pub duration : Option ℤ
  pub summary : Text

-- A row of the table `jobs`; a column that may be NULL is an option.
pub record JobRow : Type 0 where
  pub job : Job
  pub open job use *
  pub created_at : ℕ
  pub state : JobState
  pub runner_id : Option Text
  pub lease_expires : Option ℕ
  pub attempts : ℕ
  pub started_at : Option ℕ
  pub finished_at : Option ℕ
  pub exit_code : Option ℤ
  pub passed : Option ℤ
  pub failed : Option ℤ
  pub skipped : Option ℤ
  pub duration : Option ℤ
  pub summary : Option Text

-- `UPDATE jobs SET f WHERE p`, and its `rowcount`.
abbrev pub update_where : (JobRow → Bool) → (JobRow → JobRow) → List JobRow → List JobRow
update_where p f = map (λ r. if p r then f r else r)

-- A comparison with NULL is not true.
abbrev pub is_text : Option Text → Text → Bool
is_text none t = false
is_text (some s) t = s == t

-- `lease_expires IS NOT NULL AND lease_expires < now`
abbrev pub is_before : Option ℕ → ℕ → Bool
is_before none now = false
is_before (some t) now = ltb t now

-- `state IN ('claimed', 'running')`
abbrev pub is_active : JobState → Bool
is_active claimed = true
is_active running = true
is_active _ = false

-- ===== src/Agent.antt =====
-- test-server/test_server/agent.py: a test server checks a job again, runs it and reports it.
pub mod Junit
pub mod Execute
pub mod Loop
pub mod Start
pub mod Laws
pub mod Trust
pub mod Dispatch
pub mod Tally
pub mod Outcome
pub mod Backoff
pub mod Polling
pub mod Tests
mod LoopTests
use slack_runtests.Prelude.{
  Bool, List, Option, Text, [], codes, contains, if◌then◌else◌, is_empty, none, not, some, true,
  ◌&&◌, ◌++◌, ◌∷◌, text_eq, nat_eq, int_eq, option_eq,
}
use slack_runtests.Python.{Result, ok, raised, type_error, ◌>>=◌}
use slack_runtests.Parsing.{expression_matches, products, servers}
use slack_runtests.Local.{Machine, launcher}
use slack_runtests.Reporter.{Payload, Value, other, text}

-- `build_argv`
unfoldable pub build_argv : Machine → Text → Text → Text → Text → Text → Text → List Text
build_argv m product server select marker suite_root junit_path =
    launcher m
    ++ (suite_root ++ b'/' ∷ product) ∷ (codes "--server=" ++ server) ∷ []
    ++ (if is_empty select then [] else codes "-k" ∷ select ∷ [])
    ++ (if is_empty marker then [] else codes "-m" ∷ marker ∷ [])
    ++ codes "-q" ∷ (codes "--junit-xml=" ++ junit_path) ∷ []

-- Why a job is refused.
pub data Problem : Type 0 where
  wrong_product wrong_server : Option Value → Problem
  wrong_field : Text → Problem

-- `value not in allowed`: what is no text is equal to none of them.
abbrev pub is_unlisted : Option Value → List Text → Bool
is_unlisted none allowed = true
is_unlisted (some (text s)) allowed = not (contains allowed s)
is_unlisted (some (other s truth)) allowed = true

-- The test of an expression; `EXPRESSION.match` raises for what is no text.
unfoldable pub check_field : Text → Option Value → Result (Option Problem)
unfolding expression_matches
check_field field none = ok none
check_field field (some (text s)) =
    if not (is_empty s) && not (expression_matches s)
    then ok (some (wrong_field field))
    else ok none
check_field field (some (other s truth)) = if truth then raised type_error else ok none

-- `validate`
unfoldable pub validate : Payload → Result (Option Problem)
unfolding check_field
validate job =
    if is_unlisted job.product products
    then ok (some (wrong_product job.product))
    else if is_unlisted job.server servers
    then ok (some (wrong_server job.server))
    else do
      select ← check_field (codes "select") job.select
      elim select [
        | some problem ↦ ok (some problem)
        | none ↦ check_field (codes "marker") job.marker
      ]

-- ===== src/Github/Laws.antt =====
-- Dispatching to GitHub: what is sent, and what is said.
use slack_runtests.Prelude.{
  Bool, Option, Text, [], codes, false, is_empty, length, none, not, or_default, some, true, ℕ,
  ◌&&◌, ◌++◌, ◌∷◌, ◌≡◌, ◌≢◌, ◌≤◌, ◌⊎◌, text_eq, int_eq, nat_eq, option_eq,
}
use slack_runtests.Github.{
  Attempt, Order, Posting, answered_with, dispatch, dry_run_text, outcome_text, unreached,
}
use slack_runtests.Notifier.{SlackNotifier, emitted_by}
use slack_runtests.Forms.{get}

-- Both the repository and the token are set.
abbrev pub is_configured : Order → Bool
is_configured o = not (is_empty o.repo) && not (is_empty o.token)

-- The request is made with the token of the order, to its workflow, and each input has the value of
-- the order, empty where the order has none.
pub record IsFaithful (o : Order) (p : Posting) : Type 0 where
  pub bearer : p.bearer ≡ o.token
  pub branch : p.ref ≡ o.ref
  pub url :
      p.url
      ≡ codes "https://api.github.com/repos/"
        ++ o.repo
        ++ codes "/actions/workflows/"
        ++ o.workflow
        ++ codes "/dispatches"
  pub correlation_id : get (codes "correlation_id") p.inputs ≡ some o.correlation_id
  pub product : get (codes "product") p.inputs ≡ some o.product
  pub server : get (codes "server") p.inputs ≡ some o.server
  pub select : get (codes "select") p.inputs ≡ some (or_default o.select [])
  pub marker : get (codes "marker") p.inputs ≡ some (or_default o.marker [])
  pub slack_channel : get (codes "slack_channel") p.inputs ≡ some o.slack_channel
  pub slack_user : get (codes "slack_user") p.inputs ≡ some o.slack_user
  pub few : length p.inputs ≤ 10

-- What `dispatch` ends with: nothing is sent without a repository or a token; and a request was
-- accepted exactly if GitHub answered with 204.
abbrev pub IsReported : SlackNotifier → Option Text → Attempt → Order → Type 0
IsReported slack answer attempt o =
    let d = dispatch slack answer attempt o in
    ((is_configured o ≡ false)
      × (d.posting ≡ none)
      × (d.accepted ≡ false)
      × (d.events
          ≡ emitted_by slack (codes "post") (codes "chat.postMessage") none (dry_run_text o) ∷ []))
    ⊎ ((is_configured o ≡ true)
        × ((p : Posting) × (d.posting ≡ some p) × IsFaithful o p)
        × (((attempt ≡ answered_with 204) × (d.accepted ≡ true))
            ⊎ ((attempt ≢ answered_with 204) × (d.accepted ≡ false)))
        × (d.events
            ≡ emitted_by slack (codes "post") (codes "chat.postMessage") none
                (outcome_text o attempt)
              ∷ []))

abbrev status_of : Attempt → ℕ
status_of (unreached exc) = 0
status_of (answered_with status) = status

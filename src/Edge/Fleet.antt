-- ===== src/Edge/Fleet.antt =====
-- The operator's view of edge/edge_server/app.py, `fleet`: the tables, for who has the token.
use slack_runtests.Prelude.{
  Bool-cases, List, Text, [], arith, codes, drop, false, if◌then◌else◌, inl, inr, is_empty, length,
  or_default, refl, true, ℕ, ◌&&◌, ◌==◌, ◌≡◌, ◌⊎◌, nat_eq, option_eq, text_eq, int_eq,
}
use slack_runtests.Edge.{Request, State, identity_token_ok}
use slack_runtests.Strings.{starts_with, strip}
use slack_runtests.Python.{Result, compare_digest, is_ascii, ok, raised, type_error, ◌>>=◌}
use slack_runtests.Store.Rows.{JobState}
use slack_runtests.Store.{Rows, counts, recent}
use slack_runtests.Store.Runners.{RunnerView, runners}

-- `text.removeprefix(prefix)`
unfoldable pub remove_prefix : Text → Text → Text
unfolding starts_with
remove_prefix prefix s = if starts_with prefix s then drop (length prefix) s else s

-- What is answered: 404, or the test servers, the counts of the queue and its latest ten jobs.
pub data FleetReply : Type 0 where
  not_found : FleetReply
  fleet_of : List RunnerView → List (JobState × ℕ) → Rows → FleetReply

-- The token that a request presents.
unfoldable pub presented_token : Request → Text
unfolding remove_prefix strip
presented_token r =
    strip (remove_prefix (codes "Bearer ") (or_default (r.headers (codes "Authorization")) []))

-- What who has the token sees.
abbrev pub overview : ℕ → ℕ → State → FleetReply
overview offline_after now s =
    fleet_of (runners offline_after now s.runners) (counts s.jobs) (recent 10 s.jobs)

-- `fleet`
unfoldable pub fleet : Text → ℕ → Request → ℕ → State → Result FleetReply
unfolding presented_token
fleet admin_token offline_after r now s = if is_empty admin_token then ok not_found else do
  fine ← identity_token_ok (presented_token r) admin_token
  ok (if fine then overview offline_after now s else not_found)

token-cases :
    (a b : Text)
    → (identity_token_ok a b ≡ ok false)
      ⊎ ((identity_token_ok a b ≡ raised type_error) × ((is_ascii a && is_ascii b) ≡ false))
      ⊎ ((identity_token_ok a b ≡ ok true) × (a ≡ b))
unfolding compare_digest identity_token_ok
token-cases a b = elim (Bool-cases (is_empty a)) [
  | inl empty ↦ inl (rw (empty) refl)
  | inr full ↦ elim (Bool-cases (is_ascii a && is_ascii b)) [
    | inr other ↦ inr (inl (rw (full, other) refl, other))
    | inl ascii ↦ elim (Bool-cases (a == b)) [
      | inl same ↦ inr (inr (rw (full, ascii, same) refl, ground (arith, same)))
      | inr differs ↦ inl (rw (full, ascii, differs) refl)
    ]
  ]
]

-- The tables are shown only to who presents the token, and only if one is set; everyone else gets a
-- 404, unless the comparison raises because one of the two tokens is not ASCII.
pub fleet_cases :
    (admin_token : Text) (offline_after : ℕ) (r : Request) (now : ℕ) (s : State)
    → (fleet admin_token offline_after r now s ≡ ok not_found)
      ⊎ ((fleet admin_token offline_after r now s ≡ raised type_error)
          × ((is_ascii (presented_token r) && is_ascii admin_token) ≡ false))
      ⊎ ((fleet admin_token offline_after r now s ≡ ok (overview offline_after now s))
          × (is_empty admin_token ≡ false)
          × (presented_token r ≡ admin_token))
unfolding fleet
fleet_cases admin_token offline_after r now s = elim (Bool-cases (is_empty admin_token)) [
  | inl unset ↦ inl (rw unset refl)
  | inr set ↦ elim (token-cases (presented_token r) admin_token) [
    | inl denied ↦ inl (rw (set, denied) refl)
    | inr (inl (raises, other)) ↦ inr (inl (rw (set, raises) refl, other))
    | inr (inr (fine, same)) ↦ inr (inr (rw (set, fine) refl, set, same))
  ]
]

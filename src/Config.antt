-- ===== src/Config.antt =====
-- Two readers of the environment: `_csv` of edge/edge_server/config.py and of
-- src/slack_runtests/config.py, and `_default_runner_id` of test-server/test_server/config.py.
pub mod Laws
pub mod Load
mod Tests
use slack_runtests.Prelude.{
  Bool, Bool-cases, List, Option, Text, [], all_chars, arith, codes, false, if◌then◌else◌, inl, inr,
  is_empty, keep_if, length, length-take-le, ltb, map, none, not, or_default, or_else, refl, some,
  suc, take, true, zero, ℕ, ℕ_discrete, ◌==◌, ◌||◌, ◌∷◌, ◌≡◌, text_eq, int_eq, nat_eq, option_eq,
}
use slack_runtests.Strings.{is_alnum, split_on, strip}
use slack_runtests.Store.Queries.{beyond}
use slack_runtests.Edge.{valid_runner_id}
use slack_runtests.Store.Rows.{state_eq}

-- `_csv`, as the list of what the set has.
unfoldable pub csv : Option Text → Text → List Text
unfolding split_on strip
csv variable default =
    keep_if (λ part. not (is_empty part)) (map strip (split_on b',' (or_default variable default)))

-- `_default_runner_id`; `hostname` is what the machine answers.
unfoldable pub default_runner_id : (ℕ → Bool) → Option Text → Text → Text
unfolding is_alnum
default_runner_id beyond variable hostname = take 64 (
    map (λ c. if is_alnum beyond c || c == b'-' || c == b'_' then c else b'-')
      (or_else variable (if is_empty hostname then codes "runner" else hostname)))

abbrev is_name_char : (ℕ → Bool) → ℕ → Bool
is_name_char beyond c = is_alnum beyond c || c == b'-' || c == b'_'

sanitised-all :
    (beyond : ℕ → Bool) (n : ℕ) (s : Text)
    → all_chars
        (is_name_char beyond)
        (take n (map (λ c. if is_name_char beyond c then c else b'-') s))
      ≡ true
sanitised-all beyond zero s = refl
sanitised-all beyond (suc n) [] = refl
sanitised-all beyond (suc n) (c ∷ s) = elim (Bool-cases (is_name_char beyond c)) [
  | inl fits ↦ rw fits (rw (fits, sanitised-all beyond n s) refl)
  | inr other ↦ rw other (rw (sanitised-all beyond n s) (unfold is_alnum ℕ_discrete in refl))
]

named-nonempty :
    (variable : Option Text) (hostname : Text)
    → is_empty (or_else variable (if is_empty hostname then codes "runner" else hostname)) ≡ false
named-nonempty none [] = refl
named-nonempty none (c ∷ s) = refl
named-nonempty (some []) [] = refl
named-nonempty (some []) (c ∷ s) = refl
named-nonempty (some (d ∷ t)) hostname = refl

taken-nonempty :
    (f : ℕ → ℕ) (n : ℕ) (s : Text) → is_empty s ≡ false → is_empty (take (suc n) (map f s)) ≡ false
taken-nonempty f n [] h = h
taken-nonempty f n (c ∷ s) h = refl

-- Whatever the environment and the machine say, the name of a test server that is not configured
-- otherwise is one that the edge accepts.
pub default_runner_id-valid :
    (beyond : ℕ → Bool) (variable : Option Text) (hostname : Text)
    → valid_runner_id beyond (default_runner_id beyond variable hostname) ≡ true
unfolding valid_runner_id default_runner_id
default_runner_id-valid beyond variable hostname =
    let raw = or_else variable (if is_empty hostname then codes "runner" else hostname) in
    let f : ℕ → ℕ = λ c. if is_name_char beyond c then c else b'-' in
    let short : ltb 64 (length (take 64 (map f raw))) ≡ false =
      ground (arith, length-take-le 64 (map f raw)) in
    rw
      (
        taken-nonempty f 63 raw (named-nonempty variable hostname),
        short,
        sanitised-all beyond 64 raw,
      )
      refl

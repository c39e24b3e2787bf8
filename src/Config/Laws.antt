-- ===== src/Config/Laws.antt =====
-- What an environment makes of the lists of names in the configuration: the labels of a test server,
-- and the allowlists of the gate.
use slack_runtests.Prelude.{
  All, All-imp, Bool, Bool-cases, List, Option, Text, [], ap, codes, false, inl, inr, is_empty,
  keep_if, map, none, not, or_default, refl, some, true, ℕ, ◌∙◌, ◌∷◌, ◌≡◌, ◌≢◌, ◌⊎◌,
}
use slack_runtests.Config.{csv, default_runner_id-valid}
use slack_runtests.Strings.{Lacks, is_space, sorted, split_on, strip, strip-strip}
use slack_runtests.Strings.Pieces.{split_on-All, split_on-Lacks, strip-All, strip-spaces}
use slack_runtests.Python.{Bytes, is_ascii, ok}
use slack_runtests.Forms.{parse_form}
use slack_runtests.Parsing.{Args, parse, parsed}
use slack_runtests.Gate.{Headers, check, judged}
use slack_runtests.Gate.Laws.{check_passes, text_of}
use slack_runtests.Store.Runners.{RunnerRow, RunnerRows, enrol, labels_of, runner}
use slack_runtests.Store.Registry.{IsLabel, labels_of-enrol}
use slack_runtests.Edge.{valid_runner_id}
use slack_runtests.Edge.Payload.{Numbers, enroll_payload, enrolment_of}
use slack_runtests.Edge.Payload.Laws.{IsSeen, enrolment_of-enroll_payload}
use slack_runtests.Config.Load.{Environment, Floats, environ, load, load_runner, settings_of}

-- A name as `_csv` leaves it: not empty, with no comma, and with no white space at its ends.
pub record IsName (x : Text) : Type 0 where
  pub full : is_empty x ≡ false
  pub whole : Lacks b',' x
  pub bare : strip x ≡ x

csv-kept :
    (parts : List Text)
    → All (Lacks b',') parts
    → All IsName (keep_if (λ part. not (is_empty part)) (map strip parts))
csv-kept [] h = tt
csv-kept (x ∷ parts) h = elim (Bool-cases (is_empty (strip x))) [
  | inl nothing ↦ rw nothing (csv-kept parts h.1)
  | inr something ↦ rw something (
    record { full = something; whole = strip-All (λ d. d ≢ b',') x h.0; bare = strip-strip x },
    csv-kept parts h.1,
  )
]

pub csv-IsName : (variable : Option Text) (default : Text) → All IsName (csv variable default)
unfolding csv
csv-IsName variable default =
    csv-kept (split_on b',' (or_default variable default))
      (split_on-Lacks b',' (or_default variable default))

-- A variable that is not set, or has only white space and commas.
abbrev pub IsBlank : Option Text → Type 0
IsBlank none = Unit
IsBlank (some s) = All (λ c. (c ≡ b',') ⊎ (is_space c ≡ true)) s

csv-none_kept :
    (parts : List Text)
    → All (All (λ c. is_space c ≡ true)) parts
    → keep_if (λ part. not (is_empty part)) (map strip parts) ≡ []
csv-none_kept [] h = refl
csv-none_kept (x ∷ parts) h = rw (strip-spaces x h.0) (csv-none_kept parts h.1)

csv-blank : (variable : Option Text) → IsBlank variable → csv variable [] ≡ []
unfolding csv
csv-blank none h = unfold split_on strip in refl
csv-blank (some s) h =
    csv-none_kept (split_on b',' s) (split_on-All (λ c. is_space c ≡ true) b',' s h)

module _ (f : Floats) (p : Numbers) (beyond : ℕ → Bool) (hostname : Text) (env : Environment) where
  -- Whatever the environment and the machine say, a test server has a name that the edge accepts,
  -- the edge reads from the payload of its enrolment the labels of the configuration, and once it is
  -- enrolled with them, its row has these labels, in sorted order.
  pub configured_runner :
      (public_key : Text) (now : ℕ) (rows : RunnerRows)
      → let cfg = load_runner f beyond hostname env in
        (valid_runner_id beyond cfg.runner_id ≡ true)
        × (enrolment_of p (enroll_payload p cfg.runner_id public_key cfg.labels cfg.enroll_token)
            ≡ ok (record {
              runner_id = cfg.runner_id;
              public_key = public_key;
              labels = cfg.labels;
              token = cfg.enroll_token;
            }))
        × ((r : RunnerRow) × (runner cfg.runner_id
                (enrol cfg.runner_id public_key cfg.labels now rows)
              ≡ some r)
            × (labels_of r.labels ≡ sorted cfg.labels))
  unfolding load_runner
  configured_runner public_key now rows =
      let cfg = load_runner f beyond hostname env in
      let names : All IsName cfg.labels = csv-IsName (env (codes "RUNNER_LABELS")) [] in
      (
        default_runner_id-valid beyond (env (codes "RUNNER_ID")) hostname,
        enrolment_of-enroll_payload p cfg.runner_id public_key cfg.labels cfg.enroll_token
            (All-imp IsName IsSeen (λ x n. ap is_empty n.bare ∙ n.full) cfg.labels names),
        labels_of-enrol cfg.runner_id public_key cfg.labels now rows
            (All-imp IsName IsLabel (λ x n. (n.full, n.whole)) cfg.labels names),
      )

module _ (hmac_hex : Bytes → Bytes → Text) (hex : (k m : Bytes) → is_ascii (hmac_hex k m) ≡ true)
    (env : Environment) where
  -- If the secret and the workspace are not set or empty, and the lists of channels and people are
  -- not set or have only white space and commas, then the gate lets every request through whose text
  -- the parser takes, whoever sends it, and says that it is not verified.
  pub unset-IsOpen :
      (body : Bytes) (headers : Headers) (now : ℕ) (a : Args)
      → is_empty (environ env (codes "SLACK_SIGNING_SECRET") []) ≡ true
      → is_empty (environ env (codes "SLACK_TEAM_ID") []) ≡ true
      → IsBlank (env (codes "RUNTESTS_CHANNELS"))
      → IsBlank (env (codes "RUNTESTS_USERS"))
      → parse (text_of (parse_form body)) ≡ ok (parsed a)
      → check hmac_hex body headers (settings_of (load env)) now
        ≡ ok (judged (parse_form body) true (parsed a))
  unfolding load
  unset-IsOpen body headers now a secret team channels users understood =
      check_passes hmac_hex hex body headers (settings_of (load env)) now a (inl secret)
        (record {
          team = inl team;
          channel = inl (ap is_empty (csv-blank (env (codes "RUNTESTS_CHANNELS")) channels));
          user = inl (ap is_empty (csv-blank (env (codes "RUNTESTS_USERS")) users));
        })
        understood
      ∙ rw secret refl

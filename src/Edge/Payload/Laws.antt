-- ===== src/Edge/Payload/Laws.antt =====
-- The payloads of a test server come back as they were sent; and what other payloads do.
use slack_runtests.Edge.Payload.{
  Value, Numbers, elements, enroll_payload, enrolment_of, float_value, get_or, int_value, items_of,
  loaded, outcome_of, recorded_outcome, result_body, result_denied, result_payload, result_recorded,
  result_unread, str, values_of,
}
use slack_runtests.Prelude.{
  All, Bool, List, Option, Option-cases, Text, Text-discrete, [], ap, codes, false, inl, inr,
  is_empty, keep_if, map, none, not, or_default, refl, some, take, ℕ, ℕ_discrete, ℤ, ◌∷◌, ◌≡◌, ◌⊎◌,
}
use slack_runtests.Edge.{Request, State, authenticate}
use slack_runtests.Strings.{strip}
use slack_runtests.Python.{Bytes, Exn, Result-cases, ok, raised}
use slack_runtests.Store.{finish}
use slack_runtests.Store.Rows.{Outcome}
use slack_runtests.Identity.{Crypto}
use slack_runtests.Store.Runners.{RunnerRow, touch}
use slack_runtests.Edge.Laws.{IsCaller, authenticate_cases}

-- A label that is not only white space.
abbrev pub IsSeen : Text → Type 0
IsSeen x = is_empty (strip x) ≡ false

module _ (p : Numbers) where
  labels_kept :
      (labels : List Text)
      → All IsSeen labels
      → keep_if (λ x. not (is_empty (strip x))) (map (str p) (values_of p (items_of p labels)))
        ≡ labels
  unfolding items_of values_of str
  labels_kept [] h = refl
  labels_kept (x ∷ labels) h = rw h.0 (ap (λ l. x ∷ l) (labels_kept labels h.1))

  -- The edge reads of the payload of an enrolment what the test server sent, if no label is blank.
  pub enrolment_of-enroll_payload :
      (runner_id public_key : Text) (labels : List Text) (token : Text)
      → All IsSeen labels
      → enrolment_of p (enroll_payload p runner_id public_key labels token)
        ≡ ok (record {
          runner_id = runner_id;
          public_key = public_key;
          labels = labels;
          token = token;
        })
  unfolding enrolment_of enroll_payload get_or elements str Text-discrete ℕ_discrete
  enrolment_of-enroll_payload runner_id public_key labels token h = rw (labels_kept labels h) refl

  -- The edge reads of the payload of a result what the test server sent, and 2000 characters of the
  -- summary at most.
  pub outcome_of-result_payload :
      (zero_float : p.Float) (exit_code passed failures skipped : ℤ) (duration : p.Float)
      (summary : Text)
      → outcome_of p zero_float
          (result_payload p exit_code passed failures skipped duration summary)
        ≡ ok (record {
          exit_code = exit_code;
          passed = passed;
          failed = failures;
          skipped = skipped;
          duration = p.micros duration;
          summary = take 2000 summary;
        })
  unfolding outcome_of result_payload get_or int_value float_value str Text-discrete ℕ_discrete
  outcome_of-result_payload zero_float exit_code passed failures skipped duration summary = refl

  module _ (c : Crypto) (beyond : ℕ → Bool) (loads : Bytes → Option (Value p)) where
    pub result_body_cases :
        (zero_float : p.Float) (job_id : Text) (r : Request) (now : ℕ) (s : State)
        → let after = result_body p c beyond loads zero_float job_id r now s in
          let visited : State = record s {
            runners = touch (or_default (r.headers (codes "X-Runner-Id")) []) now s.runners;
          } in
          ((x : Exn) × (authenticate c beyond r now s.runners ≡ raised x) × (after ≡ (s, raised x)))
          ⊎ ((authenticate c beyond r now s.runners ≡ ok none) × (after ≡ (s, ok result_denied)))
          ⊎ ((row : RunnerRow) × IsCaller c beyond r now s.runners row
              × (((loaded p c beyond loads r.body ≡ none) × (after ≡ (visited, ok result_unread)))
                  ⊎ ((v : Value p) × (loaded p c beyond loads r.body ≡ some v)
                      × (((x : Exn) × (recorded_outcome p zero_float v ≡ raised x)
                            × (after ≡ (visited, raised x)))
                          ⊎ ((o : Outcome) × (recorded_outcome p zero_float v ≡ ok o)
                              × (after ≡ (
                                record visited {
                                  jobs = (finish job_id row.runner_id o now s.jobs).0;
                                },
                                ok (result_recorded (finish job_id row.runner_id o now s.jobs).1),
                              )))))))
    unfolding result_body
    result_body_cases zero_float job_id r now s =
        elim (authenticate_cases c beyond r now s.runners) [
          | inl (x, raises) ↦ inl (x, raises, rw (raises, result_body) refl)
          | inr (inl denied) ↦ inr (inl (denied, rw (denied, result_body) refl))
          | inr (inr (row, passes, caller)) ↦ inr (
              inr (
                row,
                caller,
                elim (Option-cases (loaded p c beyond loads r.body)) [
                  | inl unread ↦ inl (unread, rw (passes, unread, result_body) refl)
                  | inr (v, here) ↦ inr (
                    v,
                    here,
                    elim (Result-cases (recorded_outcome p zero_float v)) [
                      | inr (x, raises) ↦
                          inl (x, raises, rw (passes, here, raises, result_body) refl)
                      | inl (o, fine) ↦ inr (o, fine, rw (passes, here, fine, result_body) refl)
                    ],
                  )
                ],
              ))
        ]

-- ===== src/Edge/Trusted.antt =====
-- `preauthorised_key` of edge/edge_server/auth.py. `read_text` is what a file of the directory of the
-- pre-authorised keys has, by the name that is joined to the path; it may raise.
mod Tests
use slack_runtests.Prelude.{
  Bool, Bool-cases, Option, Text, [], all_chars, ap, arith, codes, false, false≢true, if◌then◌else◌,
  inl, inr, is_empty, length, ltb, none, not, refl, some, sym, true, ℕ, ℕ_discrete, ◌++◌, ◌==◌,
  ◌||◌, ◌∙◌, ◌∷◌, ◌≡◌, ◌≤◌, ◌⊎◌, int_eq, nat_eq, text_eq, option_eq,
}
use slack_runtests.Edge.{valid_runner_id}
use slack_runtests.Strings.{Lacks, is_alnum, strip}
use slack_runtests.Python.{
  Exn, Result, assertion_error, attribute_error, key_error, ok, os_error, overflow_error, raised,
  type_error, value_error,
}

-- `except OSError`
abbrev pub is_os_error : Exn → Bool
is_os_error os_error = true
is_os_error value_error = false
is_os_error type_error = false
is_os_error key_error = false
is_os_error overflow_error = false
is_os_error attribute_error = false
is_os_error assertion_error = false

module _ (beyond : ℕ → Bool) where
  unfoldable pub preauthorised_key : (Text → Result Text) → Text → Result (Option Text)
  unfolding valid_runner_id strip
  preauthorised_key read_text runner_id =
      if not (valid_runner_id beyond runner_id)
      then ok none
      else elim (read_text (runner_id ++ codes ".pub")) [
        | ok key ↦ ok (some (strip key))
        | raised x ↦ if is_os_error x then ok none else raised x
      ]

  -- A name with no path in it: no slash, no dot, not empty, and 64 characters at most.
  pub record IsPlain (s : Text) : Type 0 where
    pub slashless : Lacks b'/' s
    pub dotless : Lacks b'.' s
    pub full : is_empty s ≡ false
    pub short : length s ≤ 64

  is_name : ℕ → Bool
  unfolding is_alnum
  is_name d = is_alnum beyond d || d == b'-' || d == b'_'

  names-Lack : (c : ℕ) (s : Text) → is_name c ≡ false → all_chars is_name s ≡ true → Lacks c s
  names-Lack c [] other h = tt
  names-Lack c (d ∷ s) other h = elim (Bool-cases (is_name d)) [
    | inr bad ↦ absurd (false≢true (rw bad at h))
    | inl good ↦ (
      λ e. absurd (false≢true (sym other ∙ (ap is_name (sym e) ∙ good))),
      names-Lack c s other (rw good at h),
    )
  ]

  valid-IsPlain : (s : Text) → valid_runner_id beyond s ≡ true → IsPlain s
  unfolding valid_runner_id is_name
  valid-IsPlain s h = elim (Bool-cases (is_empty s || ltb 64 (length s))) [
    | inl bad ↦ absurd (false≢true (rw bad at h))
    | inr good ↦
        let names : all_chars is_name s ≡ true = rw good at h in
        record {
          slashless = names-Lack b'/' s (unfold is_alnum ℕ_discrete in refl) names;
          dotless = names-Lack b'.' s (unfold is_alnum ℕ_discrete in refl) names;
          full = ground (arith, good);
          short = ground (arith, good);
        }
  ]

  -- `preauthorised_key` depends on no file but that of the test server's name, a name with no slash
  -- and no dot, of 64 characters at most, and `.pub`; for any other name it answers that there is
  -- none. Two directories that agree on these files give the same answers.
  pub preauthorised_key-IsPlain :
      (read_text read_text' : Text → Result Text)
      → ((s : Text) → IsPlain s → read_text (s ++ codes ".pub") ≡ read_text' (s ++ codes ".pub"))
      → (runner_id : Text)
      → (preauthorised_key read_text runner_id ≡ preauthorised_key read_text' runner_id)
        × ((preauthorised_key read_text runner_id ≡ ok none) ⊎ IsPlain runner_id)
  unfolding preauthorised_key
  preauthorised_key-IsPlain read_text read_text' agree runner_id =
      elim (Bool-cases (valid_runner_id beyond runner_id)) [
        | inr ill ↦ (rw ill refl, inl (rw ill refl))
        | inl well ↦
            let plain = valid-IsPlain runner_id well in (rw (agree runner_id plain) refl, inr plain)
      ]

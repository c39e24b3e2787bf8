-- ===== src/Strings/Pieces.antt =====
-- The pieces that `str.split` and `str.strip` make of a text.
use slack_runtests.Prelude.{
  All, Bool-cases, Text, [], arith, inl, inr, is_empty, refl, true, ℕ, ◌&&◌, ◌==◌, ◌∷◌, ◌≡◌, ◌≢◌,
  ◌⊎◌, text_eq, nat_eq, int_eq, option_eq,
}
use slack_runtests.Strings.{Lacks, is_space, lstrip, rstrip, split_at, split_on, strip}

module _ (P : ℕ → Type 0) (sep : ℕ) where
  split_at-All :
      (s : Text)
      → All (λ c. (c ≡ sep) ⊎ P c) s
      → All P (split_at sep s).0 × All (All P) (split_at sep s).1
  unfolding split_at
  split_at-All [] h = (tt, tt)
  split_at-All (c ∷ s) h =
      let (first, more) = split_at-All s h.1 in
      elim (Bool-cases (c == sep)) [
        | inl same ↦ rw same (tt, (first, more))
        | inr differs ↦ elim h.0 [
          | inl e ↦ absurd (ground (arith, e, differs))
          | inr p ↦ rw differs ((p, first), more)
        ]
      ]

  -- A property of every character but the separators is one of every character of the pieces.
  pub split_on-All : (s : Text) → All (λ c. (c ≡ sep) ⊎ P c) s → All (All P) (split_on sep s)
  unfolding split_on
  split_on-All s h = split_at-All s h

separated : (sep : ℕ) (s : Text) → All (λ c. (c ≡ sep) ⊎ (c ≢ sep)) s
separated sep [] = tt
separated sep (c ∷ s) = (ground arith, separated sep s)

-- The pieces have no separator.
pub split_on-Lacks : (sep : ℕ) (s : Text) → All (Lacks sep) (split_on sep s)
split_on-Lacks sep s = split_on-All (λ d. d ≢ sep) sep s (separated sep s)

module _ (P : ℕ → Type 0) where
  lstrip-All : (s : Text) → All P s → All P (lstrip s)
  unfolding lstrip
  lstrip-All [] h = tt
  lstrip-All (c ∷ s) h = elim (Bool-cases (is_space c)) [
    | inl space ↦ rw space (lstrip-All s h.1)
    | inr dark ↦ rw dark h
  ]

  rstrip-All : (s : Text) → All P s → All P (rstrip s)
  unfolding rstrip
  rstrip-All [] h = tt
  rstrip-All (c ∷ s) h = elim (Bool-cases (is_empty (rstrip s) && is_space c)) [
    | inl gone ↦ rw gone tt
    | inr kept ↦ rw kept (h.0, rstrip-All s h.1)
  ]

  -- What is stripped has only characters of the text.
  pub strip-All : (s : Text) → All P s → All P (strip s)
  unfolding strip
  strip-All s h = rstrip-All (lstrip s) (lstrip-All s h)

lstrip-spaces : (s : Text) → All (λ c. is_space c ≡ true) s → lstrip s ≡ []
unfolding lstrip
lstrip-spaces [] h = refl
lstrip-spaces (c ∷ s) h = rw h.0 (lstrip-spaces s h.1)

-- Of white space nothing is left.
pub strip-spaces : (s : Text) → All (λ c. is_space c ≡ true) s → strip s ≡ []
unfolding strip rstrip
strip-spaces s h = rw (lstrip-spaces s h) refl

-- ===== src/Local/Counting.antt =====
-- The local runner: its reading of pytest's summary line.
-- How many digits `show_digits` writes.
use slack_runtests.Prelude.{
  Bool-cases, Option, Text, [], ap, arith, codes, false, if◌then◌else◌, inl, inr, ltb, none, refl,
  some, suc, true, zero, ℕ, ℕ_discrete, ◌*◌, ◌++◌, ◌+◌, ◌-◌, ◌/◌, ◌<◌, ◌^◌, ◌∙◌, ◌∷◌, ◌≡◌, ◌≤◌,
}
use slack_runtests.Local.{
  Word, count_words, counts_of, failed, find_counts, no_counts, one_more, passed, skipped, word_of,
}
use slack_runtests.Strings.{is_digit, starts_with}
use slack_runtests.Python.{max_str_digits, ok, ◌>>=◌}
use slack_runtests.Decimal.{digit, digit-is_digit, show, show_digits, tenth-less}
use slack_runtests.Store.History.{run}

width : ℕ → ℕ → ℕ
width zero n = 0
width (suc fuel) n = let more = width fuel (n / 10) + 1 in if ltb n 10 then 1 else more

width-le : (k fuel n : ℕ) → n < 10 ^ k → width fuel n ≤ k + 1
unfolding width
width-le k zero n h = omega arith
width-le zero (suc fuel) n h = ground arith
width-le (suc k) (suc fuel) n h = elim (Bool-cases (ltb n 10)) [
  | inl small ↦ rw small (omega arith)
  | inr large ↦ rw large (omega (arith, width-le k fuel (n / 10) (tenth-less k n h)))
]

digit-small : (n : ℕ) → ltb n 10 ≡ true → digit n - b'0' ≡ n
unfolding digit
digit-small n h = ground arith

digit-last : (n : ℕ) → n / 10 * 10 + (digit n - b'0') ≡ n
unfolding digit
digit-last n = omega arith

find_digit :
    (run : Option (ℕ × ℕ)) (n : ℕ) (rest : Text)
    → find_counts run (digit n ∷ rest) ≡ find_counts (some (one_more run (digit n))) rest
unfolding find_counts
find_digit run n rest = rw (digit-is_digit n) refl

find_digits :
    (fuel n : ℕ) (rest : Text)
    → n < fuel
    → find_counts none (show_digits fuel n rest) ≡ find_counts (some (n, width fuel n)) rest
unfolding show_digits width
find_digits zero n rest h = absurd (omega arith)
find_digits (suc fuel) n rest h = elim (Bool-cases (ltb n 10)) [
  | inl small ↦
      rw small
        (find_digit none n rest ∙ ap (λ m. find_counts (some (m, 1)) rest) (digit-small n small))
  | inr large ↦ rw large (
      find_digits fuel (n / 10) (digit n ∷ rest) (ground arith)
      ∙ find_digit (some (n / 10, width fuel (n / 10))) n rest
      ∙ ap (λ m. find_counts (some (m, width fuel (n / 10) + 1)) rest) (digit-last n))
]

show_digits-append :
    (fuel n : ℕ) (s rest : Text) → show_digits fuel n s ++ rest ≡ show_digits fuel n (s ++ rest)
unfolding show_digits
show_digits-append zero n s rest = refl
show_digits-append (suc fuel) n s rest = elim (Bool-cases (ltb n 10)) [
  | inl small ↦ rw small refl
  | inr large ↦ rw large (show_digits-append fuel (n / 10) (digit n ∷ s) rest)
]

show-append : (n : ℕ) (rest : Text) → show n ++ rest ≡ show_digits (suc n) n rest
unfolding show
show-append n rest = show_digits-append (suc n) n [] rest

find_space :
    (n many : ℕ) (w : Word) (rest : Text)
    → many ≤ 4300
    → word_of rest ≡ some w
    → find_counts (some (n, many)) (b' ' ∷ rest)
      ≡ (find_counts none rest >>= λ found. ok ((n, w) ∷ found))
unfolding find_counts is_digit ℕ_discrete
find_space n many w rest few named =
    let e : ltb max_str_digits many ≡ false = ground arith in rw (named, e) refl

-- A number in front of a space is found with the word behind it.
find_number :
    (n : ℕ) (w : Word) (rest : Text)
    → n < 10 ^ 20
    → word_of rest ≡ some w
    → find_counts none (show n ++ b' ' ∷ rest)
      ≡ (find_counts none rest >>= λ found. ok ((n, w) ∷ found))
find_number n w rest small named =
    ap (find_counts none) (show-append n (b' ' ∷ rest))
    ∙ find_digits (suc n) n (b' ' ∷ rest) (omega arith)
    ∙ find_space n (width (suc n) n) w rest (omega (arith, width-le 20 (suc n) n small)) named

-- The counts of a summary line are read as they were written, if each has at most 20 digits and
-- what stands behind them has no count of its own.
pub counts_of-summary :
    (f p k : ℕ) (rest : Text)
    → f < 10 ^ 20
    → p < 10 ^ 20
    → k < 10 ^ 20
    → find_counts none rest ≡ ok []
    → counts_of (
        show f
        ++ (codes " failed, "
            ++ (show p ++ (codes " passed, " ++ (show k ++ (codes " skipped" ++ rest))))))
      ≡ ok (record { passed = p; failed = f; skipped = k })
unfolding counts_of find_counts count_words word_of is_digit starts_with ℕ_discrete
counts_of-summary f p k rest small_f small_p small_k none_left =
    let third = codes "skipped" ++ rest in
    let second = codes "passed, " ++ (show k ++ b' ' ∷ third) in
    let first = codes "failed, " ++ (show p ++ b' ' ∷ second) in
    let from_third : find_counts none (show k ++ b' ' ∷ third) ≡ ok ((k, skipped) ∷ []) =
      find_number k skipped third small_k refl
      ∙ ap (λ r. r >>= λ found. ok ((k, skipped) ∷ found)) none_left in
    let from_second : find_counts none (show p ++ b' ' ∷ second)
        ≡ ok ((p, passed) ∷ (k, skipped) ∷ []) =
      find_number p passed second small_p refl
      ∙ ap (λ r. r >>= λ found. ok ((p, passed) ∷ found)) from_third in
    let from_first : find_counts none (show f ++ b' ' ∷ first)
        ≡ ok ((f, failed) ∷ (p, passed) ∷ (k, skipped) ∷ []) =
      find_number f failed first small_f refl
      ∙ ap (λ r. r >>= λ found. ok ((f, failed) ∷ found)) from_second in
    ap (λ r. r >>= λ found. ok (count_words no_counts found)) from_first
    ∙ ap (λ n. ok (record { passed = p; failed = n; skipped = k })) (omega arith)

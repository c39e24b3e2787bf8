-- ===== src/Decimal.antt =====
-- Numbers in decimal, as `str(n)` and `f"{x:.1f}"` write them.
use native.Mathlib.Numerals.{unary_clauses}
use slack_runtests.Prelude.{
  All, Bool, Bool-cases, Text, [], ap, arith, codes, count_if, false, if◌then◌else◌, inl, inr,
  length, ltb, negsuc, pos, refl, some, suc, true, zero, ℕ, ℤ, ◌%◌, ◌*◌, ◌++◌, ◌+◌, ◌/◌, ◌<◌, ◌^◌,
  ◌∙◌, ◌∷◌, ◌≡◌, ◌≤◌,
}
use slack_runtests.Strings.{Unspaced, is_digit, is_space, strip-Unspaced}
use slack_runtests.Python.{digits, max_str_digits, parse_int, signed_digits}

unfoldable pub digit : ℕ → ℕ
digit n = b'0' + n % 10

-- The digits of a number in front of a text, on fuel.
unfoldable pub show_digits : ℕ → ℕ → Text → Text
unfolding digit
show_digits zero n rest = rest
show_digits (suc fuel) n rest =
    let more = show_digits fuel (n / 10) (digit n ∷ rest) in
    if ltb n 10 then digit n ∷ rest else more

-- `str(n)`
unfoldable pub show : ℕ → Text
unfolding show_digits
show n = show_digits (suc n) n []

unfoldable pub show_int : ℤ → Text
unfolding show
show_int (pos n) = show n
show_int (negsuc n) = b'-' ∷ show (n + 1)

-- Tenths of a second, for a time in microseconds: half to even.
unfoldable pub round_tenths : ℕ → ℕ
round_tenths t =
    let q = t / 100000 in
    let r = t % 100000 in
    if ltb (2 * r) 100000 then q else if ltb 100000 (2 * r) then q + 1 else q + q % 2

-- `f"{t:.1f}"`, for a time in microseconds.
unfoldable pub show_tenths : ℕ → Text
unfolding show round_tenths
show_tenths t = let q = round_tenths t in show (q / 10) ++ b'.' ∷ show (q % 10)

shown : (show 0 ≡ codes "0") × (show 1047 ≡ codes "1047") × (show_tenths 91449999 ≡ codes "91.4")
unfolding show show_tenths
shown = (refl, refl, refl)

digits-digit :
    (after_digit : Bool) (so_far n : ℕ) (rest : Text)
    → digits after_digit so_far (digit n ∷ rest) ≡ digits true (so_far * 10 + n % 10) rest
unfolding digits digit is_digit
digits-digit after_digit so_far n rest = ground arith

digits-show_digits :
    (fuel n : ℕ) (rest : Text)
    → n < fuel
    → digits false 0 (show_digits fuel n rest) ≡ digits true n rest
unfolding show_digits
digits-show_digits zero n rest h = absurd (omega arith)
digits-show_digits (suc fuel) n rest h = elim (Bool-cases (ltb n 10)) [
  | inl small ↦ rw small (digits-digit false 0 n rest ∙ ap (λ m. digits true m rest) (ground arith))
  | inr large ↦ rw large (
      digits-show_digits fuel (n / 10) (digit n ∷ rest) (ground arith)
      ∙ digits-digit true (n / 10) n rest
      ∙ ap (λ m. digits true m rest) (omega arith))
]

-- All characters are digits.
abbrev pub IsNumeral : Text → Type 0
IsNumeral = All (λ c. is_digit c ≡ true)

pub digit-is_digit : (n : ℕ) → is_digit (digit n) ≡ true
unfolding digit is_digit
digit-is_digit n = ground arith

show_digits-IsNumeral :
    (fuel n : ℕ) (rest : Text) → IsNumeral rest → IsNumeral (show_digits fuel n rest)
unfolding show_digits
show_digits-IsNumeral zero n rest h = h
show_digits-IsNumeral (suc fuel) n rest h = elim (Bool-cases (ltb n 10)) [
  | inl small ↦ rw small (digit-is_digit n, h)
  | inr large ↦
      rw large (show_digits-IsNumeral fuel (n / 10) (digit n ∷ rest) (digit-is_digit n, h))
]

pub tenth-less : (k n : ℕ) → n < 10 ^ suc k → n / 10 < 10 ^ k
tenth-less k n h =
    let e : 10 ^ suc k ≡ 10 ^ k * 10 = simp unary_clauses (omega arith) in omega arith

show_digits-length-le :
    (k fuel n : ℕ) (rest : Text)
    → n < 10 ^ k
    → length (show_digits fuel n rest) ≤ k + length rest + 1
unfolding show_digits
show_digits-length-le k zero n rest h = omega arith
show_digits-length-le zero (suc fuel) n rest h = elim (Bool-cases (ltb n 10)) [
  | inl small ↦ rw small (omega arith)
  | inr large ↦ absurd (ground arith)
]
show_digits-length-le (suc k) (suc fuel) n rest h = elim (Bool-cases (ltb n 10)) [
  | inl small ↦ rw small (omega arith)
  | inr large ↦
      rw large
        (omega (arith, show_digits-length-le k fuel (n / 10) (digit n ∷ rest) (tenth-less k n h)))
]

count_if-le-length : (p : ℕ → Bool) (s : Text) → count_if p s ≤ length s
count_if-le-length p [] = omega arith
count_if-le-length p (c ∷ s) = ground (arith, count_if-le-length p s)

signed_digits-numeral :
    (s : Text) (n : ℕ) → IsNumeral s → digits false 0 s ≡ some n → signed_digits s ≡ some (pos n)
unfolding signed_digits digits is_digit
signed_digits-numeral [] n h e = cc
signed_digits-numeral (c ∷ s) n (d, h) e = ground (arith, e)

numeral-Unspaced : (s : Text) → IsNumeral s → Unspaced s
unfolding is_space is_digit
numeral-Unspaced [] h = tt
numeral-Unspaced (c ∷ s) (d, h) = (ground arith, numeral-Unspaced s h)

shown_length : (n : ℕ) → length (show n) ≡ length (show_digits (suc n) n [])
unfolding show
shown_length n = refl

-- What `str` writes, `int` reads, up to the limit of 4300 digits.
pub parse_int-show : (k n : ℕ) → n < 10 ^ k → k < 4300 → parse_int (show n) ≡ some (pos n)
unfolding parse_int
parse_int-show k n small short =
    let numeral : IsNumeral (show n) = unfold show in show_digits-IsNumeral (suc n) n [] tt in
    let few : ltb max_str_digits (count_if is_digit (show n)) ≡ false = ground (
      arith,
      count_if-le-length is_digit (show n),
      show_digits-length-le k (suc n) n [] small,
      shown_length n,
    ) in
    rw (few, strip-Unspaced (show n) (numeral-Unspaced (show n) numeral))
      (signed_digits-numeral (show n) n numeral
        (unfold show in digits-show_digits (suc n) n [] (omega arith)))

-- ===== src/Python.antt =====
-- Python's exceptions, `int(text)`, `str.encode` and `hmac.compare_digest`, as the program uses
-- them.
use slack_runtests.Prelude.{
  Bool, Bool-cases, List, Option, Text, [], arith, codes, count_if, false, if◌then◌else◌, inl, inr,
  is_empty, leb, le→leb, ltb, negsuc, none, pos, refl, some, sub_ℕ, true, ℕ, ℕ_discrete, ℤ, ◌%◌,
  ◌&&◌, ◌*◌, ◌++◌, ◌+◌, ◌-◌, ◌/◌, ◌==◌, ◌^◌, ◌∷◌, ◌≡◌, ◌≤◌, ◌⊎◌, nat_eq, int_eq, option_eq, text_eq,
}
use slack_runtests.Strings.{is_digit, strip}

-- The exceptions that the modelled code raises or lets through.
pub data Exn : Type 0 where
  value_error type_error key_error overflow_error attribute_error os_error assertion_error : Exn

pub data Result {ℓ} (A : Type ℓ) : Type ℓ where
  ok : A → Result A
  raised : Exn → Result A

infixl 5 ◌>>=◌
abbrev pub ◌>>=◌ {ℓ κ} : {A : Type ℓ} {B : Type κ} → Result A → (A → Result B) → Result B
ok a >>= f = f a
raised e >>= f = raised e

pub Result-cases {ℓ} :
    {A : Type ℓ} (r : Result A) → ((a : A) × (r ≡ ok a)) ⊎ ((e : Exn) × (r ≡ raised e))
Result-cases (ok a) = inl (a, refl)
Result-cases (raised e) = inr (e, refl)

abbrev pub Bytes : Type 0
Bytes = List ℕ

-- The digits of a number, with a single `_` allowed between two of them.
unfoldable pub digits : Bool → ℕ → Text → Option ℕ
unfolding is_digit
digits after_digit n [] = if after_digit then some n else none
digits after_digit n (c ∷ s) =
    let as_digit = digits true (n * 10 + (c - b'0')) s in
    let as_underscore = digits false n s in
    if is_digit c then as_digit else if after_digit && c == b'_' then as_underscore else none

-- More digits than this are a ValueError.
abbrev pub max_str_digits : ℕ
max_str_digits = 4300

unfoldable pub signed_digits : Text → Option ℤ
unfolding digits
signed_digits [] = none
signed_digits (c ∷ s) =
    if c == b'-'
    then elim (digits false 0 s) [ none ↦ none | some n ↦ some (sub_ℕ 0 n) ]
    else if c == b'+'
    then elim (digits false 0 s) [ none ↦ none | some n ↦ some (pos n) ]
    else elim (digits false 0 (c ∷ s)) [ none ↦ none | some n ↦ some (pos n) ]

-- `int(text)`, for a text of code points up to U+00FF; `none` is a ValueError.
unfoldable pub parse_int : Text → Option ℤ
unfolding signed_digits strip
parse_int s = if ltb max_str_digits (count_if is_digit s) then none else signed_digits (strip s)

-- The least integer that does not round to a finite float.
abbrev pub float_limit : ℕ
float_limit = 2 ^ 1024 - 2 ^ 970

abbrev pub magnitude : ℤ → ℕ
magnitude (pos n) = n
magnitude (negsuc n) = n + 1

-- `abs(now - t)` for a time `now` in microseconds and an integer `t` in seconds.
unfoldable pub distance : ℕ → ℤ → ℕ
distance now (pos n) = if leb now (n * 1000000) then n * 1000000 - now else now - n * 1000000
distance now (negsuc n) = now + (n + 1) * 1000000

-- With a float `now` the integer becomes a float first: an OverflowError when it is too large.
unfoldable pub age : ℕ → ℤ → Result ℕ
unfolding distance
age now t = if leb float_limit (magnitude t) then raised overflow_error else ok (distance now t)

-- One code point in UTF-8.
encode_char : ℕ → Bytes
encode_char c =
    if ltb c 0x80
    then c ∷ []
    else if ltb c 0x800
    then (0xc0 + c / 64) ∷ (0x80 + c % 64) ∷ []
    else if ltb c 0x10000
    then (0xe0 + c / 4096) ∷ (0x80 + c / 64 % 64) ∷ (0x80 + c % 64) ∷ []
    else (0xf0 + c / 262144) ∷ (0x80 + c / 4096 % 64) ∷ (0x80 + c / 64 % 64) ∷ (0x80 + c % 64) ∷ []

-- `text.encode()`, for a text without surrogates.
unfoldable pub encode : Text → Bytes
unfolding encode_char
encode [] = []
encode (c ∷ s) = encode_char c ++ encode s

unfoldable pub is_ascii : Text → Bool
is_ascii [] = true
is_ascii (c ∷ s) = ltb c 128 && is_ascii s

-- `hmac.compare_digest` of two texts: it takes ASCII alone.
unfoldable pub compare_digest : Text → Text → Result Bool
unfolding is_ascii
compare_digest a b = if is_ascii a && is_ascii b then ok (a == b) else raised type_error

pub encode-ascii : (s : Text) → is_ascii s ≡ true → encode s ≡ s
unfolding encode is_ascii
encode-ascii [] h = refl
encode-ascii (c ∷ s) h = ground (arith, encode-ascii s)

pub is_ascii-append : (s t : Text) → is_ascii (s ++ t) ≡ (is_ascii s && is_ascii t)
unfolding is_ascii
is_ascii-append [] t = refl
is_ascii-append (c ∷ s) t = ground (arith, is_ascii-append s t)

-- The time stamp is a number whose age is known and at most `max_age`.
abbrev pub IsFresh : Text → ℕ → ℕ → Type 0
IsFresh timestamp now max_age =
    (t : ℤ) × (parse_int timestamp ≡ some t) × ((a : ℕ) × (age now t ≡ ok a) × (a ≤ max_age))

none_parses : (t : ℤ) → ¬ (parse_int [] ≡ some t)
unfolding parse_int
none_parses t e = cc

pub parse_int-nonempty : (s : Text) (t : ℤ) → parse_int s ≡ some t → is_empty s ≡ false
parse_int-nonempty [] t e = absurd (none_parses t e)
parse_int-nonempty (c ∷ s) t e = refl

pub age-cases :
    (now : ℕ) (t : ℤ) → (age now t ≡ raised overflow_error) ⊎ ((a : ℕ) × (age now t ≡ ok a))
unfolding age
age-cases now t = elim (Bool-cases (leb float_limit (magnitude t))) [
  | inl large ↦ inl (rw large)
  | inr small ↦ inr (distance now t, rw small refl)
]

pub age-large : (now : ℕ) (t : ℤ) → float_limit ≤ magnitude t → age now t ≡ raised overflow_error
unfolding age
age-large now t large = rw (le→leb float_limit (magnitude t) large)

int_test :
    (parse_int (codes " 1_700 ") ≡ some (pos 1700))
    × (parse_int (codes "-5") ≡ some (negsuc 4))
    × (parse_int (codes "1__0") ≡ none)
    × (parse_int (codes "+") ≡ none)
unfolding parse_int ℕ_discrete
int_test = (refl, refl, refl, refl)

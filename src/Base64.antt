-- ===== src/Base64.antt =====
-- `base64.b64encode` and `base64.b64decode(text, validate=True)`, which `_b64` and `_unb64` of
-- src/slack_runtests/identity.py call.
use slack_runtests.Prelude.{
  All, Option, Text, [], arith, false, if◌then◌else◌, is_empty, leb, ltb, none, refl, some, ℕ,
  ℕ_discrete, ◌%◌, ◌&&◌, ◌*◌, ◌+◌, ◌-◌, ◌/◌, ◌<◌, ◌==◌, ◌∷◌, ◌≡◌, text_eq, int_eq, nat_eq,
  option_eq,
}
use slack_runtests.Strings.{is_space}
use slack_runtests.Python.{Bytes}

pub letter : ℕ → ℕ
letter n =
    if ltb n 26
    then b'A' + n
    else if ltb n 52
    then b'a' + (n - 26)
    else if ltb n 62
    then b'0' + (n - 52)
    else if n == 62
    then b'+'
    else b'/'

pub value : ℕ → Option ℕ
value c =
    if leb b'A' c && leb c b'Z'
    then some (c - b'A')
    else if leb b'a' c && leb c b'z'
    then some (c - b'a' + 26)
    else if leb b'0' c && leb c b'9'
    then some (c - b'0' + 52)
    else if c == b'+'
    then some 62
    else if c == b'/'
    then some 63
    else none

-- Three bytes in four letters; `=` fills the last group up.
unfoldable pub b64encode : Bytes → Text
unfolding letter
b64encode [] = []
b64encode (a ∷ []) = letter (a / 4) ∷ letter (a % 4 * 16) ∷ b'=' ∷ b'=' ∷ []
b64encode (a ∷ b ∷ []) =
    letter (a / 4) ∷ letter (a % 4 * 16 + b / 16) ∷ letter (b % 16 * 4) ∷ b'=' ∷ []
b64encode (a ∷ b ∷ c ∷ rest) =
    letter (a / 4)
    ∷ letter (a % 4 * 16 + b / 16)
    ∷ letter (b % 16 * 4 + c / 64)
    ∷ letter (c % 64)
    ∷ b64encode rest

infixl 5 ◌>>=◌
abbrev ◌>>=◌ {ℓ κ} : {A : Type ℓ} {B : Type κ} → Option A → (A → Option B) → Option B
none >>= f = none
some a >>= f = f a

-- The last group has one or two bytes if it ends in `=`.
last_group : ℕ → ℕ → ℕ → Option Bytes
unfolding value
last_group w x y =
    let one = (do p ← value w; q ← value x; some ((p * 4 + q / 16) ∷ [])) in
    let two = (do
      p ← value w
      q ← value x
      r ← value y
      some ((p * 4 + q / 16) ∷ (q % 16 * 16 + r / 4) ∷ [])) in
    if y == b'=' then one else two

full_group : ℕ → ℕ → ℕ → ℕ → Option Bytes → Option Bytes
unfolding value
full_group w x y z rest = do
  p ← value w
  q ← value x
  r ← value y
  s ← value z
  bytes ← rest
  some ((p * 4 + q / 16) ∷ (q % 16 * 16 + r / 4) ∷ (r % 4 * 64 + s) ∷ bytes)

unfoldable pub b64decode : Text → Option Bytes
unfolding last_group full_group
b64decode [] = some []
b64decode (w ∷ x ∷ y ∷ z ∷ rest) =
    let more = b64decode rest in
    if z == b'=' && is_empty rest then last_group w x y else full_group w x y z more
b64decode _ = none

value-letter : (n : ℕ) → n < 64 → value (letter n) ≡ some n
unfolding value letter
value-letter n h = ground arith

letter-ne : (n : ℕ) → n < 64 → (letter n == b'=') ≡ false
unfolding letter
letter-ne n h = ground arith

abbrev pub IsByte : ℕ → Type 0
IsByte b = b < 256

-- What was encoded from bytes is decoded to the same bytes.
pub b64decode-b64encode :
    (bytes : Bytes) → All IsByte bytes → b64decode (b64encode bytes) ≡ some bytes
unfolding b64decode b64encode
b64decode-b64encode [] h = refl
b64decode-b64encode (a ∷ []) h =
    ground (arith, value-letter (a / 4) (omega arith), value-letter (a % 4 * 16) (omega arith))
b64decode-b64encode (a ∷ b ∷ []) h = ground (
  arith,
  value-letter (a / 4) (omega arith),
  value-letter (a % 4 * 16 + b / 16) (omega arith),
  value-letter (b % 16 * 4) (omega arith),
  letter-ne (b % 16 * 4) (omega arith),
)
b64decode-b64encode (a ∷ b ∷ c ∷ rest) h = ground (
  arith,
  value-letter (a / 4) (omega arith),
  value-letter (a % 4 * 16 + b / 16) (omega arith),
  value-letter (b % 16 * 4 + c / 64) (omega arith),
  value-letter (c % 64) (omega arith),
  letter-ne (c % 64) (omega arith),
  b64decode-b64encode rest h.1.1.1,
)

letter-unspaced : (n : ℕ) → n < 64 → is_space (letter n) ≡ false
unfolding letter is_space
letter-unspaced n h = ground arith

-- No letter of an encoding is white space.
pub b64encode-unspaced :
    (bytes : Bytes) → All IsByte bytes → All (λ c. is_space c ≡ false) (b64encode bytes)
unfolding b64encode is_space ℕ_discrete
b64encode-unspaced [] h = tt
b64encode-unspaced (a ∷ []) h = (
  letter-unspaced (a / 4) (omega arith),
  (letter-unspaced (a % 4 * 16) (omega arith), (refl, (refl, tt))),
)
b64encode-unspaced (a ∷ b ∷ []) h = (
  letter-unspaced (a / 4) (omega arith),
  (
    letter-unspaced (a % 4 * 16 + b / 16) (omega arith),
    (letter-unspaced (b % 16 * 4) (omega arith), (refl, tt)),
  ),
)
b64encode-unspaced (a ∷ b ∷ c ∷ rest) h = (
  letter-unspaced (a / 4) (omega arith),
  (
    letter-unspaced (a % 4 * 16 + b / 16) (omega arith),
    (
      letter-unspaced (b % 16 * 4 + c / 64) (omega arith),
      (letter-unspaced (c % 64) (omega arith), b64encode-unspaced rest h.1.1.1),
    ),
  ),
)

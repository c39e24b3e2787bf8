-- ===== src/Strings.antt =====
-- The methods of Python's `str` that the program calls, over code points.
pub mod Pieces
use slack_runtests.Prelude.{
  All, Bool, Bool-cases, List, Text, [], arith, false, if◌then◌else◌, inl, inr, is_empty, leb, ltb,
  refl, true, ℕ, ◌&&◌, ◌++◌, ◌==◌, ◌||◌, ◌∷◌, ◌≡◌, ◌≢◌, option_eq, text_eq, int_eq, nat_eq,
}

-- `str.isspace`, up to U+00FF.
unfoldable pub is_space : ℕ → Bool
is_space c = (leb 9 c && leb c 13) || (leb 28 c && leb c 32) || c == 0x85 || c == 0xa0

unfoldable pub is_digit : ℕ → Bool
is_digit c = leb b'0' c && leb c b'9'

unfoldable pub is_ascii_alpha : ℕ → Bool
is_ascii_alpha c = (leb b'A' c && leb c b'Z') || (leb b'a' c && leb c b'z')

-- `c.isalnum()`; `beyond` answers for the characters that are not ASCII.
unfoldable pub is_alnum : (ℕ → Bool) → ℕ → Bool
unfolding is_ascii_alpha is_digit
is_alnum beyond c = if ltb c 128 then is_ascii_alpha c || is_digit c else beyond c

-- `s.lstrip()`, `s.rstrip()` and `s.strip()`.
pub lstrip : Text → Text
unfolding is_space
lstrip [] = []
lstrip (c ∷ s) = let rest = lstrip s in if is_space c then rest else c ∷ s

pub rstrip : Text → Text
unfolding is_space
rstrip [] = []
rstrip (c ∷ s) = let rest = rstrip s in if is_empty rest && is_space c then [] else c ∷ rest

unfoldable pub strip : Text → Text
unfolding lstrip rstrip
strip s = rstrip (lstrip s)

-- `s.split(sep)` for a separator of one character.
unfoldable pub split_at : ℕ → Text → Text × List Text
split_at sep [] = ([], [])
split_at sep (c ∷ s) =
    let (piece, pieces) = split_at sep s in
    if c == sep then ([], piece ∷ pieces) else (c ∷ piece, pieces)

unfoldable pub split_on : ℕ → Text → List Text
unfolding split_at
split_on sep s = let (piece, pieces) = split_at sep s in piece ∷ pieces

-- `sep.join(pieces)` for a separator of one character.
unfoldable pub join : ℕ → List Text → Text
join sep [] = []
join sep (s ∷ []) = s
join sep (s ∷ t ∷ pieces) = s ++ sep ∷ join sep (t ∷ pieces)

-- `s <= t`: by code points, from the left.
unfoldable pub text_le : Text → Text → Bool
text_le [] t = true
text_le (c ∷ s) [] = false
text_le (c ∷ s) (d ∷ t) = let rest = text_le s t in if c == d then rest else ltb c d

-- `sorted(texts)`
pub insert_text : Text → List Text → List Text
insert_text s [] = s ∷ []
insert_text s (t ∷ ts) = if text_le s t then s ∷ t ∷ ts else t ∷ insert_text s ts

unfoldable pub sorted : List Text → List Text
unfolding insert_text text_le
sorted [] = []
sorted (s ∷ ts) = insert_text s (sorted ts)

unfoldable pub starts_with : Text → Text → Bool
starts_with [] s = true
starts_with (c ∷ p) [] = false
starts_with (c ∷ p) (d ∷ s) = c == d && starts_with p s

-- A text without a character.
abbrev pub Lacks : ℕ → Text → Type 0
Lacks c = All (λ d. d ≢ c)

split_at-piece :
    (sep : ℕ) (s t : Text) → Lacks sep s → split_at sep (s ++ sep ∷ t) ≡ (s, split_on sep t)
unfolding split_on
split_at-piece sep [] t h = ground arith
split_at-piece sep (c ∷ s) t h = rw (split_at-piece sep s t h.1) (ground (arith, h.0))

split_at-last : (sep : ℕ) (s : Text) → Lacks sep s → split_at sep s ≡ (s, [])
unfolding split_at
split_at-last sep [] h = refl
split_at-last sep (c ∷ s) h = rw (split_at-last sep s h.1) (ground (arith, h.0))

-- What was joined with a separator that no piece has is split into the same pieces.
pub split_on-join :
    (sep : ℕ) (s : Text) (pieces : List Text)
    → All (Lacks sep) (s ∷ pieces)
    → split_on sep (join sep (s ∷ pieces)) ≡ s ∷ pieces
unfolding join split_on
split_on-join sep s [] h = rw (split_at-last sep s h.0)
split_on-join sep s (t ∷ pieces) h =
    cc (split_at-piece sep s (join sep (t ∷ pieces)) h.0, split_on-join sep t pieces h.1)

module _ (P : Text → Type 0) where
  insert_text-All : (s : Text) (ts : List Text) → P s → All P ts → All P (insert_text s ts)
  unfolding insert_text
  insert_text-All s [] p h = (p, tt)
  insert_text-All s (t ∷ ts) p h = elim (Bool-cases (text_le s t)) [
    | inl le ↦ rw le (p, h)
    | inr gt ↦ rw gt (h.0, insert_text-All s ts p h.1)
  ]

  pub sorted-All : (ts : List Text) → All P ts → All P (sorted ts)
  unfolding sorted
  sorted-All [] h = tt
  sorted-All (s ∷ ts) h = insert_text-All s (sorted ts) h.0 (sorted-All ts h.1)

-- A text without white space is not changed by `strip`.
abbrev pub Unspaced : Text → Type 0
Unspaced = All (λ c. is_space c ≡ false)

lstrip-Unspaced : (s : Text) → Unspaced s → lstrip s ≡ s
unfolding lstrip
lstrip-Unspaced [] h = refl
lstrip-Unspaced (c ∷ s) h = rw h.0

rstrip-Unspaced : (s : Text) → Unspaced s → rstrip s ≡ s
unfolding rstrip
rstrip-Unspaced [] h = refl
rstrip-Unspaced (c ∷ s) h = ground (arith, rstrip-Unspaced s h.1, h.0)

pub strip-Unspaced : (s : Text) → Unspaced s → strip s ≡ s
unfolding strip
strip-Unspaced s h = rw (lstrip-Unspaced s h) (rstrip-Unspaced s h)

-- The first character, if there is one, is no white space.
abbrev IsDark : Text → Type 0
IsDark [] = Unit {0}
IsDark (c ∷ s) = is_space c ≡ false

lstrip-IsDark : (s : Text) → IsDark (lstrip s)
unfolding lstrip
lstrip-IsDark [] = tt
lstrip-IsDark (c ∷ s) = elim (Bool-cases (is_space c)) [
  | inl space ↦ rw space (lstrip-IsDark s)
  | inr dark ↦ rw (dark, IsDark) dark
]

lstrip-dark : (s : Text) → IsDark s → lstrip (rstrip s) ≡ rstrip s
unfolding lstrip rstrip
lstrip-dark [] h = refl
lstrip-dark (c ∷ s) h = ground (arith, h)

rstrip-rstrip : (s : Text) → rstrip (rstrip s) ≡ rstrip s
unfolding rstrip
rstrip-rstrip [] = refl
rstrip-rstrip (c ∷ s) = ground (arith, rstrip-rstrip s)

pub strip-strip : (s : Text) → strip (strip s) ≡ strip s
unfolding strip
strip-strip s = rw (lstrip-dark (lstrip s) (lstrip-IsDark s)) (rstrip-rstrip (lstrip s))

-- In front of a stripped text a visible character may stand.
pub strip-cons : (c : ℕ) (s : Text) → is_space c ≡ false → strip (c ∷ strip s) ≡ c ∷ strip s
unfolding strip lstrip rstrip
strip-cons c s h = ground (arith, rstrip-rstrip (lstrip s))

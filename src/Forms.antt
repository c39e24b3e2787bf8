-- ===== src/Forms.antt =====
-- `dict(urllib.parse.parse_qsl(body.decode("utf-8", errors="replace")))`, which `check` of
-- src/slack_runtests/gate.py reads the form with.
use slack_runtests.Prelude.{
  List, Option, Text, Text-discrete, [], codes, if◌then◌else◌, is_empty, leb, ltb, map, none, refl,
  reverse, some, suc, zero, ℕ, ℕ_discrete, ◌&&◌, ◌*◌, ◌++◌, ◌+◌, ◌-◌, ◌==◌, ◌∷◌, ◌≡◌, text_eq,
  option_eq, int_eq, nat_eq,
}
use slack_runtests.Strings.{is_digit, join, split_at, split_on}
use slack_runtests.Python.{Bytes}

-- Where the UTF-8 decoder stands: at the start of a character, or inside one, with the number of
-- bytes that are still to come, the bounds of the next one and the bits so far.
pub data Utf8 : Type 0 where
  start : Utf8
  inside : ℕ → ℕ → ℕ → ℕ → Utf8

abbrev pub replacement : ℕ
replacement = 0xfffd

pub begin : ℕ → Text × Utf8
begin b =
    if ltb b 0x80
    then (b ∷ [], start)
    else if ltb b 0xc2
    then (replacement ∷ [], start)
    else if ltb b 0xe0
    then ([], inside 0 0x80 0xbf (b - 0xc0))
    else if b == 0xe0
    then ([], inside 1 0xa0 0xbf 0)
    else if b == 0xed
    then ([], inside 1 0x80 0x9f 13)
    else if ltb b 0xf0
    then ([], inside 1 0x80 0xbf (b - 0xe0))
    else if b == 0xf0
    then ([], inside 2 0x90 0xbf 0)
    else if ltb b 0xf4
    then ([], inside 2 0x80 0xbf (b - 0xf0))
    else if b == 0xf4
    then ([], inside 2 0x80 0x8f 4)
    else (replacement ∷ [], start)

-- A byte: what is read, and where the decoder stands then. A byte that does not fit is read again
-- as the first one of a character.
pub decode_step : Utf8 → ℕ → Text × Utf8
unfolding begin
decode_step start b = begin b
decode_step (inside n lo hi bits) b =
    if leb lo b && leb b hi
    then (elim n [
      | zero ↦ ((bits * 64 + (b - 0x80)) ∷ [], start)
      | suc m ↦ ([], inside m 0x80 0xbf (bits * 64 + (b - 0x80)))
    ])
    else (replacement ∷ (begin b).0, (begin b).1)

-- `decode("utf-8", errors="replace")`
pub decode : Utf8 → Bytes → Text
unfolding decode_step
decode start [] = []
decode (inside n lo hi bits) [] = replacement ∷ []
decode state (b ∷ bytes) = let (read, state') = decode_step state b in read ++ decode state' bytes

-- The value of a hexadecimal digit.
hex_digit : ℕ → Option ℕ
unfolding is_digit
hex_digit c =
    if is_digit c
    then some (c - b'0')
    else if leb b'a' c && leb c b'f'
    then some (c - b'a' + 10)
    else if leb b'A' c && leb c b'F'
    then some (c - b'A' + 10)
    else none

-- The byte of two hexadecimal digits.
hex_byte : ℕ → ℕ → Option ℕ
unfolding hex_digit
hex_byte c d = elim (hex_digit c) [
  | none ↦ none
  | some high ↦ elim (hex_digit d) [ none ↦ none | some low ↦ some (high * 16 + low) ]
]

-- `unquote(text)`: the bytes of a run of ASCII characters are decoded together; `run` has those of
-- the run so far, the last one first.
unquote_run : Bytes → Text → Text
unfolding decode hex_byte
unquote_run run [] = decode start (reverse run)
unquote_run run (c ∷ []) =
    if ltb c 128 then decode start (reverse (c ∷ run)) else decode start (reverse run) ++ c ∷ []
unquote_run run (c ∷ d ∷ []) =
    let plain = unquote_run (c ∷ run) (d ∷ []) in
    let other = unquote_run [] (d ∷ []) in
    if ltb c 128 then plain else decode start (reverse run) ++ c ∷ other
unquote_run run (c ∷ d ∷ e ∷ s) =
    let plain = unquote_run (c ∷ run) (d ∷ e ∷ s) in
    let other = unquote_run [] (d ∷ e ∷ s) in
    let quoted : Option Text = elim (hex_byte d e) [
      | none ↦ none
      | some b ↦ some (unquote_run (b ∷ run) s)
    ] in
    if c == b'%'
    then (elim quoted [ none ↦ plain | some t ↦ t ])
    else if ltb c 128
    then plain
    else decode start (reverse run) ++ c ∷ other

pub unquote : Text → Text
unfolding unquote_run
unquote s = unquote_run [] s

plus_to_space : Text → Text
plus_to_space = map (λ c. if c == b'+' then b' ' else c)

-- `nv = name_value.split("=", 1)`; a pair without a value is left out.
pair_of : Text → Option (Text × Text)
unfolding split_at join
pair_of field =
    let (name, parts) = split_at b'=' field in
    elim parts [
      | [] ↦ none
      | value ∷ more ↦
          if is_empty (join b'=' (value ∷ more))
          then none
          else some (name, join b'=' (value ∷ more))
    ]

abbrev pub Form : Type 0
Form = List (Text × Text)

decoded : List Text → Form
unfolding pair_of unquote plus_to_space
decoded [] = []
decoded (field ∷ fields) =
    let rest = decoded fields in
    elim (pair_of field) [
      | none ↦ rest
      | some (name, value) ↦ (unquote (plus_to_space name), unquote (plus_to_space value)) ∷ rest
    ]

unfoldable pub parse_form : Bytes → Form
unfolding decode decoded split_on
parse_form body = decoded (split_on b'&' (decode start body))

-- `form.get(name)`: the last of the values counts.
unfoldable pub get : Text → Form → Option Text
get name [] = none
get name ((key, value) ∷ form) =
    let later = get name form in
    elim later [ none ↦ if key == name then some value else none | some v ↦ some v ]

slack_form :
    (get (codes "text") (parse_form (codes "team_id=T1&text=-p+webapp+-k+%22a%20b%22&x="))
      ≡ some (codes "-p webapp -k \"a b\""))
    × (get (codes "x") (parse_form (codes "team_id=T1&x=")) ≡ none)
    × (parse_form (codes "a=%C3%A9%ff") ≡ (codes "a", 233 ∷ 0xfffd ∷ []) ∷ [])
unfolding get parse_form ℕ_discrete Text-discrete
slack_form = (refl, refl, refl)

-- ===== src/Gate/Names.antt =====
-- The allowlists of src/slack_runtests/gate.py are frozensets: lists of names, up to order and
-- repetition.
use mathlib.Core.Quot
use mathlib.Core.Quot.{Quot}
use mathlib.Core.Bool.{Bool-set}
use slack_runtests.Prelude.{
  Bool, List, Option, Text, [], ap, arith, codes, contains, is_empty, none, not, refl, some, true,
  ℕ, ◌&&◌, ◌∷◌, ◌≡◌, nat_eq, text_eq, int_eq, option_eq,
}
use slack_runtests.Gate.{Headers, Settings, check, check_form, is_outside, objection}
use slack_runtests.Python.{Bytes}
use slack_runtests.Forms.{Form, get, parse_form}

-- Two lists have the same names.
abbrev pub SameNames : List Text → List Text → Type 0
SameNames l l' = (x : Text) → contains l x ≡ contains l' x

SameNames-is_empty : (l l' : List Text) → SameNames l l' → is_empty l ≡ is_empty l'
SameNames-is_empty [] [] h = refl
SameNames-is_empty [] (y ∷ l') h = ground (arith, h y)
SameNames-is_empty (x ∷ l) [] h = ground (arith, h x)
SameNames-is_empty (x ∷ l) (y ∷ l') h = refl

-- A list that is set and lacks the value.
abbrev pub bars : List Text → Option Text → Bool
bars l v = not (is_empty l) && is_outside l v

bars-SameNames : (l l' : List Text) (v : Option Text) → SameNames l l' → bars l v ≡ bars l' v
bars-SameNames l l' none h = ap (λ b. not b && true) (SameNames-is_empty l l' h)
bars-SameNames l l' (some x) h = rw (SameNames-is_empty l l' h, h x) refl

-- A frozenset of names.
abbrev pub Names : Type 0
Names = Quot SameNames

-- What the gate asks of a frozenset.
barred : Option Text → Names → Bool
barred v = Quot.lift Bool-set (λ l. bars l v) (λ l l' h. bars-SameNames l l' v h)

barred-bars : (l : List Text) (v : Option Text) → barred v (Quot.mk l) ≡ bars l v
unfolding barred
barred-bars l v = refl

objection-SameNames :
    (s : Settings) (l l' u u' : List Text) (form : Form)
    → SameNames l l'
    → SameNames u u'
    → objection (record s { allowed_channels = l; allowed_users = u }) form
      ≡ objection (record s { allowed_channels = l'; allowed_users = u' }) form
unfolding objection
objection-SameNames s l l' u u' form channels users =
    rw
      (
        bars-SameNames l l' (get (codes "channel_id") form) channels,
        bars-SameNames u u' (get (codes "user_id") form) users,
      )
      refl

module _ (hmac_hex : Bytes → Bytes → Text) where
  -- What the gate answers depends only on which channels and which people are on the lists, not on
  -- the order in which they are listed, nor on how often.
  pub check-SameNames :
      (body : Bytes) (headers : Headers) (s : Settings) (l l' u u' : List Text) (now : ℕ)
      → SameNames l l'
      → SameNames u u'
      → check hmac_hex body headers (record s { allowed_channels = l; allowed_users = u }) now
        ≡ check hmac_hex body headers (record s { allowed_channels = l'; allowed_users = u' }) now
  unfolding check check_form
  check-SameNames body headers s l l' u u' now channels users =
      rw (objection-SameNames s l l' u u' (parse_form body) channels users) refl

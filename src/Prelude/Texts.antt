-- ===== src/Prelude/Texts.antt =====
-- Texts as lists of code points, in place of Python's `str` and `bytes`.
use Prim.Native.Nat.{ℕ}
use Prim.Native.Char.{code}
use Prim.Native.String.{String}
use mathlib.Core.Bool.{Bool, true, ◌&&◌}
use mathlib.Core.Option.{Option, none, some}
use mathlib.Core.List.{List, [], ◌∷◌}
use native.Mathlib.Decide.{ℕ_discrete}
use slack_runtests.Prelude.Tests.{Eq, if◌then◌else◌}
use slack_runtests.Prelude.Lists.{is_empty}

abbrev pub Text : Type 0
Text = List ℕ

-- The code points of a literal.
abbrev pub codes : String → Text
codes String.[] = []
codes (String.◌∷◌ c s) = code c ∷ codes s

unfoldable pub Text-discrete : Discrete Text
unfolding ℕ_discrete
Text-discrete = hlevel ℕ_discrete

instance abbrev pub text_eq : Eq Text
text_eq = record { discrete = Text-discrete }

abbrev pub all_chars : (ℕ → Bool) → Text → Bool
all_chars p [] = true
all_chars p (c ∷ s) = p c && all_chars p s

-- `d[key]` with a default for a key that is absent, and `a or b` for a text that may be absent.
abbrev pub or_default : Option Text → Text → Text
or_default none d = d
or_default (some t) d = t

abbrev pub or_else : Option Text → Text → Text
or_else none b = b
or_else (some a) b = if is_empty a then b else a

-- ===== src/Edge/Trusted/Tests.antt =====
-- The directory of the pre-authorised keys, at concrete files.
use slack_runtests.Prelude.{
  Bool, Bool-cases, Text, [], arith, codes, false, if◌then◌else◌, inl, inr, none, refl, ℕ, ◌++◌,
  ◌==◌, ◌∷◌, ◌≡◌, ◌⊎◌, option_eq, nat_eq, int_eq, text_eq,
}
use slack_runtests.Edge.Trusted.{IsPlain, preauthorised_key, preauthorised_key-IsPlain}
use slack_runtests.Python.{Result, ok, os_error, raised}

abbrev plain : ℕ → Bool
plain d = false

-- A directory with one key, and the same beside a file that no name of a test server reaches.
abbrev one_key : Text → Result Text
one_key name = if name == codes "lab-1.pub" then ok (codes "k\n") else raised os_error

abbrev two_files : Text → Result Text
two_files name = if name == codes "../lab-1.pub" then ok (codes "root") else one_key name

first-injective : (c d : ℕ) (s t : Text) → ◌≡◌ {A = Text} (c ∷ s) (d ∷ t) → c ≡ d
first-injective c d s t e = cc

agree : (s : Text) → IsPlain plain s → one_key (s ++ codes ".pub") ≡ two_files (s ++ codes ".pub")
agree [] p = cc p.full
agree (c ∷ s) p = elim (Bool-cases ((c ∷ s ++ codes ".pub") == codes "../lab-1.pub")) [
  | inl same ↦ absurd (
      p.dotless.0
        (first-injective c b'.' (s ++ codes ".pub") (codes "./lab-1.pub") (ground (arith, same))))
  | inr differs ↦ rw differs refl
]

preauthorised_key-IsPlain_example :
    (preauthorised_key plain one_key (codes "lab-1")
      ≡ preauthorised_key plain two_files (codes "lab-1"))
    × ((preauthorised_key plain one_key (codes "lab-1") ≡ ok none) ⊎ IsPlain plain (codes "lab-1"))
preauthorised_key-IsPlain_example =
    preauthorised_key-IsPlain plain one_key two_files agree (codes "lab-1")

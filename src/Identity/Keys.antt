-- ===== src/Identity/Keys.antt =====
-- `load_or_create` of src/slack_runtests/identity.py, on the file of the private key.
use slack_runtests.Prelude.{
  Bool-cases, Option, Option-cases, arith, if◌then◌else◌, inl, inr, none, not, refl, some, subst, ℕ,
  ℕ_discrete, ◌%◌, ◌==◌, ◌≡◌, nat_eq, option_eq, text_eq, int_eq,
}
use slack_runtests.Identity.{Crypto}
use slack_runtests.Python.{Bytes, Result, ok, os_error, raised, value_error}

-- A file: its permission bits and its bytes.
pub record KeyFile : Type 0 where
  pub mode : ℕ
  pub content : Bytes

-- `pem` and `load_pem` are the serialization of the keys; `load_pem` is none where it raises.
-- `granted` is the mode that the system gives a file for which 0600 is asked.
module _ (c : Crypto) (pem : c.Key → Bytes) (load_pem : Bytes → Option c.Key) (granted : ℕ) where
  -- `load_or_create`, where `mode & 0o077` is not zero if 64 does not divide the mode: the file afterwards, and the key; `generated` is a new key.
  unfoldable pub load_or_create : Option KeyFile → c.Key → Result (KeyFile × c.Key)
  load_or_create (some file) generated =
      if not (file.mode % 64 == 0)
      then raised os_error
      else elim (load_pem file.content) [ none ↦ raised value_error | some key ↦ ok (file, key) ]
  load_or_create none generated = ok (record { mode = granted; content = pem generated }, generated)

  -- What was loaded is private, and is loaded again.
  abbrev IsKept : c.Key → Result (KeyFile × c.Key) → Type 0
  IsKept later (ok (kept, key)) =
      (kept.mode % 64 ≡ 0) × (load_or_create (some kept) later ≡ ok (kept, key))
  IsKept later (raised x) = Unit

  load_or_create-IsKept :
      (file : Option KeyFile) (generated later : c.Key)
      → granted % 64 ≡ 0
      → ((k : c.Key) → load_pem (pem k) ≡ some k)
      → IsKept later (load_or_create file generated)
  unfolding load_or_create ℕ_discrete
  load_or_create-IsKept none generated later private readable =
      (private, rw (private, readable generated) refl)
  load_or_create-IsKept (some file) generated later private readable =
      elim (Bool-cases (file.mode % 64 == 0)) [
        | inr open_to_all ↦ rw open_to_all tt
        | inl closed ↦ elim (Option-cases (load_pem file.content)) [
          | inl unread ↦ rw (closed, unread) tt
          | inr (key, loaded) ↦
              rw (closed, loaded) (ground (arith, closed), rw (closed, loaded) refl)
        ]
      ]

  -- A key that is read is that of a file which neither group nor others may read; and the key that
  -- was made at the first start is read again at each later one, and the file stays as it is.
  pub load_or_create-again :
      (file : Option KeyFile) (generated later : c.Key) (kept : KeyFile) (key : c.Key)
      → granted % 64 ≡ 0
      → ((k : c.Key) → load_pem (pem k) ≡ some k)
      → load_or_create file generated ≡ ok (kept, key)
      → (kept.mode % 64 ≡ 0) × (load_or_create (some kept) later ≡ ok (kept, key))
  load_or_create-again file generated later kept key private readable loaded =
      subst (IsKept later) loaded (load_or_create-IsKept file generated later private readable)

-- ===== src/Parsing/Fuel.antt =====
-- The parser: its loop over the arguments ends by itself.
use slack_runtests.Prelude.{
  Bool, List, Option, [], arith, false, length, none, refl, some, suc, true, zero, ℕ, ◌<◌, ◌∷◌, ◌≡◌,
  ◌≤◌,
}
use slack_runtests.Parsing.{
  Given, Item, and_then, consume, dashes, flag, skip_dashes, store, store_action, unknown, value,
}

skip_dashes-length-le : (items : List Item) → length (skip_dashes items) ≤ length items
unfolding skip_dashes
skip_dashes-length-le [] = omega arith
skip_dashes-length-le (dashes ∷ items) = omega arith
skip_dashes-length-le (flag f v ∷ items) = omega arith
skip_dashes-length-le (value v ∷ items) = omega arith
skip_dashes-length-le (unknown ∷ items) = omega arith

and_then-same :
    (o : Option Given) (f f' : Given → Option Given)
    → ((g : Given) → f g ≡ f' g)
    → and_then o f ≡ and_then o f'
and_then-same none f f' h = refl
and_then-same (some g) f f' h = h g

-- The loop over the arguments gives the same with any two amounts of fuel that exceed their
-- number, so the fuel that `parse_args` hands to it is enough.
pub consume-fuel :
    (n m : ℕ) (is_open : Bool) (items : List Item) (g : Given)
    → length items < n
    → length items < m
    → consume n is_open items g ≡ consume m is_open items g
unfolding consume
consume-fuel zero m is_open items g h k = absurd (omega arith)
consume-fuel (suc n) zero is_open items g h k = absurd (omega arith)
consume-fuel (suc n) (suc m) is_open [] g h k = refl
consume-fuel (suc n) (suc m) is_open (flag f (some v) ∷ items) g h k =
    and_then-same (store f v g) _ _
      (λ g'. consume-fuel n m is_open items g' (omega arith) (omega arith))
consume-fuel (suc n) (suc m) is_open (flag f none ∷ value v ∷ items) g h k =
    and_then-same (store f v g) _ _
      (λ g'. consume-fuel n m is_open items g' (omega arith) (omega arith))
consume-fuel (suc n) (suc m) true (value v ∷ items) g h k =
    and_then-same (store_action v g) _ _ (λ g'.
      consume-fuel n m false (skip_dashes items) g' (omega (arith, skip_dashes-length-le items))
        (omega (arith, skip_dashes-length-le items)))
consume-fuel (suc n) (suc m) true (dashes ∷ items) g h k =
    consume-fuel n m true items g (omega arith) (omega arith)
consume-fuel (suc n) (suc m) is_open _ g h k = refl

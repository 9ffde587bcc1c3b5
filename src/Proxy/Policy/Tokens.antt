-- ===== src/Proxy/Policy/Tokens.antt =====
-- The parts of all values of a header, in order: what the nested loops over values and their parts
-- go through.
use squiddish.Prelude.{
  ◌≡◌, ◌↔◌, refl, Bool, false, ◌||◌, Option, none, some, List, [], ◌∷◌, ◌++◌, any, arith, All,
}
use squiddish.Text.{Bytes, split}
use squiddish.Proxy.Http.{Http}
use squiddish.Proxy.Policy.{any_part, any_directive}

abbrev pub parts_of : Option Bytes → List Bytes
parts_of none = []
parts_of (some value) = split b',' value

module _ (lib : Http) where
  abbrev pub all_parts : List lib.Value → List Bytes
  all_parts [] = []
  all_parts (v ∷ vs) = parts_of (lib.to_str v) ++ all_parts vs

pub any-append {ℓ} :
    {A : Type ℓ} (f : A → Bool) (xs ys : List A) → any f (xs ++ ys) ≡ (any f xs || any f ys)
any-append f [] ys = refl
any-append f (x ∷ xs) ys = ground (arith, any-append f xs ys)

-- a test fails on every element
pub any-false {ℓ} :
    {A : Type ℓ} (f : A → Bool) (xs : List A) → (any f xs ≡ false) ↔ All (λ x. f x ≡ false) xs
any-false f [] = (λ _. tt, λ _. refl)
any-false f (x ∷ xs) = (
  λ h. (ground arith, (any-false f xs).0 (ground arith)),
  λ h. ground (arith, h.0, (any-false f xs).1 h.1),
)

module _ (lib : Http) where
  any_part-parts_of :
      (test : Bytes → Bool) (o : Option Bytes) → any_part lib test o ≡ any test (parts_of o)
  unfolding any_part
  any_part-parts_of test none = refl
  any_part-parts_of test (some value) = refl

  pub any_directive-all_parts :
      (test : Bytes → Bool) (vs : List lib.Value)
      → any_directive lib test vs ≡ any test (all_parts lib vs)
  unfolding any_directive
  any_directive-all_parts test [] = refl
  any_directive-all_parts test (v ∷ vs) = rw (
    any_part-parts_of test (lib.to_str v),
    any-append test (parts_of (lib.to_str v)) (all_parts lib vs),
    ← any_directive-all_parts test vs,
  )

-- ===== src/Cache/Key/Examples.antt =====
-- An example of the theorem on what is hashed.
use squiddish.Prelude.{◌≡◌, refl, [], ◌∷◌, arith}
use squiddish.Text.{Bytes, codes}
use squiddish.Cache.Key.Encoding.{IsPlain, key_bytes_injective}

abbrev accept : Bytes × Bytes
accept = (codes "accept", codes "a:b")

accept-IsPlain : IsPlain accept
accept-IsPlain = record {
  name_nul = omega arith;
  name_colon = omega arith;
  value_nul = omega arith;
}

key_bytes_injective_example :
    (codes "GET" ≡ codes "GET") × (codes "/a" ≡ codes "/a") × (accept ∷ [] ≡ accept ∷ [])
key_bytes_injective_example =
    key_bytes_injective (codes "GET") (codes "GET") (codes "/a") (codes "/a") (accept ∷ [])
      (accept ∷ []) (omega arith) (omega arith) (omega arith) (omega arith) (accept-IsPlain, tt)
      (accept-IsPlain, tt) refl

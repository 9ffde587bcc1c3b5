-- ===== src/Cache/Key/Encoding.antt =====
-- What the hasher is fed tells the method, the URI and the headers apart.
use squiddish.Prelude.{
  append-nil, ◌≡◌, refl, sym, ap, ◌∙◌, Option, some, none, List, [], ◌∷◌, ◌++◌, All,
}
use squiddish.Text.{Bytes, split_once}
use squiddish.Text.Cuts.{Lacks, split_once-append, split_once-none}
use squiddish.Cache.Key.{vary_bytes, key_bytes}

-- a header whose name has neither NUL nor a colon, and whose value has no NUL
pub record IsPlain (header : Bytes × Bytes) : Type 0 where
  pub name_nul : Lacks 0 header.0
  pub name_colon : Lacks b':' header.0
  pub value_nul : Lacks 0 header.1

-- up to the first NUL, or all
first_part : Bytes → Option (Bytes × Bytes) → Bytes
first_part s none = s
first_part s (some (a, b)) = a

rest_part : Option (Bytes × Bytes) → Bytes
rest_part none = []
rest_part (some (a, b)) = 0 ∷ b

-- a text without NUL and what is behind it are both told by their concatenation
parts :
    (a : Bytes) (headers : List (Bytes × Bytes))
    → Lacks 0 a
    → (first_part (a ++ vary_bytes headers) (split_once 0 (a ++ vary_bytes headers)) ≡ a)
      × (rest_part (split_once 0 (a ++ vary_bytes headers)) ≡ vary_bytes headers)
unfolding vary_bytes first_part rest_part
parts a [] l = rw (append-nil a, split_once-none 0 a l) (refl, refl)
parts a ((name, value) ∷ headers) l =
    rw (split_once-append 0 a (name ++ b':' ∷ (value ++ vary_bytes headers)) l) (refl, refl)

cut :
    (a a' : Bytes) (headers headers' : List (Bytes × Bytes))
    → Lacks 0 a
    → Lacks 0 a'
    → a ++ vary_bytes headers ≡ a' ++ vary_bytes headers'
    → (a ≡ a') × (vary_bytes headers ≡ vary_bytes headers')
cut a a' headers headers' l l' e =
    let (p, q) = parts a headers l in
    let (p', q') = parts a' headers' l' in
    (
      sym p ∙ ap (λ s. first_part s (split_once 0 s)) e ∙ p',
      sym q ∙ ap (λ s. rest_part (split_once 0 s)) e ∙ q',
    )

tail : Bytes → Bytes
tail [] = []
tail (c ∷ s) = s

vary_bytes_injective :
    (headers headers' : List (Bytes × Bytes))
    → All IsPlain headers
    → All IsPlain headers'
    → vary_bytes headers ≡ vary_bytes headers'
    → headers ≡ headers'
unfolding vary_bytes tail
vary_bytes_injective [] [] h h' e = refl
vary_bytes_injective [] (header ∷ headers') h h' e = cc
vary_bytes_injective (header ∷ headers) [] h h' e = cc
vary_bytes_injective ((name, value) ∷ headers) ((name', value') ∷ headers') (p, h) (p', h') e =
    let cuts =
      sym (split_once-append b':' name (value ++ vary_bytes headers) p.name_colon)
      ∙ ap (λ s. split_once b':' (tail s)) e
      ∙ split_once-append b':' name' (value' ++ vary_bytes headers') p'.name_colon in
    let same_name : name ≡ name' = cc in
    let (same_value, rest) = cut value value' headers headers' p.value_nul p'.value_nul cc in
    let same_headers = vary_bytes_injective headers headers' h h' rest in
    λ i. (same_name i, same_value i) ∷ same_headers i

-- For methods and URIs without NUL, and headers whose names have neither NUL nor a colon and whose
-- values have no NUL, the bytes that are hashed determine the method, the URI and the headers.
pub key_bytes_injective :
    (method method' uri uri' : Bytes) (vary_headers vary_headers' : List (Bytes × Bytes))
    → Lacks 0 method
    → Lacks 0 method'
    → Lacks 0 uri
    → Lacks 0 uri'
    → All IsPlain vary_headers
    → All IsPlain vary_headers'
    → key_bytes method uri vary_headers ≡ key_bytes method' uri' vary_headers'
    → (method ≡ method') × (uri ≡ uri') × (vary_headers ≡ vary_headers')
unfolding key_bytes
key_bytes_injective method method' uri uri' vary_headers vary_headers' m m' u u' h h' e =
    let cuts =
      sym (split_once-append 0 method (uri ++ vary_bytes vary_headers) m)
      ∙ ap (split_once 0) e
      ∙ split_once-append 0 method' (uri' ++ vary_bytes vary_headers') m' in
    let (same_uri, rest) = cut uri uri' vary_headers vary_headers' u u' cc in
    (cc, same_uri, vary_bytes_injective vary_headers vary_headers' h h' rest)

-- ===== src/Text/Laws.antt =====
-- Laws of the text functions.
use squiddish.Prelude.{
  Option-cases, sym, ℕ, ◌≡◌, ◌↔◌, refl, ap, inl, inr, Bool, true, some, List, [], ◌∷◌, ◌++◌, arith,
  or-true, any,
}
use squiddish.Text.{
  Bytes, lowercase, bytes_eq, eq_ignore_ascii_case, strip_prefix, starts_with, contains, ends_with,
}

pub bytes_eq_sound : (s t : Bytes) → bytes_eq s t ≡ true → s ≡ t
unfolding bytes_eq
bytes_eq_sound [] [] h = refl
bytes_eq_sound [] (b ∷ t) h = cc
bytes_eq_sound (a ∷ s) [] h = cc
bytes_eq_sound (a ∷ s) (b ∷ t) h = ground (arith, bytes_eq_sound s t)

pub bytes_eq_refl : (s : Bytes) → bytes_eq s s ≡ true
unfolding bytes_eq
bytes_eq_refl [] = refl
bytes_eq_refl (a ∷ s) = ground (arith, bytes_eq_refl s)

pub bytes_eq_iff : (s t : Bytes) → (bytes_eq s t ≡ true) ↔ (s ≡ t)
bytes_eq_iff s t = (bytes_eq_sound s t, λ e. rw e (bytes_eq_refl t))

pub eq_ignore_iff : (s t : Bytes) → (eq_ignore_ascii_case s t ≡ true) ↔ (lowercase s ≡ lowercase t)
unfolding eq_ignore_ascii_case
eq_ignore_iff s t = bytes_eq_iff (lowercase s) (lowercase t)

pub lowercase_idem : (s : Bytes) → lowercase (lowercase s) ≡ lowercase s
unfolding lowercase
lowercase_idem [] = refl
lowercase_idem (c ∷ s) = ground (arith, lowercase_idem s)

pub strip_prefix_sound : (p s r : Bytes) → strip_prefix p s ≡ some r → s ≡ p ++ r
unfolding strip_prefix
strip_prefix_sound [] s r h = ground arith
strip_prefix_sound (p ∷ ps) [] r h = cc
strip_prefix_sound (p ∷ ps) (c ∷ s) r h = ground (arith, strip_prefix_sound ps s r)

pub strip_prefix-append : (p r : Bytes) → strip_prefix p (p ++ r) ≡ some r
unfolding strip_prefix
strip_prefix-append [] r = refl
strip_prefix-append (p ∷ ps) r = ground (arith, strip_prefix-append ps r)

pub starts_with-append : (p r : Bytes) → starts_with p (p ++ r) ≡ true
unfolding starts_with
starts_with-append p r = rw (strip_prefix-append p r)

-- `contains` decides whether the needle is a part of the text.
abbrev pub IsInfix : Bytes → Bytes → Type 0
IsInfix needle s = (a : Bytes) × (b : Bytes) × (s ≡ a ++ needle ++ b)

abbrev pub IsSuffix : Bytes → Bytes → Type 0
IsSuffix suffix s = (a : Bytes) × (s ≡ a ++ suffix)

starts_with_sound : (p s : Bytes) → starts_with p s ≡ true → (r : Bytes) × (s ≡ p ++ r)
unfolding starts_with
starts_with_sound p s h = elim (Option-cases (strip_prefix p s)) [
  | inl e ↦ absurd (ground arith)
  | inr (r, e) ↦ (r, strip_prefix_sound p s r e)
]

cons_infix : (c : ℕ) (needle s : Bytes) → IsInfix needle s → IsInfix needle (c ∷ s)
cons_infix c needle s (a, b, e) = (c ∷ a, b, ap (◌∷◌ c) e)

pub contains_sound : (needle s : Bytes) → contains needle s ≡ true → IsInfix needle s
unfolding contains
contains_sound needle [] h = let (r, e) = starts_with_sound needle [] h in ([], r, e)
contains_sound needle (c ∷ s) h = elim (or-true _ _ h) [
  | inl here ↦ let (r, e) = starts_with_sound needle (c ∷ s) here in ([], r, e)
  | inr later ↦ cons_infix c needle s (contains_sound needle s later)
]

contains-prefix : (needle b : Bytes) → contains needle (needle ++ b) ≡ true
unfolding contains
contains-prefix [] [] = starts_with-append [] []
contains-prefix [] (c ∷ b) = rw (starts_with-append [] (c ∷ b))
contains-prefix (n ∷ ns) b = rw (starts_with-append (n ∷ ns) b)

pub contains-append : (a needle b : Bytes) → contains needle (a ++ needle ++ b) ≡ true
unfolding contains
contains-append [] needle b = contains-prefix needle b
contains-append (c ∷ a) needle b = ground (arith, contains-append a needle b)

pub contains_iff : (needle s : Bytes) → (contains needle s ≡ true) ↔ IsInfix needle s
contains_iff needle s = (contains_sound needle s, λ (a, b, e). rw e (contains-append a needle b))

pub ends_with_sound : (suffix s : Bytes) → ends_with suffix s ≡ true → IsSuffix suffix s
unfolding ends_with
ends_with_sound suffix [] h = ([], sym (bytes_eq_sound suffix [] h))
ends_with_sound suffix (c ∷ s) h = elim (or-true _ _ h) [
  | inl here ↦ ([], sym (bytes_eq_sound suffix (c ∷ s) here))
  | inr later ↦ let (a, e) = ends_with_sound suffix s later in (c ∷ a, ap (◌∷◌ c) e)
]

ends_with_refl : (suffix : Bytes) → ends_with suffix suffix ≡ true
unfolding ends_with
ends_with_refl [] = bytes_eq_refl []
ends_with_refl (c ∷ s) = rw (bytes_eq_refl (c ∷ s))

pub ends_with-append : (a suffix : Bytes) → ends_with suffix (a ++ suffix) ≡ true
unfolding ends_with
ends_with-append [] suffix = ends_with_refl suffix
ends_with-append (c ∷ a) suffix = ground (arith, ends_with-append a suffix)

pub ends_with_iff : (suffix s : Bytes) → (ends_with suffix s ≡ true) ↔ IsSuffix suffix s
ends_with_iff suffix s = (ends_with_sound suffix s, λ (a, e). rw e (ends_with-append a suffix))

-- `any` with a test that decides a predicate
pub any_mono {ℓ} :
    {A : Type ℓ} (f g : A → Bool) (xs : List A)
    → ((x : A) → f x ≡ true → g x ≡ true)
    → any f xs ≡ true
    → any g xs ≡ true
any_mono f g [] k h = cc
any_mono f g (x ∷ xs) k h = ground (arith, k x, any_mono f g xs k)

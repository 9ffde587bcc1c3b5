-- ===== src/Apt/Classes.antt =====
-- What the tests of src/apt.rs decide, and how the classes of requests lie in one another.
use squiddish.Prelude.{
  ◌≡◌, ◌⊎◌, inl, inr, true, ◌||◌, List, [], ◌∷◌, any, arith, Bool-cases, or-true, and-true,
}
use squiddish.Text.{Bytes, codes, contains}
use squiddish.Text.Laws.{IsInfix, IsSuffix, contains_iff, ends_with_iff}
use squiddish.Apt.{
  apt_hosts, apt_dirs, apt_files, list_patterns, is_apt_request, is_apt_package_list,
  is_apt_package_file,
}

-- one of the listed texts is a part of the URI
abbrev pub HasOneOf : List Bytes → Bytes → Type 0
HasOneOf [] uri = ⊥
HasOneOf (p ∷ ps) uri = IsInfix p uri ⊎ HasOneOf ps uri

any_sound : (ps : List Bytes) (uri : Bytes) → any (λ p. contains p uri) ps ≡ true → HasOneOf ps uri
any_sound [] uri h = cc
any_sound (p ∷ ps) uri h = elim (or-true _ _ h) [
  | inl here ↦ inl ((contains_iff p uri).0 here)
  | inr later ↦ inr (any_sound ps uri later)
]

any_complete :
    (ps : List Bytes) (uri : Bytes) → HasOneOf ps uri → any (λ p. contains p uri) ps ≡ true
any_complete [] uri h = absurd h
any_complete (p ∷ ps) uri (inl here) = rw ((contains_iff p uri).1 here)
any_complete (p ∷ ps) uri (inr later) = ground (arith, any_complete ps uri later)

abbrev pub IsAptRequest : Bytes → Type 0
IsAptRequest uri =
    HasOneOf apt_hosts uri
    ⊎ HasOneOf apt_dirs uri
    ⊎ HasOneOf apt_files uri
    ⊎ IsSuffix (codes ".deb") uri

request_complete : (uri : Bytes) → IsAptRequest uri → is_apt_request uri ≡ true
unfolding is_apt_request
request_complete uri (inl a) = rw (any_complete apt_hosts uri a)
request_complete uri (inr (inl b)) = ground (arith, any_complete apt_dirs uri b)
request_complete uri (inr (inr (inl c))) = ground (arith, any_complete apt_files uri c)
request_complete uri (inr (inr (inr d))) = ground (arith, (ends_with_iff (codes ".deb") uri).1 d)

list-HasOneOf : (uri : Bytes) → HasOneOf list_patterns uri → HasOneOf apt_files uri
list-HasOneOf uri (inl a) = inl a
list-HasOneOf uri (inr (inl a)) = inr (inl a)
list-HasOneOf uri (inr (inr (inl a))) = inr (inr (inl a))
list-HasOneOf uri (inr (inr (inr (inl a)))) = inr (inr (inr (inr (inl a))))
list-HasOneOf uri (inr (inr (inr (inr a)))) = absurd a

package_list-IsAptRequest : (uri : Bytes) → is_apt_package_list uri ≡ true → IsAptRequest uri
unfolding is_apt_package_list
package_list-IsAptRequest uri h = elim (Bool-cases (any (λ p. contains p uri) list_patterns)) [
  | inl a ↦ inr (inr (inl (list-HasOneOf uri (any_sound list_patterns uri a))))
  | inr a ↦
      let dists : contains (codes "/dists/") uri ≡ true = (and-true _ _ (rw a at h)).0 in
      inr (inl (inl ((contains_iff (codes "/dists/") uri).0 dists)))
]

-- Every URI that is classed as a package file or as a package list is classed as an APT request,
-- so neither of the two special lifetimes is out of reach behind the first test.
pub special-is_apt_request :
    (uri : Bytes)
    → (is_apt_package_file uri || is_apt_package_list uri) ≡ true
    → is_apt_request uri ≡ true
unfolding is_apt_package_file
special-is_apt_request uri h = elim (or-true _ _ h) [
  | inl file ↦ request_complete uri (inr (inr (inr ((ends_with_iff (codes ".deb") uri).0 file))))
  | inr list ↦ request_complete uri (package_list-IsAptRequest uri list)
]

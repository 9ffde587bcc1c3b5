-- ===== src/Proxy/Policy/Lifetime.antt =====
-- The lifetime that a response states: the last readable "s-maxage" of all Cache-Control headers,
-- else the last readable "max-age", else Expires.
use squiddish.Prelude.{
  ℕ, ◌≡◌, refl, sym, Option, none, some, List, [], ◌∷◌, ◌++◌, arith, Option-cases, inl, inr,
}
use squiddish.Text.{Bytes, codes, lowercase, trim, strip_prefix, parse_uint}
use squiddish.Proxy.Http.{Http, first}
use squiddish.Proxy.Policy.{
  u64_max, read_directive, read_s_maxage, read_max_age, read_parts, read_value, read_values,
  keep_or, choose_ttl, expires_ttl, parse_cache_control_headers,
}
use squiddish.Proxy.Policy.Tokens.{parts_of, all_parts}

-- the number behind a name and "=", if the part is that and a number that fits
abbrev pub number_of : Option Bytes → Option ℕ
number_of none = none
number_of (some digits) = parse_uint u64_max digits

abbrev pub age_of : Bytes → Bytes → Option ℕ
age_of name part = number_of (strip_prefix name (lowercase (trim part)))

abbrev pub or_else : Option ℕ → Option ℕ → Option ℕ
or_else none b = b
or_else (some a) b = some a

-- the last number that a part states under the name
abbrev pub last_age : Bytes → List Bytes → Option ℕ
last_age name [] = none
last_age name (part ∷ parts) = or_else (last_age name parts) (age_of name part)

or_else_assoc : (a b c : Option ℕ) → or_else (or_else a b) c ≡ or_else a (or_else b c)
or_else_assoc none b c = refl
or_else_assoc (some a) b c = refl

or_else-none : (a : Option ℕ) → or_else a none ≡ a
or_else-none none = refl
or_else-none (some a) = refl

last_age-append :
    (name : Bytes) (xs ys : List Bytes)
    → last_age name (xs ++ ys) ≡ or_else (last_age name ys) (last_age name xs)
last_age-append name [] ys = sym (or_else-none (last_age name ys))
last_age-append name (x ∷ xs) ys =
    rw (last_age-append name xs ys)
      (or_else_assoc (last_age name ys) (last_age name xs) (age_of name x))

-- a part that begins with "s-maxage=" does not begin with "max-age="
prefixes_differ :
    (part val : Bytes)
    → strip_prefix (codes "s-maxage=") part ≡ some val
    → strip_prefix (codes "max-age=") part ≡ none
unfolding strip_prefix
prefixes_differ [] val h = refl
prefixes_differ (c ∷ s) val h = ground arith

module _ (lib : Http) where
  keep_or_lem : (old new : Option ℕ) → keep_or lib old new ≡ or_else new old
  unfolding keep_or
  keep_or_lem old none = refl
  keep_or_lem old (some n) = refl

  read_max_age_lem :
      (m s : Option ℕ) (o : Option Bytes) → read_max_age lib (m, s) o ≡ (or_else (number_of o) m, s)
  unfolding read_max_age
  read_max_age_lem m s none = refl
  read_max_age_lem m s (some val) = rw (keep_or_lem m (parse_uint u64_max val))

  read_directive_lem :
      (m s : Option ℕ) (part : Bytes)
      → read_directive lib (m, s) part
        ≡ (or_else (age_of (codes "max-age=") part) m, or_else (age_of (codes "s-maxage=") part) s)
  unfolding read_directive read_s_maxage
  read_directive_lem m s part =
      elim (Option-cases (strip_prefix (codes "s-maxage=") (lowercase (trim part)))) [
        | inl e ↦
            rw (e, read_max_age_lem m s (strip_prefix (codes "max-age=") (lowercase (trim part))))
        | inr (val, e) ↦ rw (
          e,
          prefixes_differ (lowercase (trim part)) val e,
          keep_or_lem s (parse_uint u64_max val),
        )
      ]

  read_parts_lem :
      (m s : Option ℕ) (parts : List Bytes)
      → read_parts lib (m, s) parts ≡ (
        or_else (last_age (codes "max-age=") parts) m,
        or_else (last_age (codes "s-maxage=") parts) s,
      )
  unfolding read_parts
  read_parts_lem m s [] = refl
  read_parts_lem m s (p ∷ ps) = rw (
    read_directive_lem m s p,
    read_parts_lem (or_else (age_of (codes "max-age=") p) m)
        (or_else (age_of (codes "s-maxage=") p) s) ps,
    or_else_assoc (last_age (codes "max-age=") ps) (age_of (codes "max-age=") p) m,
    or_else_assoc (last_age (codes "s-maxage=") ps) (age_of (codes "s-maxage=") p) s,
  )

  read_value_lem :
      (m s : Option ℕ) (o : Option Bytes)
      → read_value lib (m, s) o ≡ (
        or_else (last_age (codes "max-age=") (parts_of o)) m,
        or_else (last_age (codes "s-maxage=") (parts_of o)) s,
      )
  unfolding read_value
  read_value_lem m s none = refl
  read_value_lem m s (some value) = read_parts_lem m s (parts_of (some value))

  read_values_lem :
      (m s : Option ℕ) (vs : List lib.Value)
      → read_values lib (m, s) vs ≡ (
        or_else (last_age (codes "max-age=") (all_parts lib vs)) m,
        or_else (last_age (codes "s-maxage=") (all_parts lib vs)) s,
      )
  unfolding read_values
  read_values_lem m s [] = refl
  read_values_lem m s (v ∷ vs) = rw (
    read_value_lem m s (lib.to_str v),
    read_values_lem (or_else (last_age (codes "max-age=") (parts_of (lib.to_str v))) m)
        (or_else (last_age (codes "s-maxage=") (parts_of (lib.to_str v))) s) vs,
    last_age-append (codes "max-age=") (parts_of (lib.to_str v)) (all_parts lib vs),
    last_age-append (codes "s-maxage=") (parts_of (lib.to_str v)) (all_parts lib vs),
    or_else_assoc (last_age (codes "max-age=") (all_parts lib vs)),
    or_else_assoc (last_age (codes "s-maxage=") (all_parts lib vs)),
  )

  module _ (parse_http_date : Bytes → Option ℕ) (now : ℕ) where
    choose_ttl_lem :
        (m s e : Option ℕ) → choose_ttl lib parse_http_date now (m, s) e ≡ or_else s (or_else m e)
    unfolding choose_ttl
    choose_ttl_lem m (some ttl) e = refl
    choose_ttl_lem (some ttl) none e = refl
    choose_ttl_lem none none e = refl

    -- The lifetime that is read of a response is the last number that "s-maxage=" states in the
    -- Cache-Control headers; without one it is the last that "max-age=" states there; without
    -- either it is that of the first Expires header, if there is one. Numbers that do not fit 64
    -- bits are passed over.
    pub parse_cache_control_headers_lem :
        (h : lib.Map)
        → parse_cache_control_headers lib parse_http_date now h
          ≡ or_else
              (last_age (codes "s-maxage=") (all_parts lib (lib.get_all h (codes "cache-control"))))
              (or_else
                (last_age
                  (codes "max-age=")
                  (all_parts lib (lib.get_all h (codes "cache-control"))))
                (expires_ttl lib parse_http_date now (first (lib.get_all h (codes "expires")))))
    unfolding parse_cache_control_headers
    parse_cache_control_headers_lem h = rw (
      read_values_lem none none (lib.get_all h (codes "cache-control")),
      choose_ttl_lem,
      or_else-none,
      or_else-none,
      lib.get_lem h (codes "expires"),
    )

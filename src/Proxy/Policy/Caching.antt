-- ===== src/Proxy/Policy/Caching.antt =====
-- When a response is cached.
use squiddish.Prelude.{ℕ, ◌≤◌, ◌≡◌, ◌≢◌, ◌↔◌, ◌∙◌, Bool, true, false, List, arith, All, All-map}
use squiddish.Text.{Bytes, codes, bytes_eq, eq_ignore_ascii_case, lowercase, trim}
use squiddish.Text.Laws.{eq_ignore_iff, bytes_eq_iff}
use squiddish.Proxy.Http.{Http}
use squiddish.Proxy.Policy.{is_uncacheable, is_sensitive, any_directive, should_cache_response}
use squiddish.Proxy.Policy.Tokens.{all_parts, any-false, any_directive-all_parts}

-- Without the spaces around it and with the case of letters ignored, the part is not the word.
abbrev pub IsNot : Bytes → Bytes → Type 0
IsNot word part = lowercase (trim part) ≢ lowercase word

abbrev pub AllowsCaching : Bytes → Type 0
AllowsCaching part =
    IsNot (codes "no-store") part × IsNot (codes "no-cache") part × IsNot (codes "private") part

abbrev pub VariesSafely : Bytes → Type 0
VariesSafely part =
    (trim part ≢ codes "*") × IsNot (codes "authorization") part × IsNot (codes "cookie") part

false-ne-true : (b : Bool) → b ≡ false → b ≢ true
false-ne-true b h e = cc

not-true : (b : Bool) → b ≢ true → b ≡ false
not-true b h = ground arith

ne_iff : (word part : Bytes) → (eq_ignore_ascii_case (trim part) word ≡ false) ↔ IsNot word part
ne_iff word part = (
  λ h e. false-ne-true _ h ((eq_ignore_iff (trim part) word).1 e),
  λ h. not-true _ (λ e. h ((eq_ignore_iff (trim part) word).0 e)),
)

star_iff : (part : Bytes) → (bytes_eq (trim part) (codes "*") ≡ false) ↔ (trim part ≢ codes "*")
star_iff part = (
  λ h e. false-ne-true _ h ((bytes_eq_iff (trim part) (codes "*")).1 e),
  λ h. not-true _ (λ e. h ((bytes_eq_iff (trim part) (codes "*")).0 e)),
)

module _ (lib : Http) where
  open lib use {Map, get_all, is_success_iff}

  uncacheable_iff : (part : Bytes) → (is_uncacheable lib (trim part) ≡ false) ↔ AllowsCaching part
  unfolding is_uncacheable
  uncacheable_iff part = (
    λ h. (
      (ne_iff (codes "no-store") part).0 (ground arith),
      (ne_iff (codes "no-cache") part).0 (ground arith),
      (ne_iff (codes "private") part).0 (ground arith),
    ),
    λ h. ground (
      arith,
      (ne_iff (codes "no-store") part).1 h.0,
      (ne_iff (codes "no-cache") part).1 h.1,
      (ne_iff (codes "private") part).1 h.2,
    ),
  )

  sensitive_iff : (part : Bytes) → (is_sensitive lib (trim part) ≡ false) ↔ VariesSafely part
  unfolding is_sensitive
  sensitive_iff part = (
    λ h. (
      (star_iff part).0 (ground arith),
      (ne_iff (codes "authorization") part).0 (ground arith),
      (ne_iff (codes "cookie") part).0 (ground arith),
    ),
    λ h. ground (
      arith,
      (star_iff part).1 h.0,
      (ne_iff (codes "authorization") part).1 h.1,
      (ne_iff (codes "cookie") part).1 h.2,
    ),
  )

  -- the test fails on every part of the header exactly when the predicate holds of every part
  parts_iff :
      (test : Bytes → Bool) (P : Bytes → Type 0)
      → ((part : Bytes) → (test part ≡ false) ↔ P part)
      → (vs : List lib.Value) → (any_directive lib test vs ≡ false) ↔ All P (all_parts lib vs)
  parts_iff test P k vs = (
    λ h.
        All-map (all_parts lib vs) (λ x. (k x).0)
          ((any-false test (all_parts lib vs)).0 (rw (any_directive-all_parts lib test vs) at h)),
    λ h.
        any_directive-all_parts lib test vs
        ∙ (any-false test (all_parts lib vs)).1 (All-map (all_parts lib vs) (λ x. (k x).1) h),
  )

  -- What a response that may be cached looks like.
  pub record IsCacheable (status : ℕ) (h : Map) : Type 0 where
    pub success : (200 ≤ status) × (status ≤ 299)
    pub cache_control : All AllowsCaching (all_parts lib (get_all h (codes "cache-control")))
    pub pragma : All (IsNot (codes "no-cache")) (all_parts lib (get_all h (codes "pragma")))
    pub vary : All VariesSafely (all_parts lib (get_all h (codes "vary")))

  -- A response is cached exactly when its status is from 200 to 299, no part of Cache-Control is
  -- "no-store", "no-cache" or "private", no part of Pragma is "no-cache", and no part of Vary is
  -- "*", "authorization" or "cookie".
  pub should_cache_response_iff :
      (status : ℕ) (h : Map) → (should_cache_response lib status h ≡ true) ↔ IsCacheable status h
  unfolding should_cache_response
  should_cache_response_iff status h = (
    λ e. record {
      success = (is_success_iff status).0 (ground arith);
      cache_control = (cc_iff).0 (ground arith);
      pragma = (pragma_iff).0 (ground arith);
      vary = (vary_iff).0 (ground arith);
    },
    λ c. ground (
      arith,
      (is_success_iff status).1 c.success,
      (cc_iff).1 c.cache_control,
      (pragma_iff).1 c.pragma,
      (vary_iff).1 c.vary,
    ),
  )
    where
      cc_iff :
          (any_directive lib (λ d. is_uncacheable lib (trim d)) (get_all h (codes "cache-control"))
            ≡ false)
          ↔ All AllowsCaching (all_parts lib (get_all h (codes "cache-control")))
      cc_iff = parts_iff _ _ uncacheable_iff (get_all h (codes "cache-control"))

      pragma_iff :
          (any_directive lib
              (λ t. eq_ignore_ascii_case (trim t) (codes "no-cache"))
              (get_all h (codes "pragma"))
            ≡ false)
          ↔ All (IsNot (codes "no-cache")) (all_parts lib (get_all h (codes "pragma")))
      pragma_iff = parts_iff _ _ (ne_iff (codes "no-cache")) (get_all h (codes "pragma"))

      vary_iff :
          (any_directive lib (λ d. is_sensitive lib (trim d)) (get_all h (codes "vary")) ≡ false)
          ↔ All VariesSafely (all_parts lib (get_all h (codes "vary")))
      vary_iff = parts_iff _ _ sensitive_iff (get_all h (codes "vary"))

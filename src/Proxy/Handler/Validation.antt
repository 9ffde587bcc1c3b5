-- ===== src/Proxy/Handler/Validation.antt =====
-- Which requests `validate_request` lets pass.
use squiddish.Prelude.{
  ◌≡◌, ◌↔◌, refl, true, false, some, List, [], ◌∷◌, any, arith, All, All-map, Bool-cases,
  Option-cases, inl, inr, ◌⊎◌, or-true,
}
use squiddish.Text.{Bytes, codes}
use squiddish.Text.Laws.{bytes_eq_iff}
use squiddish.Error.{ok, >>=-eq-ok}
use squiddish.Config.{SecurityConfig}
use squiddish.Proxy.Http.{Http, Request}
use squiddish.Proxy.Host.{host_matches, strip_host_port}
use squiddish.Proxy.Host.Patterns.{IsSelfOrSubdomain, host_matches_iff}
use squiddish.Proxy.Policy.{has_via_loop}
use squiddish.Proxy.Policy.Tokens.{any-false}
use squiddish.Proxy.Handler.{
  request_host, check_via, allow, check_allowed, block, check_blocked, check_scheme, missing_host,
  validate_request,
}

-- the host, without its port, is one of the patterns or a subdomain of one
abbrev pub MatchesSome : Bytes → List Bytes → Type 0
MatchesSome host [] = ⊥
MatchesSome host (p ∷ ps) = IsSelfOrSubdomain (strip_host_port host) p ⊎ MatchesSome host ps

abbrev pub MatchesNone : Bytes → List Bytes → Type 0
MatchesNone host = All (λ p. ¬ IsSelfOrSubdomain (strip_host_port host) p)

some_sound :
    (host : Bytes) (ps : List Bytes)
    → any (λ p. host_matches host p) ps ≡ true
    → MatchesSome host ps
some_sound host [] h = cc
some_sound host (p ∷ ps) h = elim (or-true _ _ h) [
  | inl here ↦ inl ((host_matches_iff host p).0 here)
  | inr later ↦ inr (some_sound host ps later)
]

some_complete :
    (host : Bytes) (ps : List Bytes)
    → MatchesSome host ps
    → any (λ p. host_matches host p) ps ≡ true
some_complete host [] h = absurd h
some_complete host (p ∷ ps) (inl here) = rw ((host_matches_iff host p).1 here)
some_complete host (p ∷ ps) (inr later) = ground (arith, some_complete host ps later)

differs :
    (host p : Bytes)
    → (host_matches host p ≡ false) ↔ (¬ IsSelfOrSubdomain (strip_host_port host) p)
differs host p = (
  λ h m. ground (arith, (host_matches_iff host p).1 m),
  λ n. elim (Bool-cases (host_matches host p)) [
    | inl e ↦ absurd (n ((host_matches_iff host p).0 e))
    | inr e ↦ e
  ],
)

module _ (lib : Http) where
  check_via_iff :
      (req : Request lib) → (check_via lib req ≡ ok tt) ↔ (has_via_loop lib req.headers ≡ false)
  unfolding check_via
  check_via_iff req = (λ h. ground arith, λ h. ground arith)

  check_scheme_iff :
      (req : Request lib)
      → (check_scheme lib req ≡ ok tt) ↔ ((req.has_scheme ≡ true) ⊎ (req.method ≡ codes "CONNECT"))
  unfolding check_scheme
  check_scheme_iff req = (
    λ h. elim (Bool-cases (req.has_scheme)) [
      | inl e ↦ inl e
      | inr e ↦ inr ((bytes_eq_iff req.method (codes "CONNECT")).0 (ground arith))
    ],
    λ h. elim h [
      | inl e ↦ rw e
      | inr e ↦ ground (arith, (bytes_eq_iff req.method (codes "CONNECT")).1 e)
    ],
  )

  -- the request names a host, and the predicate holds of it
  abbrev pub HasHost : Request lib → (Bytes → Type 0) → Type 0
  HasHost req P = (host : Bytes) × (request_host lib req ≡ some host) × P host

  allow_iff :
      (hosts : List Bytes) (host : Bytes) → (allow lib hosts host ≡ ok tt) ↔ MatchesSome host hosts
  unfolding allow
  allow_iff hosts host =
      (λ h. some_sound host hosts (ground arith), λ m. rw (some_complete host hosts m))

  block_iff :
      (hosts : List Bytes) (host : Bytes) → (block lib hosts host ≡ ok tt) ↔ MatchesNone host hosts
  unfolding block
  block_iff hosts host = (
    λ h.
        All-map hosts (λ p. (differs host p).0)
          ((any-false (λ p. host_matches host p) hosts).0 (ground arith)),
    λ m. rw (
        (any-false (λ p. host_matches host p) hosts).1 (All-map hosts (λ p. (differs host p).1) m)),
  )

  check_allowed_iff :
      (hosts : List Bytes) (req : Request lib)
      → (check_allowed lib hosts req ≡ ok tt)
        ↔ ((hosts ≡ []) ⊎ HasHost req (λ host. MatchesSome host hosts))
  unfolding check_allowed missing_host
  check_allowed_iff [] req = (λ h. inl refl, λ h. refl)
  check_allowed_iff (p ∷ ps) req = elim (Option-cases (request_host lib req)) [
    | inl e ↦ (λ h. absurd (cc (rw e at h)), λ h. elim h [ inl a ↦ cc | inr (host, a, b) ↦ cc ])
    | inr (host, e) ↦ (
      λ h. inr (host, e, (allow_iff (p ∷ ps) host).0 (rw e at h)),
      λ h. elim h [ inl a ↦ cc | inr (host', a, b) ↦ rw a ((allow_iff (p ∷ ps) host').1 b) ],
    )
  ]

  check_blocked_iff :
      (hosts : List Bytes) (req : Request lib)
      → (check_blocked lib hosts req ≡ ok tt)
        ↔ ((hosts ≡ []) ⊎ HasHost req (λ host. MatchesNone host hosts))
  unfolding check_blocked missing_host
  check_blocked_iff [] req = (λ h. inl refl, λ h. refl)
  check_blocked_iff (p ∷ ps) req = elim (Option-cases (request_host lib req)) [
    | inl e ↦ (λ h. absurd (cc (rw e at h)), λ h. elim h [ inl a ↦ cc | inr (host, a, b) ↦ cc ])
    | inr (host, e) ↦ (
      λ h. inr (host, e, (block_iff (p ∷ ps) host).0 (rw e at h)),
      λ h. elim h [ inl a ↦ cc | inr (host', a, b) ↦ rw a ((block_iff (p ∷ ps) host').1 b) ],
    )
  ]

  -- what a request that is let pass looks like
  pub record Passes (security : SecurityConfig) (req : Request lib) : Type 0 where
    pub no_loop : has_via_loop lib req.headers ≡ false
    pub allowed :
        (security.allowed_hosts ≡ [])
        ⊎ HasHost req (λ host. MatchesSome host security.allowed_hosts)
    pub blocked :
        (security.blocked_hosts ≡ [])
        ⊎ HasHost req (λ host. MatchesNone host security.blocked_hosts)
    pub scheme : (req.has_scheme ≡ true) ⊎ (req.method ≡ codes "CONNECT")

  -- A request is let pass exactly when it has not passed the proxy before, its host is one of the
  -- allowed hosts or a subdomain of one, if such are listed, it is none of the blocked hosts and no
  -- subdomain of one, if such are listed, and it has a scheme or its method is CONNECT.
  pub validate_request_iff :
      (security : SecurityConfig) (req : Request lib)
      → (validate_request lib security req ≡ ok tt) ↔ Passes security req
  unfolding validate_request
  validate_request_iff security req = (
    λ h.
        let (u, via, h₁) = >>=-eq-ok (check_via lib req) _ h in
        let (u₂, allowed, h₂) = >>=-eq-ok (check_allowed lib security.allowed_hosts req) _ h₁ in
        let (u₃, blocked, scheme) = >>=-eq-ok (check_blocked lib security.blocked_hosts req) _ h₂ in
        record {
          no_loop = (check_via_iff req).0 via;
          allowed = (check_allowed_iff security.allowed_hosts req).0 allowed;
          blocked = (check_blocked_iff security.blocked_hosts req).0 blocked;
          scheme = (check_scheme_iff req).0 scheme;
        },
    λ p. rw (
      (check_via_iff req).1 p.no_loop,
      (check_allowed_iff security.allowed_hosts req).1 p.allowed,
      (check_blocked_iff security.blocked_hosts req).1 p.blocked,
      (check_scheme_iff req).1 p.scheme,
    ),
  )

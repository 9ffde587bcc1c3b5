-- ===== src/Proxy/Handler.antt =====
-- src/proxy/handler.rs: the validation of a request, its key, and the page for an error.
pub mod Validation
pub mod Download
pub mod Fetch
pub mod Forward
pub mod Dispatch
pub mod Escape
mod Examples
use squiddish.Prelude.{
  ℕ, Bool, true, false, not, ◌&&◌, Option, none, some, List, [], ◌∷◌, ◌++◌, any, is_empty, ◌==◌,
  if◌then◌else◌,
}
use squiddish.Text.{Bytes, codes, bytes_eq}
use squiddish.Error.{
  ProxyError, io, http, hyper, hyper_util, cache, tunnel, dns_error, network, Result, ok, err,
  panicked, validation_failed, invalid_uri, ◌>>=◌,
}
use squiddish.Cache.Key.{CacheKey, Digests, new}
use squiddish.Config.{SecurityConfig}
use squiddish.Proxy.Http.{Http, Request}
use squiddish.Proxy.Host.{host_matches}
use squiddish.Proxy.Policy.{has_via_loop}

module _ (lib : Http) where
  open lib use {Map, Value, get, iter, to_str}

  -- `Option::or_else` and `and_then`
  text_of : Option Value → Option Bytes
  text_of none = none
  text_of (some h) = to_str h

  uri_or : Option Bytes → Option Bytes → Option Bytes
  uri_or none header = header
  uri_or (some host) header = some host

  pub request_host : Request lib → Option Bytes
  unfolding text_of uri_or
  request_host req = uri_or req.uri_host (text_of (get req.headers (codes "host")))

  pub text_or_empty : Option Bytes → Bytes
  text_or_empty none = []
  text_or_empty (some s) = s

  missing_host : Option Bytes → Result Bytes
  missing_host none = err (validation_failed (codes "Missing host"))
  missing_host (some host) = ok host

  check_via : Request lib → Result (Unit {0})
  check_via req =
      if has_via_loop lib req.headers
      then err (validation_failed (codes "Request loop detected via Via header"))
      else ok tt

  allow : List Bytes → Bytes → Result (Unit {0})
  allow allowed_hosts host =
      if not (any (λ pattern. host_matches host pattern) allowed_hosts)
      then err (validation_failed (codes "Host not allowed: " ++ host))
      else ok tt

  check_allowed : List Bytes → Request lib → Result (Unit {0})
  unfolding allow missing_host
  check_allowed allowed_hosts req =
      if not (is_empty allowed_hosts)
      then missing_host (request_host req) >>= (λ host. allow allowed_hosts host)
      else ok tt

  block : List Bytes → Bytes → Result (Unit {0})
  block blocked_hosts host =
      if any (λ blocked. host_matches host blocked) blocked_hosts
      then err (validation_failed (codes "Host blocked: " ++ host))
      else ok tt

  check_blocked : List Bytes → Request lib → Result (Unit {0})
  unfolding block missing_host
  check_blocked blocked_hosts req =
      if not (is_empty blocked_hosts)
      then missing_host (request_host req) >>= (λ host. block blocked_hosts host)
      else ok tt

  check_scheme : Request lib → Result (Unit {0})
  check_scheme req =
      if not req.has_scheme && not (bytes_eq req.method (codes "CONNECT"))
      then err (invalid_uri (codes "Request must include scheme"))
      else ok tt

  unfoldable pub validate_request : SecurityConfig → Request lib → Result (Unit {0})
  unfolding check_via check_allowed check_blocked check_scheme
  validate_request security req = check_via req >>= λ _.
      check_allowed security.allowed_hosts req >>= λ _.
      check_blocked security.blocked_hosts req >>= λ _. check_scheme req

  -- the names of a header map are in lower case
  pub accept_encodings : List (Bytes × Value) → List (Bytes × Bytes)
  unfolding text_or_empty
  accept_encodings [] = []
  accept_encodings ((name, value) ∷ rest) =
      let rest' = accept_encodings rest in
      if bytes_eq name (codes "accept-encoding")
      then (name, text_or_empty (to_str value)) ∷ rest'
      else rest'

  unfoldable pub create_cache_key : Digests → Request lib → CacheKey
  unfolding accept_encodings
  create_cache_key digests req =
      new digests req.method req.uri (accept_encodings (iter req.headers))

-- `s.replace(c, by)`
pub replace : ℕ → Bytes → Bytes → Bytes
replace c by [] = []
replace c by (x ∷ s) = let rest = replace c by s in if x == c then by ++ rest else x ∷ rest

pub html_escape : Bytes → Bytes
html_escape s = replace 39 (codes "&#x27;") (
    replace 34 (codes "&quot;")
      (replace 62 (codes "&gt;") (replace 60 (codes "&lt;") (replace 38 (codes "&amp;") s))))

-- the status of the page for an error
pub error_status : ProxyError → ℕ
error_status (validation_failed e) = 400
error_status (invalid_uri e) = 400
error_status (io e) = 502
error_status (http e) = 502
error_status (hyper e) = 502
error_status (hyper_util e) = 502
error_status (cache e) = 502
error_status (tunnel e) = 502
error_status (dns_error e) = 502
error_status (network e) = 502

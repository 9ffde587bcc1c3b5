-- ===== src/Proxy/Policy.antt =====
-- src/proxy/handler.rs: the functions on header maps. They decide what is cached and for how long,
-- what is forwarded, and when a request has come back to the proxy.
pub mod Tokens
pub mod Hops
pub mod Caching
pub mod Lifetime
use squiddish.Prelude.{
  ℕ, ◌-◌, ◌/◌, Bool, true, false, not, ◌&&◌, ◌||◌, Option, none, some, List, [], ◌∷◌, ◌++◌, any,
  leb, if◌then◌else◌, map,
}
use squiddish.Text.{
  Bytes, codes, bytes_eq, eq_ignore_ascii_case, lowercase, trim, split, strip_prefix, parse_uint,
}
use squiddish.Proxy.Http.{Http}

abbrev pub u64_max : ℕ
u64_max = 18446744073709551615

-- the request and the response name the proxy by this value of the header Via
abbrev pub pseudonym : Bytes
pseudonym = codes "1.1 squiddish"

-- the hop-by-hop headers of RFC 7230
abbrev pub hop_by_hop : List Bytes
hop_by_hop =
    codes "connection"
    ∷ codes "keep-alive"
    ∷ codes "proxy-authenticate"
    ∷ codes "proxy-authorization"
    ∷ codes "te"
    ∷ codes "trailers"
    ∷ codes "transfer-encoding"
    ∷ codes "upgrade"
    ∷ []

-- `SystemTime` in nanoseconds since the epoch
abbrev pub seconds : ℕ → ℕ
seconds nanos = nanos / 1_000_000_000

module _ (lib : Http) where
  open lib use {Map, Value, get_all, get, remove, append, to_str, from_static, is_success}

  -- some part between the commas of some readable value passes the test
  any_part : (Bytes → Bool) → Option Bytes → Bool
  any_part test none = false
  any_part test (some value) = any test (split b',' value)

  pub any_directive : (Bytes → Bool) → List Value → Bool
  any_directive test vs = any (λ v. any_part test (to_str v)) vs

  unfoldable pub has_via_loop : Map → Bool
  unfolding any_directive any_part
  has_via_loop headers =
      any_directive (λ entry. eq_ignore_ascii_case (trim entry) pseudonym)
        (get_all headers (codes "via"))

  is_uncacheable : Bytes → Bool
  is_uncacheable directive =
      eq_ignore_ascii_case directive (codes "no-store")
      || eq_ignore_ascii_case directive (codes "no-cache")
      || eq_ignore_ascii_case directive (codes "private")

  is_sensitive : Bytes → Bool
  is_sensitive field =
      bytes_eq field (codes "*")
      || eq_ignore_ascii_case field (codes "authorization")
      || eq_ignore_ascii_case field (codes "cookie")

  pub should_cache_response : ℕ → Map → Bool
  should_cache_response status headers =
      if not (is_success status)
      then false
      else if any_directive (λ d. is_uncacheable (trim d)) (get_all headers (codes "cache-control"))
      then false
      else if any_directive (λ token. eq_ignore_ascii_case (trim token) (codes "no-cache"))
          (get_all headers (codes "pragma"))
      then false
      else if any_directive (λ field. is_sensitive (trim field)) (get_all headers (codes "vary"))
      then false
      else true

  -- `max_age` and `s_maxage`
  abbrev Ages : Type 0
  Ages = Option ℕ × Option ℕ

  keep_or : Option ℕ → Option ℕ → Option ℕ
  keep_or old none = old
  keep_or old (some n) = some n

  read_max_age : Ages → Option Bytes → Ages
  read_max_age (m, s) none = (m, s)
  read_max_age (m, s) (some val) = (keep_or m (parse_uint u64_max val), s)

  read_s_maxage : Ages → Bytes → Option Bytes → Ages
  read_s_maxage (m, s) directive (some val) = (m, keep_or s (parse_uint u64_max val))
  read_s_maxage ages directive none = read_max_age ages (strip_prefix (codes "max-age=") directive)

  read_directive : Ages → Bytes → Ages
  read_directive ages part =
      let directive = lowercase (trim part) in
      read_s_maxage ages directive (strip_prefix (codes "s-maxage=") directive)

  read_parts : Ages → List Bytes → Ages
  read_parts ages [] = ages
  read_parts ages (p ∷ ps) = read_parts (read_directive ages p) ps

  read_value : Ages → Option Bytes → Ages
  read_value ages none = ages
  read_value ages (some value) = read_parts ages (split b',' value)

  read_values : Ages → List Value → Ages
  read_values ages [] = ages
  read_values ages (v ∷ vs) = read_values (read_value ages (to_str v)) vs

  -- `parse_http_date` is that of the crate `httpdate`; `now` is what `SystemTime::now` returns
  module _ (parse_http_date : Bytes → Option ℕ) (now : ℕ) where
    date_ttl : Option ℕ → ℕ
    date_ttl none = 0
    date_ttl (some expires_time) = if leb now expires_time then seconds (expires_time - now) else 0

    text_ttl : Option Bytes → ℕ
    text_ttl none = 0
    text_ttl (some expires_str) = date_ttl (parse_http_date expires_str)

    pub expires_ttl : Option Value → Option ℕ
    expires_ttl none = none
    expires_ttl (some expires) = some (text_ttl (to_str expires))

    choose_ttl : Ages → Option ℕ → Option ℕ
    choose_ttl (m, some ttl) e = some ttl
    choose_ttl (some ttl, none) e = some ttl
    choose_ttl (none, none) e = e

    pub parse_cache_control_headers : Map → Option ℕ
    parse_cache_control_headers headers =
        choose_ttl (read_values (none, none) (get_all headers (codes "cache-control")))
          (expires_ttl (get headers (codes "expires")))

  pub listed_parts : List Bytes → List Bytes
  listed_parts = map (λ name. lowercase (trim name))

  pub listed_names : Option Bytes → List Bytes
  listed_names none = []
  listed_names (some value) = listed_parts (split b',' value)

  -- the names that the values of Connection list
  pub extra_hop_by_hop : List Value → List Bytes
  extra_hop_by_hop [] = []
  extra_hop_by_hop (v ∷ vs) = listed_names (to_str v) ++ extra_hop_by_hop vs

  remove_names : List Bytes → Map → Map
  remove_names [] headers = headers
  remove_names (n ∷ ns) headers = remove_names ns (remove n headers)

  pub filter_headers : Map → Map
  filter_headers headers =
      remove_names hop_by_hop
        (remove_names (extra_hop_by_hop (get_all headers (codes "connection"))) headers)

  -- the headers of a forwarded request, and of a response that is passed on
  pub forward_headers : Map → Map
  forward_headers headers = append (codes "via") (from_static pseudonym) (filter_headers headers)

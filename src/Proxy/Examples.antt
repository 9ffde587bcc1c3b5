-- ===== src/Proxy/Examples.antt =====
-- Examples of the theorems on hosts and header maps.
use squiddish.Prelude.{
  ◌+◌, ◌≤◌, ◌≡◌, ◌↔◌, refl, Bool, true, false, none, some, [], ◌∷◌, if◌then◌else◌,
}
use squiddish.Text.{codes, strip_prefix, split_once, parse_uint}
use squiddish.Samples.Headers.{Headers, headers_lib}
use squiddish.Proxy.Http.{first}
use squiddish.Proxy.Policy.{
  filter_headers, forward_headers, has_via_loop, should_cache_response, parse_cache_control_headers,
  expires_ttl,
}
use squiddish.Proxy.Policy.Hops.{is_dropped, get_all-filter_headers, has_via_loop-forward_headers}
use squiddish.Proxy.Policy.Tokens.{all_parts}
use squiddish.Proxy.Policy.Caching.{IsCacheable, should_cache_response_iff}
use squiddish.Proxy.Policy.Lifetime.{parse_cache_control_headers_lem, last_age, or_else}
use squiddish.Proxy.Host.{host_matches, strip_host_port, parse_connect_uri, target_addr, u16_max}
use squiddish.Error.{ok}
use squiddish.Proxy.Host.Patterns.{IsSelfOrSubdomain, host_matches_iff}
use squiddish.Proxy.Host.Targets.{parse_connect_uri-target_addr}
use squiddish.Cache.Inflight.Broadcast.{data_chunk}
use squiddish.Proxy.Streaming.{Polled, received, closed, frame, finish, new}
use squiddish.Proxy.Streaming.Frames.{frames, frames-new}

abbrev headers : Headers
headers =
    (codes "Host", codes "deb.debian.org")
    ∷ (codes "Connection", codes "close, X-Trace")
    ∷ (codes "X-Trace", codes "7")
    ∷ (codes "Cache-Control", codes "max-age=60, public")
    ∷ []

get_all-filter_headers_example :
    headers_lib.get_all (filter_headers headers_lib headers) (codes "X-Trace") ≡ (
      if is_dropped headers_lib headers (codes "X-Trace")
      then []
      else headers_lib.get_all headers (codes "X-Trace"))
get_all-filter_headers_example = get_all-filter_headers headers_lib headers (codes "X-Trace")

host_matches_iff_example :
    (host_matches (codes "a.Debian.org:80") (codes "debian.org") ≡ true)
    ↔ IsSelfOrSubdomain (strip_host_port (codes "a.Debian.org:80")) (codes "debian.org")
host_matches_iff_example = host_matches_iff (codes "a.Debian.org:80") (codes "debian.org")

has_via_loop-forward_headers_example :
    has_via_loop headers_lib (forward_headers headers_lib headers) ≡ true
has_via_loop-forward_headers_example = has_via_loop-forward_headers headers_lib headers

should_cache_response_iff_example :
    (should_cache_response headers_lib 200 headers ≡ true) ↔ IsCacheable headers_lib 200 headers
should_cache_response_iff_example = should_cache_response_iff headers_lib 200 headers

parse_cache_control_headers_example :
    parse_cache_control_headers headers_lib (λ s. none) 0 headers
    ≡ or_else
        (last_age
          (codes "s-maxage=")
          (all_parts headers_lib (headers_lib.get_all headers (codes "cache-control"))))
        (or_else
          (last_age
            (codes "max-age=")
            (all_parts headers_lib (headers_lib.get_all headers (codes "cache-control"))))
          (expires_ttl headers_lib
            (λ s. none)
            0
            (first (headers_lib.get_all headers (codes "expires")))))
parse_cache_control_headers_example =
    parse_cache_control_headers_lem headers_lib (λ s. none) 0 headers

parse_connect_uri-target_addr_example :
    (8443 ≤ u16_max)
    × (parse_connect_uri (some (target_addr (codes "[::1]") 8443)) ≡ ok (codes "[::1]", 8443))
unfolding parse_connect_uri strip_prefix split_once parse_uint
parse_connect_uri-target_addr_example =
    parse_connect_uri-target_addr (some (codes "[::1]:8443")) (codes "[::1]") 8443 refl

-- a stream that is closed behind one chunk
abbrev next : Bool → Polled × Bool
next true = (received (data_chunk (codes "c")), false)
next false = (closed, false)

frames-new_example :
    (frames Bool next (2 + 2) (new Bool next true (codes "a" ∷ codes "b" ∷ []))).0
    ≡ frame (codes "a") ∷ frame (codes "b") ∷ frame (codes "c") ∷ finish ∷ []
frames-new_example = frames-new Bool next true (codes "a" ∷ codes "b" ∷ []) 2

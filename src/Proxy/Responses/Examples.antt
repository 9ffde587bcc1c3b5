-- ===== src/Proxy/Responses/Examples.antt =====
-- Examples of the theorems on responses, with a builder that refuses empty names.
use squiddish.Prelude.{ℕ, ◌≡◌, refl, [], ◌∷◌, ◌++◌}
use squiddish.Text.{codes}
use squiddish.Cache.{CacheEntry}
use squiddish.Samples.Headers.{headers_lib}
use squiddish.Samples.Bundle.{named, crates}
use squiddish.Proxy.Policy.{pseudonym}
use squiddish.Error.{ok, invalid_uri}
use squiddish.Cache.Inflight.Broadcast.{ResponseMeta}
use squiddish.Proxy.Streaming.{new}
use squiddish.Proxy.Responses.Streamed.{build_streaming_response, build_streaming_response_lem}
use squiddish.Proxy.Responses.ErrorPage.{build_error_page}
use squiddish.Proxy.Responses.ErrorPage.Safe.{Page, build_error_page-Page}
use squiddish.Proxy.Responses.{Response, build_response_from_cache}
use squiddish.Proxy.Responses.Cached.{ttl_header, build_response_from_cache_lem}

abbrev entry : CacheEntry
entry = record {
  content = codes "ab";
  headers = (codes "age", codes "1") ∷ [];
  status = 206;
  timestamp = 5;
  ttl_seconds = 60;
}

build_response_from_cache_example : build_response_from_cache headers_lib named 7 entry ≡ record {
  status = 206;
  headers =
      (((codes "age", codes "1") ∷ (codes "x-cache", codes "HIT") ∷ [])
        ++ (codes "via", pseudonym) ∷ [])
      ++ ttl_header headers_lib named 7 entry;
  body = codes "ab";
}
build_response_from_cache_example =
    build_response_from_cache_lem headers_lib named refl refl (λ n. refl) 7 entry

abbrev meta : ResponseMeta
meta = record { status = 42; headers = (codes "age", codes "1") ∷ [] }

build_streaming_response_example :
    build_streaming_response crates meta 0 (codes "ab" ∷ [])
    ≡ ok (record {
      status = 200;
      headers = (codes "age", codes "1") ∷ (codes "via", pseudonym) ∷ [];
      body = new ℕ crates.poll_next 0 (codes "ab" ∷ []);
    })
build_streaming_response_example = build_streaming_response_lem crates refl meta 0 (codes "ab" ∷ [])

build_error_page-Page_example :
    (response : Response) × (build_error_page headers_lib named
        (codes "now")
        (invalid_uri (codes "<a>"))
      ≡ ok response)
    × Page (codes "now") (invalid_uri (codes "<a>")) response
build_error_page-Page_example =
    build_error_page-Page headers_lib named refl (λ n. refl) (codes "now")
      (invalid_uri (codes "<a>"))

-- ===== src/Proxy/Handler/Fetch.antt =====
-- `fetch_and_stream` of src/proxy/handler.rs, and the task in the background that runs it.
pub mod Passing
pub mod Ending
pub mod Storing
pub mod Others
use squiddish.Prelude.{ℕ, Option, none, some, List, [], ◌∷◌, if◌then◌else◌}
use squiddish.Text.{Bytes}
use squiddish.Error.{Result, ok, err, panicked, ProxyError, to_string}
use squiddish.Cache.{CacheEntry}
use squiddish.Cache.Key.{CacheKey, hash_hex}
use squiddish.Cache.Files.{Attempt}
use squiddish.Cache.Inflight.Broadcast.{ResponseMeta, complete, error}
use squiddish.Cache.Inflight.{
  InflightDownloads, set_response_meta, set_response_error, complete_download,
}
use squiddish.Cache.Tiered.{TieredCache, put}
use squiddish.Config.{Config}
use squiddish.Proxy.Http.{Http, Request}
use squiddish.Proxy.Policy.{
  filter_headers, forward_headers, should_cache_response, parse_cache_control_headers,
}
use squiddish.Proxy.Client.{Sent, Upstream, Reply, collect_body, fetch_with_timeout}
use squiddish.Proxy.Shared.{Crates, Shared}
use squiddish.Proxy.Handler.{text_or_empty}
use squiddish.Proxy.Handler.Download.{Read, stream_body, entry_ttl}

-- the headers as texts; a value that is no text is empty
pub header_texts : (lib : Http) → List (Bytes × lib.Value) → List (Bytes × Bytes)
header_texts lib [] = []
header_texts lib ((k, v) ∷ rest) = (k, text_or_empty lib (lib.to_str v)) ∷ header_texts lib rest

module _ (c : Crates) where
  open c use {fs, digests, json, moka, channels, http, platform, parse_http_date}

  -- the request that is sent for one that came in, with its body
  unfoldable pub sent_request : Request http → Bytes → Sent http
  sent_request req body = record {
    method = req.method;
    uri = req.uri;
    uri_host = req.uri_host;
    headers = forward_headers http req.headers;
    body = body;
  }

  -- `date_now` is the time that an Expires header is compared with, `now` that of the entry.
  module _ (config : Config platform) (client : Sent http → Reply http (List Read)) (key : CacheKey)
      (date_now now : ℕ) where
    abbrev pub key_str : Bytes
    key_str = hash_hex digests key

    pub new_entry : ℕ → List (Bytes × Bytes) → Bytes → ℕ → CacheEntry
    new_entry status headers body ttl_seconds = record {
      content = body;
      headers = headers;
      status = status;
      timestamp = now;
      ttl_seconds = ttl_seconds;
    }

    -- an error of the cache is only logged
    logged :
        Shared c
        → Result (Unit {0}) × TieredCache fs digests json moka
        → Result (Unit {0}) × Shared c
    logged s (ok tt, t) = (ok tt, record s { cache = t })
    logged s (err e, t) = (ok tt, record s { cache = t })
    logged s (panicked, t) = (panicked, record s { cache = t })

    -- the end of the function, with the lifetime
    cached : ℕ → List (Bytes × Bytes) → Bytes → Shared c → Option ℕ → Result (Unit {0}) × Shared c
    unfolding new_entry logged
    cached status headers body s none = (ok tt, s)
    cached status headers body s (some ttl) =
        logged s (put fs digests json moka key (new_entry status headers body ttl) s.cache)

    -- behind the loop over the body
    pub streamed :
        ℕ
        → http.Map
        → List (Bytes × Bytes)
        → Shared c
        → Result Bytes × InflightDownloads channels
        → Result (Unit {0}) × Shared c
    unfolding cached
    streamed status headers headers_vec s (ok body, d) =
        let s' : Shared c = record s { inflight = d } in
        if should_cache_response http status headers
        then cached status headers_vec body s' (
            entry_ttl config.apt config.cache.ttl_seconds key.uri
              (parse_cache_control_headers http parse_http_date date_now headers))
        else (ok tt, s')
    streamed status headers headers_vec s (err e, d) = (err e, record s { inflight = d })
    streamed status headers headers_vec s (panicked, d) = (panicked, record s { inflight = d })

    -- behind the answer of upstream
    answered : Shared c → Result (Upstream http (List Read)) → Result (Unit {0}) × Shared c
    unfolding streamed
    answered s (ok response) =
        let headers = filter_headers http response.headers in
        let headers_vec = header_texts http (http.iter headers) in
        let d =
          set_response_meta channels key_str
            (record { status = response.status; headers = headers_vec }) s.inflight in
        streamed response.status headers headers_vec s (
          stream_body channels key_str config.security.max_body_size
            (should_cache_response http response.status headers) response.body 0 [] d)
    answered s (err e) = (err e, s)
    answered s panicked = (panicked, s)

    -- behind the body of the request; the builder takes every method and URI of a request
    body_collected : Request http → Shared c → Result Bytes → Result (Unit {0}) × Shared c
    unfolding answered
    body_collected req s (ok body) =
        answered s (fetch_with_timeout http (List Read) client (sent_request req body))
    body_collected req s (err e) = (err e, s)
    body_collected req s panicked = (panicked, s)

    pub fetch_and_stream :
        Request http → List (Attempt Bytes (Option Bytes)) → Shared c → Result (Unit {0}) × Shared c
    unfolding body_collected
    fetch_and_stream req body s =
        body_collected req s (collect_body body config.security.max_body_size)

    -- What the task sends when `fetch_and_stream` has returned; a panic only drops the guard.
    unfoldable pub reported :
        channels.Sender
        → Result (Unit {0})
        → InflightDownloads channels
        → InflightDownloads channels
    reported sender (ok tt) d = record d { world = channels.send complete sender d.world }
    reported sender (err e) d =
        let d' = set_response_error channels key_str (to_string e) d in
        record d' { world = channels.send (error (to_string e)) sender d'.world }
    reported sender panicked d = d

    -- the task that `handle_streaming_download` spawns, with the drop of its `InflightGuard`
    pub download_task :
        channels.Sender
        → Request http
        → List (Attempt Bytes (Option Bytes))
        → Shared c
        → Result (Unit {0}) × Shared c
    unfolding reported
    download_task sender req body s =
        let (result, s₁) = fetch_and_stream req body s in
        (
          result,
          record s₁ {
            inflight = complete_download channels key_str (reported sender result s₁.inflight);
          },
        )

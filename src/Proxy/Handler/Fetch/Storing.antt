-- ===== src/Proxy/Handler/Fetch/Storing.antt =====
-- What `fetch_and_stream` leaves in the cache: the whole response of upstream, or nothing.
use squiddish.Prelude.{
  ℕ, ◌+◌, ◌<◌, ◌≡◌, refl, sym, true, Option, none, some, List, [], arith, Bool-cases, inl, inr,
  if◌then◌else◌,
}
use squiddish.Text.{Bytes}
use squiddish.Error.{ProxyError, Result, ok, err, panicked}
use squiddish.Cache.Key.{CacheKey}
use squiddish.Cache.Files.{Attempt}
use squiddish.Cache.Disk.Sizes.{u64_mod}
use squiddish.Cache.Inflight.Broadcast.{ResponseMeta}
use squiddish.Cache.Inflight.{InflightDownloads, set_response_meta}
use squiddish.Cache.Tiered.{TieredCache, put}
use squiddish.Config.{Config}
use squiddish.Proxy.Http.{Request}
use squiddish.Proxy.Policy.{filter_headers, should_cache_response, parse_cache_control_headers}
use squiddish.Proxy.Client.{
  Sent, Upstream, Reply, answered as answer, collect_body, fetch_with_timeout,
}
use squiddish.Proxy.Client.Replies.{fetch_with_timeout-answered}
use squiddish.Proxy.Shared.{Crates, Shared}
use squiddish.Proxy.Handler.Download.{Read, stream_body, entry_ttl}
use squiddish.Proxy.Handler.Download.Bounded.{
  chunks, joined_bytes, total_length, stream_body-Streams,
}
use squiddish.Proxy.Handler.Fetch.{
  new_entry, logged, cached, streamed, answered, body_collected, fetch_and_stream, header_texts,
  sent_request,
}
use squiddish.Proxy.Handler.Fetch.Passing.{hash, source_of}

module _ (c : Crates) where
  open c use {channels, http, platform}

  abbrev Tiers : Type 0
  Tiers = TieredCache c.fs c.digests c.json c.moka

  module _ (config : Config platform) (client : Sent http → Reply http (List Read)) (key : CacheKey)
      (date_now now : ℕ) where
    -- the cache with an entry for the response, where it has a lifetime
    abbrev pub with_entry : Upstream http (List Read) → Bytes → Option ℕ → Tiers → Tiers
    with_entry response body none t = t
    with_entry response body (some ttl) t =
        (put c.fs c.digests c.json c.moka key
          (record {
            content = body;
            headers = header_texts http (http.iter (filter_headers http response.headers));
            status = response.status;
            timestamp = now;
            ttl_seconds = ttl;
          })
          t).1

    -- the cache that a response is to leave
    abbrev pub kept : Upstream http (List Read) → Tiers → Tiers
    kept response t =
        let headers = filter_headers http response.headers in
        if should_cache_response http response.status headers
        then with_entry response (joined_bytes (chunks response.body))
            (entry_ttl config.apt config.cache.ttl_seconds key.uri
              (parse_cache_control_headers http c.parse_http_date date_now headers))
            t
        else t

    -- A success has put the whole response of upstream, if it is to be kept, and an error nothing.
    pub record Stores (source : Result (Upstream http (List Read))) (s : Shared c)
        (after : Result (Unit {0}) × Shared c) : Type 0 where
      pub on_success :
          after.0 ≡ ok tt
          → (response : Upstream http (List Read)) × (source ≡ ok response)
            × (after.1.cache ≡ kept response s.cache)
      pub on_error : (e : ProxyError) → after.0 ≡ err e → after.1.cache ≡ s.cache

    logged-cache :
        (s : Shared c) (r : Result (Unit {0}) × Tiers)
        → ((e : ProxyError) → (logged c config client key date_now now s r).0 ≡ err e → ⊥)
          × ((logged c config client key date_now now s r).1.cache ≡ r.1)
    unfolding logged
    logged-cache s (ok tt, t) = (λ e h. cc, refl)
    logged-cache s (err e, t) = (λ e h. cc, refl)
    logged-cache s (panicked, t) = (λ e h. cc, refl)

    cached-cache :
        (response : Upstream http (List Read)) (body : Bytes) (s : Shared c) (o : Option ℕ)
        → ((e : ProxyError)
            → (cached c config client key date_now now response.status
                (header_texts http (http.iter (filter_headers http response.headers)))
                body
                s
                o).0
              ≡ err e
            → ⊥)
          × ((cached c config client key date_now now response.status
                (header_texts http (http.iter (filter_headers http response.headers)))
                body
                s
                o).1.cache
              ≡ with_entry response body o s.cache)
    unfolding cached new_entry
    cached-cache response body s none = (λ e f. cc, refl)
    cached-cache response body s (some ttl) = logged-cache s _

    streamed-cache :
        (response : Upstream http (List Read)) (s : Shared c)
        (r : Result Bytes × InflightDownloads channels)
        → ((out : Bytes)
            → r.0 ≡ ok out
            → should_cache_response http response.status (filter_headers http response.headers)
              ≡ true
            → out ≡ joined_bytes (chunks response.body))
        → Stores (ok response) s (
            streamed c config client key date_now now response.status
              (filter_headers http response.headers)
              (header_texts http (http.iter (filter_headers http response.headers)))
              s
              r)
    unfolding streamed
    streamed-cache response s (err e, d) whole = record {
      on_success = λ h. absurd cc;
      on_error = λ e h. refl;
    }
    streamed-cache response s (panicked, d) whole = record {
      on_success = λ h. absurd cc;
      on_error = λ e h. refl;
    }
    streamed-cache response s (ok body, d) whole =
        let headers = filter_headers http response.headers in
        let s' : Shared c = record s { inflight = d } in
        elim (Bool-cases (should_cache_response http response.status headers)) [
          | inl e ↦
              let (never, same) = cached-cache response body s' (
                entry_ttl config.apt config.cache.ttl_seconds key.uri
                  (parse_cache_control_headers http c.parse_http_date date_now headers)) in
              rw e (record {
                on_success = λ h. (response, refl, rw (e, sym (whole body refl e)) same);
                on_error = λ x h. absurd (never x h);
              })
          | inr e ↦
              rw e
                (record { on_success = λ h. (response, refl, rw e refl); on_error = λ x h. refl })
        ]

    module _
        (bounded : (sent : Sent http) (response : Upstream http (List Read))
          → client sent ≡ answer response
          → config.security.max_body_size + total_length (chunks response.body) < u64_mod) where
      answered-Stores :
          (s : Shared c) (sent : Sent http) (r : Result (Upstream http (List Read)))
          → ((response : Upstream http (List Read))
              → r ≡ ok response
              → client sent ≡ answer response)
          → Stores r s (answered c config client key date_now now s r)
      unfolding answered
      answered-Stores s sent (err e) came = record {
        on_success = λ h. absurd cc;
        on_error = λ e h. refl;
      }
      answered-Stores s sent panicked came = record {
        on_success = λ h. absurd cc;
        on_error = λ e h. refl;
      }
      answered-Stores s sent (ok response) came =
          let headers = filter_headers http response.headers in
          let cacheable = should_cache_response http response.status headers in
          let max = config.security.max_body_size in
          let hash_of = hash c config client key date_now now in
          let meta : ResponseMeta = record {
            status = response.status;
            headers = header_texts http (http.iter headers);
          } in
          let d = set_response_meta channels hash_of meta s.inflight in
          let run = stream_body channels hash_of max cacheable response.body 0 [] d in
          streamed-cache response s run (λ out h e.
            let p =
              stream_body-Streams channels hash_of max cacheable response.body 0 [] out d run.1
                (omega arith) (bounded sent response (came response refl)) (λ i. (h i, run.1)) in
            rw e at p.whole)

      body_collected-Stores :
          (req : Request http) (s : Shared c) (r : Result Bytes)
          → Stores
              (source_of c config client key date_now now req r)
              s
              (body_collected c config client key date_now now req s r)
      unfolding body_collected sent_request
      body_collected-Stores req s (err e) = record {
        on_success = λ h. absurd cc;
        on_error = λ e h. refl;
      }
      body_collected-Stores req s panicked = record {
        on_success = λ h. absurd cc;
        on_error = λ e h. refl;
      }
      body_collected-Stores req s (ok body) =
          let sent = sent_request c req body in
          answered-Stores s sent (fetch_with_timeout http (List Read) client sent)
            (λ response h. fetch_with_timeout-answered http (List Read) client sent response h)

      -- If a fetch has no error, then the cache was given an entry with the status, the filtered
      -- headers and the whole body of the response of upstream, if that is to be kept and has a
      -- lifetime, and nothing otherwise. If it has an error, also after a part of the body, the
      -- cache is as before. The sizes of the bodies do not pass 64 bits.
      pub fetch_and_stream-Stores :
          (req : Request http) (body : List (Attempt Bytes (Option Bytes))) (s : Shared c)
          → Stores
              (source_of c config client key date_now now req
                (collect_body body config.security.max_body_size))
              s
              (fetch_and_stream c config client key date_now now req body s)
      unfolding fetch_and_stream
      fetch_and_stream-Stores req body s =
          body_collected-Stores req s (collect_body body config.security.max_body_size)

-- ===== src/Proxy/Handler/Fetch/Passing.antt =====
-- What `fetch_and_stream` does to the downloads: the headers are set and chunks are added.
use squiddish.Prelude.{
  ℕ, ◌<◌, ◌≡◌, refl, ap, ◌∙◌, Option, none, some, List, [], length, arith, Bool-cases, inl, inr,
}
use squiddish.Text.{Bytes}
use squiddish.Error.{Result, ok, err, panicked, ◌>>=◌}
use squiddish.Cache.Key.{CacheKey}
use squiddish.Cache.Files.{Attempt}
use squiddish.Cache.Inflight.Broadcast.{ResponseMeta}
use squiddish.Cache.Inflight.{InflightDownloads, set_response_meta}
use squiddish.Cache.Inflight.Joining.{Steps, stop, step, sets_meta}
use squiddish.Cache.Tiered.{TieredCache}
use squiddish.Config.{Config}
use squiddish.Proxy.Http.{Request}
use squiddish.Proxy.Policy.{forward_headers, filter_headers, should_cache_response}
use squiddish.Proxy.Client.{
  Sent, Upstream, Reply, answered as answer, collect_body, fetch_with_timeout,
}
use squiddish.Proxy.Client.Replies.{fetch_with_timeout-answered}
use squiddish.Proxy.Shared.{Crates, Shared}
use squiddish.Proxy.Handler.Download.{Read, stream_body}
use squiddish.Proxy.Handler.Download.Bounded.{chunks}
use squiddish.Proxy.Handler.Download.Passing.{stream_body-Passes}
use squiddish.Proxy.Handler.Fetch.{
  key_str, logged, cached, streamed, answered, body_collected, fetch_and_stream, header_texts,
  sent_request,
}

module _ (c : Crates) where
  open c use {channels, http, platform}

  module _ (config : Config platform) (client : Sent http → Reply http (List Read)) (key : CacheKey)
      (date_now now : ℕ) where
    abbrev pub hash : Bytes
    hash = key_str c config client key date_now now

    logged-inflight :
        (s : Shared c) (r : Result (Unit {0}) × TieredCache c.fs c.digests c.json c.moka)
        → (logged c config client key date_now now s r).1.inflight ≡ s.inflight
    unfolding logged
    logged-inflight s (ok tt, t) = refl
    logged-inflight s (err e, t) = refl
    logged-inflight s (panicked, t) = refl

    cached-inflight :
        (status : ℕ) (headers : List (Bytes × Bytes)) (body : Bytes) (s : Shared c) (o : Option ℕ)
        → (cached c config client key date_now now status headers body s o).1.inflight ≡ s.inflight
    unfolding cached
    cached-inflight status headers body s none = refl
    cached-inflight status headers body s (some ttl) = logged-inflight s _

    pub streamed-inflight :
        (status : ℕ) (headers : http.Map) (texts : List (Bytes × Bytes)) (s : Shared c)
        (r : Result Bytes × InflightDownloads channels)
        → (streamed c config client key date_now now status headers texts s r).1.inflight ≡ r.1
    unfolding streamed
    streamed-inflight status headers texts s (err e, d) = refl
    streamed-inflight status headers texts s (panicked, d) = refl
    streamed-inflight status headers texts s (ok body, d) =
        let s' : Shared c = record s { inflight = d } in
        elim (Bool-cases (should_cache_response http status headers)) [
          | inl e ↦ rw e (cached-inflight status texts body s' _)
          | inr e ↦ rw e
        ]

    -- What upstream answers to the request with its body
    abbrev pub source_of : Request http → Result Bytes → Result (Upstream http (List Read))
    source_of req r = r >>= λ body. fetch_with_timeout http (List Read) client (record {
      method = req.method;
      uri = req.uri;
      uri_host = req.uri_host;
      headers = forward_headers http req.headers;
      body = body;
    })

    -- Chunks were added to the download of the key, fewer than 1000; where there was no error
    -- they are those that upstream sent, all of them.
    pub record Adds (source : Result (Upstream http (List Read))) (s : Shared c)
        (after : Result (Unit {0}) × Shared c) : Type 0 where
      pub added : List Bytes
      pub steps : Steps channels hash s.inflight added after.1.inflight
      pub few : length added < 1000
      pub whole :
          (response : Upstream http (List Read))
          → source ≡ ok response
          → after.0 ≡ ok tt
          → added ≡ chunks response.body

    unchanged :
        (source : Result (Upstream http (List Read))) (s : Shared c) (r : Result (Unit {0}))
        → (r ≡ ok tt → ⊥)
        → Adds source s (r, s)
    unchanged source s r bad = record {
      added = [];
      steps = stop;
      few = omega arith;
      whole = λ response e h. absurd (bad h);
    }

    streamed-ok :
        (status : ℕ) (headers : http.Map) (texts : List (Bytes × Bytes)) (s : Shared c)
        (r : Result Bytes × InflightDownloads channels)
        → (streamed c config client key date_now now status headers texts s r).0 ≡ ok tt
        → (out : Bytes) × (r.0 ≡ ok out)
    unfolding streamed
    streamed-ok status headers texts s (ok body, d) h = (body, refl)
    streamed-ok status headers texts s (err e, d) h = absurd cc
    streamed-ok status headers texts s (panicked, d) h = absurd cc

    answered-Adds :
        (s : Shared c) (r : Result (Upstream http (List Read)))
        → ((response : Upstream http (List Read))
            → r ≡ ok response
            → length (chunks response.body) < 1000)
        → Adds r s (answered c config client key date_now now s r)
    unfolding answered
    answered-Adds s (err e) short = unchanged (err e) s (err e) (λ h. cc)
    answered-Adds s panicked short = unchanged panicked s panicked (λ h. cc)
    answered-Adds s (ok response) short =
        let headers = filter_headers http response.headers in
        let texts = header_texts http (http.iter headers) in
        let meta : ResponseMeta = record { status = response.status; headers = texts } in
        let cacheable = should_cache_response http response.status headers in
        let max = config.security.max_body_size in
        let d = set_response_meta channels hash meta s.inflight in
        let p = stream_body-Passes channels hash max cacheable response.body 0 [] d in
        let run = stream_body channels hash max cacheable response.body 0 [] d in
        record {
          added = p.added;
          steps =
              rw (streamed-inflight response.status headers texts s run)
                (step (sets_meta meta) p.steps);
          few = omega (arith, p.few, short response refl);
          whole = λ other e h.
              let (out, finished) = streamed-ok response.status headers texts s run h in
              let same : response ≡ other = cc in
              p.whole out finished ∙ ap (λ r. chunks r.body) same;
        }

    module _
        (short : (sent : Sent http) (response : Upstream http (List Read))
          → client sent ≡ answer response
          → length (chunks response.body) < 1000) where
      body_collected-Adds :
          (req : Request http) (s : Shared c) (r : Result Bytes)
          → Adds (source_of req r) s (body_collected c config client key date_now now req s r)
      unfolding body_collected sent_request
      body_collected-Adds req s (err e) = unchanged (err e) s (err e) (λ h. cc)
      body_collected-Adds req s panicked = unchanged panicked s panicked (λ h. cc)
      body_collected-Adds req s (ok body) =
          let sent = sent_request c req body in
          answered-Adds s (fetch_with_timeout http (List Read) client sent) (λ response h.
            short sent response
              (fetch_with_timeout-answered http (List Read) client sent response h))

      pub fetch_and_stream-Adds :
          (req : Request http) (body : List (Attempt Bytes (Option Bytes))) (s : Shared c)
          → Adds
              (source_of req (collect_body body config.security.max_body_size))
              s
              (fetch_and_stream c config client key date_now now req body s)
      unfolding fetch_and_stream
      fetch_and_stream-Adds req body s =
          body_collected-Adds req s (collect_body body config.security.max_body_size)

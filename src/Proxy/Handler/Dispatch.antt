-- ===== src/Proxy/Handler/Dispatch.antt =====
-- src/proxy/handler.rs: how a request is handled. A request for a download waits once, for the
-- headers; its handling is in two parts here, `handle_request` up to that point and `resumed`
-- behind it.
pub mod Serving
pub mod Late
mod Examples
use squiddish.Prelude.{ℕ, ◌||◌, Option, none, some, List, [], if◌then◌else◌}
use squiddish.Text.{Bytes, codes, bytes_eq}
use squiddish.Error.{Result, ok, err, panicked, network}
use squiddish.Cache.{CacheEntry}
use squiddish.Cache.Key.{CacheKey, hash_hex}
use squiddish.Cache.Inflight.Broadcast.{MetaResult, meta_ok, meta_err}
use squiddish.Cache.Inflight.{
  InflightDownloads, DownloadAction, joined, started, join_or_start_download,
}
use squiddish.Cache.Tiered.{TieredCache, get}
use squiddish.Config.{Config}
use squiddish.Proxy.Http.{Request}
use squiddish.Proxy.Client.{Sent, Reply}
use squiddish.Proxy.Shared.{Crates, Shared}
use squiddish.Proxy.Responses.{Response, build_response_from_cache}
use squiddish.Proxy.Responses.Streamed.{StreamingResponse, build_streaming_response}
use squiddish.Proxy.Responses.ErrorPage.{build_error_page}
use squiddish.Proxy.Tunnel.{Permits, Dialled, handle_connect}
use squiddish.Proxy.Handler.{validate_request, create_cache_key}
use squiddish.Proxy.Handler.Forward.{Frames, ForwardedResponse, handle_passthrough_request}

module _ (c : Crates) where
  open c use {channels, http, platform}

  -- `Response<Either<Full<Bytes>, StreamingBody>>`
  pub data Answer : Type 0 where
    full : Response → Answer
    streaming : StreamingResponse c → Answer
    forwarded : ForwardedResponse c → Answer

  pub as_answer : {T : Type 0} → (T → Answer) → Result T → Result Answer
  as_answer f (ok x) = ok (f x)
  as_answer f (err e) = err e
  as_answer f panicked = panicked

  -- How far a request has come: it has its answer, or it waits for the headers of a download that it
  -- joined, or of one that it began and whose task it has spawned.
  pub data Progress : Type 0 where
    finished : Result Answer → Progress
    joining : channels.Receiver → List Bytes → channels.WatchReceiver → Progress
    leading : CacheKey → channels.Sender → channels.Receiver → channels.WatchReceiver → Progress

  -- `handle_streaming_download`, up to its task
  handle_streaming_download :
      CacheKey → channels.Sender → channels.WatchReceiver → Shared c → Progress × Shared c
  handle_streaming_download cache_key sender meta_rx s =
      let (receiver, w) = channels.subscribe sender s.inflight.world in
      let d : InflightDownloads channels = record (s.inflight) { world = w } in
      (leading cache_key sender receiver meta_rx, record s { inflight = d })

  acted :
      CacheKey
      → Shared c
      → DownloadAction channels × InflightDownloads channels
      → Progress × Shared c
  unfolding handle_streaming_download
  acted cache_key s (joined receiver initial_chunks meta_rx, d) =
      (joining receiver initial_chunks meta_rx, record s { inflight = d })
  acted cache_key s (started sender meta_rx, d) =
      handle_streaming_download cache_key sender meta_rx (record s { inflight = d })

  -- `now` is the time for the header of a cached response
  looked_up :
      ℕ
      → CacheKey
      → InflightDownloads channels
      → Result (Option CacheEntry) × TieredCache c.fs c.digests c.json c.moka
      → Progress × Shared c
  unfolding acted
  looked_up now cache_key d (ok (some entry), t) = (
    finished (ok (full (build_response_from_cache http c.valid now entry))),
    record { cache = t; inflight = d },
  )
  looked_up now cache_key d (ok none, t) =
      acted cache_key (record { cache = t; inflight = d })
        (join_or_start_download channels (hash_hex c.digests cache_key) d)
  looked_up now cache_key d (err e, t) = (finished (err e), record { cache = t; inflight = d })
  looked_up now cache_key d (panicked, t) = (finished panicked, record { cache = t; inflight = d })

  -- the times are those of the two tests of `get`, and that of the response
  pub handle_cacheable_request : ℕ → ℕ → ℕ → Request http → Shared c → Progress × Shared c
  unfolding looked_up
  handle_cacheable_request early late now req s =
      let cache_key = create_cache_key http c.digests req in
      looked_up now cache_key s.inflight
        (get c.fs c.digests c.json c.moka early late cache_key s.cache)

  -- What the wait for the headers comes to: `none` if the channel is closed before there is a value.
  awaited : Bytes → channels.Receiver → List Bytes → Option MetaResult → Result Answer
  awaited closed receiver initial_chunks none = err (network closed)
  awaited closed receiver initial_chunks (some (meta_err e)) = err (network e)
  awaited closed receiver initial_chunks (some (meta_ok meta)) =
      as_answer streaming (build_streaming_response c meta receiver initial_chunks)

  pub resumed : (channels.WatchReceiver → Option MetaResult) → Progress → Result Answer
  unfolding awaited as_answer
  resumed wait_for (finished result) = result
  resumed wait_for (joining receiver initial_chunks meta_rx) =
      awaited (codes "Download failed before headers received") receiver initial_chunks
        (wait_for meta_rx)
  resumed wait_for (leading cache_key sender receiver meta_rx) =
      awaited (codes "Request failed") receiver [] (wait_for meta_rx)

  -- `handle` turns an error into its page
  pub handled : Bytes → Result Answer → Result Answer
  unfolding as_answer
  handled time (ok response) = ok response
  handled time (err e) = as_answer full (build_error_page http c.valid time e)
  handled time panicked = panicked

  module _ (permits : Permits) (config : Config platform) (client : Sent http → Reply http Frames)
      (dial : Bytes → Dialled) (early late now : ℕ) where
    connecting :
        Shared c → Result Response × permits.Semaphore → Progress × Shared c × permits.Semaphore
    unfolding as_answer
    connecting s (r, sema) = (finished (as_answer full r), s, sema)

    caching : permits.Semaphore → Progress × Shared c → Progress × Shared c × permits.Semaphore
    caching sema (p, s) = (p, s, sema)

    validated :
        Request http
        → Frames
        → Shared c
        → permits.Semaphore
        → Result (Unit {0})
        → Progress × Shared c × permits.Semaphore
    unfolding connecting caching
    validated req body s sema (ok tt) =
        if bytes_eq req.method (codes "CONNECT")
        then connecting s (handle_connect http permits config.security dial req sema)
        else if bytes_eq req.method (codes "GET") || bytes_eq req.method (codes "HEAD")
        then caching sema (handle_cacheable_request early late now req s)
        else (
          finished (as_answer forwarded (handle_passthrough_request c config client req body)),
          s,
          sema,
        )
    validated req body s sema (err e) = (finished (err e), s, sema)
    validated req body s sema panicked = (finished panicked, s, sema)

    pub handle_request :
        Request http
        → Frames
        → Shared c
        → permits.Semaphore
        → Progress × Shared c × permits.Semaphore
    unfolding validated
    handle_request req body s sema =
        validated req body s sema (validate_request http config.security req)

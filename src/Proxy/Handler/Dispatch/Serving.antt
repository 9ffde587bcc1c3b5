-- ===== src/Proxy/Handler/Dispatch/Serving.antt =====
-- A request that finds nothing in the cache and begins a download: what it is answered, and what its
-- body has still to come, once the task of the download has run.
use squiddish.Prelude.{ℕ, ◌<◌, ◌≡◌, refl, ap, Option, none, some, List, [], ◌++◌, map, length}
use squiddish.Text.{Bytes, codes}
use squiddish.Error.{ProxyError, Result, ok, err, panicked, network, to_string}
use squiddish.Cache.{CacheEntry}
use squiddish.Cache.Files.{Attempt}
use squiddish.Cache.Key.{CacheKey, hash_hex}
use squiddish.Cache.Inflight.Broadcast.{data_chunk, MetaResult}
use squiddish.Cache.Inflight.{
  InflightDownloads, DownloadAction, joined, started, find, join_or_start_download,
}
use squiddish.Cache.Inflight.Joining.{Follows}
use squiddish.Cache.Inflight.Registry.{Shows}
use squiddish.Cache.Inflight.Starting.{Begins, join_or_start_download-Begins}
use squiddish.Cache.Tiered.{TieredCache}
use squiddish.Config.{Config}
use squiddish.Proxy.Http.{Request}
use squiddish.Proxy.Client.{Sent, Upstream, Reply, answered, collect_body}
use squiddish.Proxy.Shared.{Crates, Shared}
use squiddish.Proxy.Responses.Streamed.{build_streaming_response}
use squiddish.Proxy.Handler.Download.{Read}
use squiddish.Proxy.Handler.Download.Bounded.{chunks}
use squiddish.Proxy.Handler.Fetch.{download_task}
use squiddish.Proxy.Handler.Fetch.Ending.{Told, meta_of, download_task-Ends, ending}
use squiddish.Proxy.Handler.Fetch.Passing.{source_of}
use squiddish.Proxy.Handler.Dispatch.{
  Answer, streaming, as_answer, Progress, finished, joining, leading, handle_streaming_download,
  acted, looked_up, handle_cacheable_request, awaited, resumed,
}

module _ (c : Crates) where
  open c use {channels, http, platform}

  -- The request leads a download that has just begun.
  record Leads (key : CacheKey) (sender : channels.Sender) (r : channels.Receiver)
      (w : channels.WatchReceiver) (s : Shared c) : Type 0 where
    same_sender : channels.origin r ≡ sender
    follows : Follows channels (hash_hex c.digests key) r [] [] s.inflight
    shows : Shows channels (hash_hex c.digests key) w none s.inflight

  -- where a request leads a download, it is as above
  Behind : Progress c × Shared c → Type 0
  Behind (finished r, s) = Unit
  Behind (joining r cs w, s) = Unit
  Behind (leading key sender r w, s) = Leads key sender r w s

  acted-Behind :
      (key : CacheKey) (s : Shared c) (x : DownloadAction channels × InflightDownloads channels)
      → Begins channels (hash_hex c.digests key) x
      → Behind (acted c key s x)
  unfolding acted handle_streaming_download Behind
  acted-Behind key s (joined t cs v, d) b = tt
  acted-Behind key s (started sender w, d) b = record {
    same_sender = channels.origin-subscribe sender d.world;
    follows = b.follows;
    shows = b.shows;
  }

  looked_up-Behind :
      (now : ℕ) (key : CacheKey) (d : InflightDownloads channels)
      (x : Result (Option CacheEntry) × TieredCache c.fs c.digests c.json c.moka)
      → Behind (looked_up c now key d x)
  unfolding looked_up Behind
  looked_up-Behind now key d (ok (some entry), t) = tt
  looked_up-Behind now key d (err e, t) = tt
  looked_up-Behind now key d (panicked, t) = tt
  looked_up-Behind now key d (ok none, t) =
      acted-Behind key (record { cache = t; inflight = d })
        (join_or_start_download channels (hash_hex c.digests key) d)
        (join_or_start_download-Begins channels (hash_hex c.digests key) d)

  handle_cacheable_request-Behind :
      (early late now : ℕ) (req : Request http) (s : Shared c)
      → Behind (handle_cacheable_request c early late now req s)
  unfolding handle_cacheable_request
  handle_cacheable_request-Behind early late now req s = looked_up-Behind now _ s.inflight _

  module _ (config : Config platform) (client : Sent http → Reply http (List Read)) (key : CacheKey)
      (date_now now : ℕ) where
    abbrev Source : Type 0
    Source = Result (Upstream http (List Read))

    -- What the request is answered when the task has ended with the result, and what its body has
    -- still to come. A panic of the task leaves it to the headers that were seen before.
    pub record Serves (source : Source) (r : channels.Receiver) (result : Result (Unit {0}))
        (answer : Result (Answer c)) (s : Shared c) : Type 0 where
      pub added : List Bytes
      pub waiting : channels.pending r s.inflight.world ≡ map data_chunk added ++ ending result
      pub on_success :
          result ≡ ok tt
          → (response : Upstream http (List Read)) × (source ≡ ok response)
            × (added ≡ chunks response.body)
            × (answer
                ≡ as_answer c streaming (
                    build_streaming_response c
                      (meta_of c config client key date_now now response)
                      r
                      []))
      pub on_error : (e : ProxyError) → result ≡ err e → answer ≡ err (network (to_string e))
      pub gone : find channels (hash_hex c.digests key) s.inflight.downloads ≡ none

    module _ (source : Source) (closed : Bytes) (r : channels.Receiver) (added : List Bytes) where
      succeeded :
          (result : Result (Unit {0})) (v : Option MetaResult)
          → Told c config client key date_now now source result v
          → ((response : Upstream http (List Read))
              → source ≡ ok response
              → result ≡ ok tt
              → added ≡ chunks response.body)
          → result ≡ ok tt
          → (response : Upstream http (List Read)) × (source ≡ ok response)
            × (added ≡ chunks response.body)
            × (awaited c closed r [] v
                ≡ as_answer c streaming (
                    build_streaming_response c
                      (meta_of c config client key date_now now response)
                      r
                      []))
      unfolding awaited
      succeeded (ok tt) v (response, came, e) whole h =
          (response, came, whole response came refl, rw e refl)
      succeeded (err e) v told whole h = absurd cc
      succeeded panicked v told whole h = absurd cc

      failed :
          (result : Result (Unit {0})) (v : Option MetaResult)
          → Told c config client key date_now now source result v
          → (e : ProxyError) → result ≡ err e
          → awaited c closed r [] v ≡ err (network (to_string e))
      unfolding awaited
      failed (ok tt) v told e h = absurd cc
      failed panicked v told e h = absurd cc
      failed (err x) v told e h = rw told (ap (λ y. message y) h)
        where
          message : Result (Unit {0}) → Result (Answer c)
          message (ok tt) = err (network [])
          message panicked = err (network [])
          message (err y) = err (network (to_string y))

    -- If a request finds nothing in the cache and leads a download, of which upstream sends fewer
    -- than 1000 chunks, and it is resumed once the task of the download has run, then on success
    -- it is answered with a streaming response that has the status and the filtered headers of
    -- upstream, and behind an error with an error that has the text of that one. Its receiver has
    -- the chunks of the download pending, on success all that upstream sent, with the end or the
    -- error behind them, and the download is no longer registered.
    pub handle_cacheable_request-Serves :
        ((sent : Sent http) (response : Upstream http (List Read))
          → client sent ≡ answered response
          → length (chunks response.body) < 1000)
        → (early late then : ℕ) (req : Request http) (s s₁ : Shared c) (sender : channels.Sender)
          (r : channels.Receiver) (w : channels.WatchReceiver)
          (body : List (Attempt Bytes (Option Bytes))) (result : Result (Unit {0})) (s₂ : Shared c)
        → handle_cacheable_request c early late then req s ≡ (leading key sender r w, s₁)
        → download_task c config client key date_now now sender req body s₁ ≡ (result, s₂)
        → Serves
            (source_of c config client key date_now now req
              (collect_body body config.security.max_body_size))
            r
            result
            (resumed c (λ v. channels.value v s₂.inflight.world) (leading key sender r w))
            s₂
    unfolding resumed Behind
    handle_cacheable_request-Serves short early late then req s s₁ sender r w body result s₂ began
          ran =
        let leads : Behind (leading key sender r w, s₁) =
          rw began at (handle_cacheable_request-Behind early late then req s) in
        let ends = rw ran at (
          download_task-Ends c config client key date_now now short sender req body s₁ r [] w none
            leads.same_sender leads.follows leads.shows) in
        let v = channels.value w s₂.inflight.world in
        let source =
          source_of c config client key date_now now req
            (collect_body body config.security.max_body_size) in
        let closed = codes "Request failed" in
        record {
          added = ends.added;
          waiting = ends.waiting;
          on_success = succeeded source closed r ends.added result v ends.told ends.whole;
          on_error = failed source closed r ends.added result v ends.told;
          gone = ends.gone;
        }

-- ===== src/Proxy/Handler/Fetch/Ending.antt =====
-- How a download comes to its end: those that follow it are told, those that wait for its headers
-- are answered, and it is no longer registered.
use squiddish.Prelude.{
  ℕ, ◌<◌, ◌≡◌, refl, sym, ap, ◌∙◌, Option, none, some, List, [], ◌∷◌, ◌++◌, map, length, arith,
  append-nil,
}
use squiddish.Text.{Bytes}
use squiddish.Error.{Result, ok, err, panicked, to_string}
use squiddish.Cache.Key.{CacheKey}
use squiddish.Cache.Files.{Attempt}
use squiddish.Cache.Inflight.Broadcast.{
  DownloadChunk, data_chunk, complete, error, ResponseMeta, MetaResult, meta_ok, meta_err,
}
use squiddish.Cache.Inflight.{
  InflightDownloads, find, set_response_error, set_response_meta, complete_download,
}
use squiddish.Cache.Inflight.Joining.{sets_error, Follows, Step-Follows, Steps-Follows, length-map}
use squiddish.Cache.Inflight.Registry.{
  find-complete_download, Shows, add_chunk-Shows, set_response_meta-Shows, set_response_error-Shows,
}
use squiddish.Config.{Config}
use squiddish.Proxy.Http.{Request}
use squiddish.Proxy.Policy.{filter_headers, should_cache_response}
use squiddish.Proxy.Client.{
  Sent, Upstream, Reply, answered as answer, collect_body, fetch_with_timeout,
}
use squiddish.Proxy.Shared.{Crates, Shared}
use squiddish.Proxy.Handler.Download.{Read, stream_body}
use squiddish.Proxy.Handler.Download.Bounded.{chunks}
use squiddish.Proxy.Handler.Download.Passing.{stream_body-keeps}
use squiddish.Proxy.Handler.Fetch.{
  answered, body_collected, fetch_and_stream, reported, download_task, header_texts, sent_request,
}
use squiddish.Proxy.Handler.Fetch.Passing.{
  hash, source_of, fetch_and_stream-Adds, streamed-inflight,
}

-- the last message for those that follow; behind a panic there is none and the channel is closed
abbrev pub ending : Result (Unit {0}) → List DownloadChunk
ending (ok tt) = complete ∷ []
ending (err e) = error (to_string e) ∷ []
ending panicked = []

module _ (c : Crates) where
  open c use {channels, http, platform}

  module _ (config : Config platform) (client : Sent http → Reply http (List Read)) (key : CacheKey)
      (date_now now : ℕ) where
    -- the headers of a response, as they are passed on
    abbrev pub meta_of : Upstream http (List Read) → ResponseMeta
    meta_of response = record {
      status = response.status;
      headers = header_texts http (http.iter (filter_headers http response.headers));
    }

    -- what those that wait for the headers see at the end: those of upstream, or the error
    abbrev pub Told :
        Result (Upstream http (List Read)) → Result (Unit {0}) → Option MetaResult → Type 0
    Told source (ok tt) v =
        (response : Upstream http (List Read)) × (source ≡ ok response)
        × (v ≡ some (meta_ok (meta_of response)))
    Told source (err e) v = v ≡ some (meta_err (to_string e))
    Told source panicked v = Unit

    abbrev hash_of : Bytes
    hash_of = hash c config client key date_now now

    sent_last :
        (r : channels.Receiver) (initial added : List Bytes) (m : DownloadChunk)
        (d : InflightDownloads channels) (f : Follows channels hash_of r initial added d)
        (sender : channels.Sender)
        → channels.origin r ≡ sender
        → length added < 1000
        → channels.pending r (channels.send m sender d.world) ≡ map data_chunk added ++ m ∷ []
    sent_last r initial added m d f sender mine few = rw (sym mine) (
        (channels.Live-send m d.world r f.live
          (omega (arith, ap length f.waiting, length-map added))).1
        ∙ ap (λ ms. ms ++ m ∷ []) f.waiting)

    pub reported-pending :
        (r : channels.Receiver) (initial added : List Bytes) (d : InflightDownloads channels)
        (f : Follows channels hash_of r initial added d) (sender : channels.Sender)
        (result : Result (Unit {0}))
        → channels.origin r ≡ sender
        → length added < 1000
        → channels.pending r (reported c config client key date_now now sender result d).world
          ≡ map data_chunk added ++ ending result
    unfolding reported
    reported-pending r initial added d f sender (ok tt) mine few =
        sent_last r initial added complete d f sender mine few
    reported-pending r initial added d f sender panicked mine few =
        f.waiting ∙ sym (append-nil (map data_chunk added))
    reported-pending r initial added d f sender (err e) mine few =
        let g =
          Step-Follows channels hash_of r initial added (sets_error {d = d} (to_string e)) f
            (omega arith) in
        sent_last r initial added (error (to_string e))
          (set_response_error channels hash_of (to_string e) d) (rw (append-nil added) at g) sender
          mine few

    -- What the task leaves for a receiver that follows it, and for a watch receiver of it.
    pub record Ends (source : Result (Upstream http (List Read))) (r : channels.Receiver)
        (w : channels.WatchReceiver) (result : Result (Unit {0})) (s' : Shared c) : Type 0 where
      pub added : List Bytes
      pub waiting : channels.pending r s'.inflight.world ≡ map data_chunk added ++ ending result
      pub whole :
          (response : Upstream http (List Read))
          → source ≡ ok response
          → result ≡ ok tt
          → added ≡ chunks response.body
      pub told : Told source result (channels.value w s'.inflight.world)
      pub gone : find channels hash_of s'.inflight.downloads ≡ none

    -- some value is shown, that of headers where there was no error
    record Showing (source : Result (Upstream http (List Read))) (w : channels.WatchReceiver)
        (result : Result (Unit {0})) (s : Shared c) : Type 0 where
      value : Option MetaResult
      shows : Shows channels hash_of w value s.inflight
      of_headers :
          result ≡ ok tt
          → (response : Upstream http (List Read)) × (source ≡ ok response)
            × (value ≡ some (meta_ok (meta_of response)))

    module _ (w : channels.WatchReceiver) (v : Option MetaResult) (s : Shared c)
        (before : Shows channels hash_of w v s.inflight) where
      not_ok :
          (source : Result (Upstream http (List Read))) (result : Result (Unit {0}))
          → (result ≡ ok tt → ⊥)
          → Showing source w result s
      not_ok source result bad = record {
        value = v;
        shows = before;
        of_headers = λ h. absurd (bad h);
      }

      answered-Showing :
          (r : Result (Upstream http (List Read)))
          → Showing r w
              (answered c config client key date_now now s r).0
              (answered c config client key date_now now s r).1
      unfolding answered
      answered-Showing (err e) = not_ok (err e) (err e) (λ h. cc)
      answered-Showing panicked = not_ok panicked panicked (λ h. cc)
      answered-Showing (ok response) =
          let headers = filter_headers http response.headers in
          let texts = header_texts http (http.iter headers) in
          let meta : ResponseMeta = record { status = response.status; headers = texts } in
          let cacheable = should_cache_response http response.status headers in
          let d = set_response_meta channels hash_of meta s.inflight in
          let max = config.security.max_body_size in
          record {
            value = some (meta_ok meta);
            shows =
                rw
                  (streamed-inflight c config client key date_now now response.status headers texts
                    s (stream_body channels hash_of max cacheable response.body 0 [] d))
                  (stream_body-keeps channels hash_of max cacheable
                    (Shows channels hash_of w (some (meta_ok meta)))
                    (λ chunk d₁ p.
                      add_chunk-Shows channels hash_of w (some (meta_ok meta)) d₁ p chunk)
                    response.body 0 [] d
                    (set_response_meta-Shows channels hash_of w v s.inflight before meta));
            of_headers = λ h. (response, refl, refl);
          }

      body_collected-Showing :
          (req : Request http) (r : Result Bytes)
          → Showing
              (source_of c config client key date_now now req r)
              w
              (body_collected c config client key date_now now req s r).0
              (body_collected c config client key date_now now req s r).1
      unfolding body_collected sent_request
      body_collected-Showing req (err e) = not_ok (err e) (err e) (λ h. cc)
      body_collected-Showing req panicked = not_ok panicked panicked (λ h. cc)
      body_collected-Showing req (ok body) =
          answered-Showing (fetch_with_timeout http (List Read) client (sent_request c req body))

    reported-Told :
        (source : Result (Upstream http (List Read))) (w : channels.WatchReceiver)
        (result : Result (Unit {0})) (s : Shared c) (sender : channels.Sender)
        → Showing source w result s
        → Told source result (
            channels.value w
              (reported c config client key date_now now sender result s.inflight).world)
    unfolding reported
    reported-Told source w panicked s sender sh = tt
    reported-Told source w (ok tt) s sender sh =
        let (response, came, e) = sh.of_headers refl in
        (
          response,
          came,
          channels.value-send complete sender s.inflight.world w ∙ sh.shows.shown ∙ e,
        )
    reported-Told source w (err e) s sender sh =
        let d = set_response_error channels hash_of (to_string e) s.inflight in
        channels.value-send (error (to_string e)) sender d.world w
        ∙ (set_response_error-Shows channels hash_of w sh.value s.inflight sh.shows
            (to_string e)).shown

    -- If upstream sends fewer than 1000 chunks, then at the end of the task a receiver of the
    -- download has the chunks that were added pending, all that upstream sent where there was no
    -- error, and behind them the one message that tells the end: that it is complete, or the
    -- error. Who waits for the headers sees headers, or the error. The download is no longer
    -- registered. A panic sends no message, but the download is not registered either.
    pub download_task-Ends :
        ((sent : Sent http) (response : Upstream http (List Read))
          → client sent ≡ answer response
          → length (chunks response.body) < 1000)
        → (sender : channels.Sender) (req : Request http)
          (body : List (Attempt Bytes (Option Bytes))) (s : Shared c) (r : channels.Receiver)
          (initial : List Bytes) (w : channels.WatchReceiver) (v : Option MetaResult)
        → channels.origin r ≡ sender
        → Follows channels hash_of r initial [] s.inflight
        → Shows channels hash_of w v s.inflight
        → Ends
            (source_of c config client key date_now now req
              (collect_body body config.security.max_body_size))
            r
            w
            (download_task c config client key date_now now sender req body s).0
            (download_task c config client key date_now now sender req body s).1
    unfolding download_task fetch_and_stream complete_download
    download_task-Ends short sender req body s r initial w v mine f before =
        let a = fetch_and_stream-Adds c config client key date_now now short req body s in
        let (result, s₁) = fetch_and_stream c config client key date_now now req body s in
        let g = Steps-Follows channels hash_of r initial [] a.steps f (omega (arith, a.few)) in
        record {
          added = a.added;
          waiting = reported-pending r initial a.added s₁.inflight g sender result mine a.few;
          whole = a.whole;
          told =
              reported-Told
                (source_of c config client key date_now now req
                  (collect_body body config.security.max_body_size))
                w result s₁ sender
                (body_collected-Showing w v s before req
                  (collect_body body config.security.max_body_size));
          gone =
              find-complete_download channels hash_of
                (reported c config client key date_now now sender result s₁.inflight);
        }

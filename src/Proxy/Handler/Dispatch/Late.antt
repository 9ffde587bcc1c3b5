-- ===== src/Proxy/Handler/Dispatch/Late.antt =====
-- A request that joins a download while its body is streamed.
use squiddish.Prelude.{
  ℕ, ◌<◌, ◌≡◌, refl, sym, ap, ◌∙◌, Bool, some, List, [], ◌∷◌, ◌++◌, map, length, arith,
}
use squiddish.Text.{Bytes}
use squiddish.Error.{ok}
use squiddish.Cache.Inflight.Broadcast.{data_chunk, complete, ResponseMeta, meta_ok}
use squiddish.Cache.Inflight.{
  InflightDownloads, DownloadState, joined, find, join_or_start_download,
}
use squiddish.Cache.Inflight.Joining.{Steps, join_or_start_download-Joins}
use squiddish.Cache.Inflight.Registry.{Shows, add_chunk-Shows, join_or_start_download-Shows}
use squiddish.Cache.Key.{CacheKey}
use squiddish.Config.{Config}
use squiddish.Proxy.Client.{Sent, Reply}
use squiddish.Proxy.Shared.{Crates}
use squiddish.Proxy.Responses.Streamed.{build_streaming_response}
use squiddish.Proxy.Handler.Download.{Read, stream_body}
use squiddish.Proxy.Handler.Download.Bounded.{chunks}
use squiddish.Proxy.Handler.Download.Passing.{stream_body-keeps, stream_body-Passes}
use squiddish.Proxy.Handler.Fetch.{reported}
use squiddish.Proxy.Handler.Fetch.Passing.{hash}
use squiddish.Proxy.Handler.Fetch.Ending.{reported-pending}
use squiddish.Proxy.Handler.Dispatch.{streaming, as_answer, joining, awaited, resumed}

module _ (c : Crates) where
  open c use {channels, http, platform}

  module _ (config : Config platform) (client : Sent http → Reply http (List Read)) (key : CacheKey)
      (date_now now : ℕ) (max : ℕ) (cacheable : Bool) where
    abbrev hash_of : Bytes
    hash_of = hash c config client key date_now now

    -- What the request that joined has when the download has ended: the response with the headers of
    -- the download, whose body begins with the chunks that were there when it joined and goes on with
    -- those that came behind.
    pub record JoinsLate (meta : ResponseMeta) (state : DownloadState channels) (rest : List Read)
        (d d' : InflightDownloads channels) : Type 0 where
      pub receiver : channels.Receiver
      pub meta_rx : channels.WatchReceiver
      pub run :
          (join_or_start_download channels hash_of d).0 ≡ joined receiver state.accumulated meta_rx
      pub answer :
          resumed c (λ w. channels.value w d'.world) (joining receiver state.accumulated meta_rx)
          ≡ as_answer c streaming (build_streaming_response c meta receiver state.accumulated)
      pub waiting :
          channels.pending receiver d'.world ≡ map data_chunk (chunks rest) ++ complete ∷ []

    -- A request joins a download whose headers are known and of whose body fewer than 1000 chunks
    -- are still to come. If the rest of the body is streamed without an error and its end is
    -- reported, then the request is answered with the headers of the download. The body of its
    -- response begins with the chunks that the download had when it joined, and its receiver has
    -- all chunks of the rest pending, with the end behind them.
    pub joining-JoinsLate :
        (meta : ResponseMeta) (state : DownloadState channels) (w : channels.WatchReceiver)
        (d : InflightDownloads channels) (rest : List Read) (total_size : ℕ) (cache_buf out : Bytes)
        (d₂ : InflightDownloads channels)
        → Shows channels hash_of w (some (meta_ok meta)) d
        → find channels hash_of d.downloads ≡ some state
        → length (chunks rest) < 1000
        → stream_body channels hash_of max cacheable rest total_size cache_buf
            (join_or_start_download channels hash_of d).1
          ≡ (ok out, d₂)
        → JoinsLate meta state rest d
            (reported c config client key date_now now state.sender (ok tt) d₂)
    unfolding resumed awaited reported
    joining-JoinsLate meta state w d rest total_size cache_buf out d₂ shows found few streamed =
        let d₁ = (join_or_start_download channels hash_of d).1 in
        let p = stream_body-Passes channels hash_of max cacheable rest total_size cache_buf d₁ in
        let whole = p.whole out (ap (λ x. x.0) streamed) in
        let steps : Steps channels hash_of d₁ (chunks rest) d₂ =
          rw (sym whole, sym (ap (λ x. x.1) streamed)) p.steps in
        let j =
          join_or_start_download-Joins channels hash_of d d₂ state (chunks rest) found steps
            (omega arith) in
        let later =
          stream_body-keeps channels hash_of max cacheable
            (Shows channels hash_of j.meta_rx (some (meta_ok meta)))
            (λ chunk d' s.
              add_chunk-Shows channels hash_of j.meta_rx (some (meta_ok meta)) d' s chunk)
            rest total_size cache_buf d₁
            (join_or_start_download-Shows channels hash_of w (some (meta_ok meta)) d shows
              j.receiver state.accumulated j.meta_rx j.run) in
        let later' : Shows channels hash_of j.meta_rx (some (meta_ok meta)) d₂ =
          rw (sym (ap (λ x. x.1) streamed)) later in
        record {
          receiver = j.receiver;
          meta_rx = j.meta_rx;
          run = j.run;
          answer =
              rw (channels.value-send complete state.sender d₂.world j.meta_rx ∙ later'.shown) refl;
          waiting =
              reported-pending c config client key date_now now j.receiver state.accumulated
                (chunks rest) d₂ j.follows state.sender (ok tt) j.mine few;
        }

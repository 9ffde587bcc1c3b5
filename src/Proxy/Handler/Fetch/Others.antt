-- ===== src/Proxy/Handler/Fetch/Others.antt =====
-- The task of a download leaves the downloads of other keys alone.
use squiddish.Prelude.{ℕ, ◌<◌, ◌≡◌, ◌≢◌, refl, ◌∙◌, Option, List, length}
use squiddish.Text.{Bytes}
use squiddish.Error.{Result, ok, err, panicked, to_string}
use squiddish.Cache.Key.{CacheKey}
use squiddish.Cache.Files.{Attempt}
use squiddish.Cache.Inflight.{InflightDownloads, find}
use squiddish.Cache.Inflight.Joining.{sets_error}
use squiddish.Cache.Inflight.Registry.{
  Step-find_other, Steps-find_other, find_other-complete_download,
}
use squiddish.Config.{Config}
use squiddish.Proxy.Http.{Request}
use squiddish.Proxy.Client.{Sent, Upstream, Reply, answered as answer}
use squiddish.Proxy.Shared.{Crates, Shared}
use squiddish.Proxy.Handler.Download.{Read}
use squiddish.Proxy.Handler.Download.Bounded.{chunks}
use squiddish.Proxy.Handler.Fetch.{fetch_and_stream, reported, download_task}
use squiddish.Proxy.Handler.Fetch.Passing.{hash, fetch_and_stream-Adds}

module _ (c : Crates) where
  open c use {channels, http, platform}

  module _ (config : Config platform) (client : Sent http → Reply http (List Read)) (key : CacheKey)
      (date_now now : ℕ) where
    abbrev pub hash_of : Bytes
    hash_of = hash c config client key date_now now

    reported-find_other :
        (k : Bytes)
        → k ≢ hash_of
        → (sender : channels.Sender) (result : Result (Unit {0})) (d : InflightDownloads channels)
        → find channels k (reported c config client key date_now now sender result d).downloads
          ≡ find channels k d.downloads
    unfolding reported
    reported-find_other k ne sender (ok tt) d = refl
    reported-find_other k ne sender panicked d = refl
    reported-find_other k ne sender (err e) d =
        Step-find_other channels hash_of k ne (sets_error {d = d} (to_string e))

    -- If upstream sends fewer than 1000 chunks, then what is registered for any other hash is the
    -- same behind the task of a download as before it, however the task ends.
    pub download_task-find_other :
        ((sent : Sent http) (response : Upstream http (List Read))
          → client sent ≡ answer response
          → length (chunks response.body) < 1000)
        → (k : Bytes) → k ≢ hash_of
        → (sender : channels.Sender) (req : Request http)
          (body : List (Attempt Bytes (Option Bytes))) (s : Shared c)
        → find channels k
            (download_task c config client key date_now now sender req body s).1.inflight.downloads
          ≡ find channels k s.inflight.downloads
    unfolding download_task
    download_task-find_other short k ne sender req body s =
        let a = fetch_and_stream-Adds c config client key date_now now short req body s in
        let (result, s₁) = fetch_and_stream c config client key date_now now req body s in
        find_other-complete_download channels hash_of k ne
          (reported c config client key date_now now sender result s₁.inflight)
        ∙ reported-find_other k ne sender result s₁.inflight
        ∙ Steps-find_other channels hash_of k ne a.steps

-- ===== src/Cache/Inflight/Starting.antt =====
-- A request that begins a download, and subscribes to it before anything is sent.
use squiddish.Prelude.{◌≡◌, refl, ◌∙◌, Option, none, some, List, [], ◌∷◌}
use squiddish.Text.{Bytes}
use squiddish.Text.Laws.{bytes_eq_refl}
use squiddish.Cache.Inflight.Broadcast.{Channels}
use squiddish.Cache.Inflight.{
  InflightDownloads, DownloadState, DownloadAction, joined, started, find, join_or_start_download,
  join_or_start, join, start,
}
use squiddish.Cache.Inflight.Joining.{Follows}
use squiddish.Cache.Inflight.Registry.{Shows}

module _ (lib : Channels) (key : Bytes) where
  -- The subscription to the sender follows the download, and the watch receiver shows no value yet.
  pub record Starts (sender : lib.Sender) (w : lib.WatchReceiver) (d : InflightDownloads lib)
      : Type 0 where
    pub follows :
        Follows lib key
          (lib.subscribe sender d.world).0
          []
          []
          (record d { world = (lib.subscribe sender d.world).1 })
    pub shows : Shows lib key w none (record d { world = (lib.subscribe sender d.world).1 })

  start-find :
      (downloads : List (Bytes × DownloadState lib)) (state : DownloadState lib)
      → find lib key ((key, state) ∷ downloads) ≡ some state
  unfolding find
  start-find downloads state = rw (bytes_eq_refl key)

  -- what an action leaves behind, where it begins a download
  abbrev pub Begins : DownloadAction lib × InflightDownloads lib → Type 0
  Begins (joined r cs w, d) = Unit
  Begins (started sender w, d) = Starts sender w d

  start-Begins : (d : InflightDownloads lib) → Begins (start lib key d)
  unfolding start
  start-Begins d =
      let (sender, w₁) = lib.channel d.world in
      let (meta_tx, meta_rx, w₂) = lib.watch_channel w₁ in
      let state : DownloadState lib = record {
        sender = sender;
        accumulated = [];
        meta_tx = meta_tx;
      } in
      let (live, empty) = lib.Live-subscribe_self sender w₂ in
      let there = start-find d.downloads state in
      record {
        follows = record {
          state = state;
          found = there;
          same_sender = lib.origin-subscribe sender w₂;
          live = live;
          chunks = refl;
          waiting = empty;
        };
        shows = record {
          state = state;
          found = there;
          same_sender = lib.watch_origin-watch_channel w₁;
          shown = lib.value-subscribe sender w₂ meta_rx ∙ lib.value-watch_channel w₁;
        };
      }

  action-Begins :
      (d : InflightDownloads lib) (o : Option (DownloadState lib))
      → Begins (join_or_start lib key d o)
  unfolding join_or_start join
  action-Begins d none = start-Begins d
  action-Begins d (some state) = tt

  -- behind `join_or_start_download`, where it begins a download
  pub join_or_start_download-Begins :
      (d : InflightDownloads lib) → Begins (join_or_start_download lib key d)
  unfolding join_or_start_download
  join_or_start_download-Begins d = action-Begins d (find lib key d.downloads)

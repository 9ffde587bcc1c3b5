-- ===== src/Cache/Inflight.antt =====
-- src/cache/inflight.rs: the downloads that are under way, which requests for the same key share.
-- Each operation holds the lock of the map from its start to its end, so it is one step.
pub mod Broadcast
pub mod Joining
pub mod Registry
pub mod Starting
pub mod Separately
mod Examples
use squiddish.Prelude.{ℕ, Option, none, some, List, [], ◌∷◌, ◌++◌, if◌then◌else◌}
use squiddish.Text.{Bytes, bytes_eq}
use Broadcast.{DownloadChunk, data_chunk, ResponseMeta, MetaResult, meta_ok, meta_err, Channels}

module _ (lib : Channels) where
  open lib use {World, Sender, Receiver, WatchSender, WatchReceiver}

  pub record DownloadState : Type 0 where
    pub sender : Sender
    pub accumulated : List Bytes
    pub meta_tx : WatchSender

  -- `world` is the state of the channels.
  pub record InflightDownloads : Type 0 where
    pub downloads : List (Bytes × DownloadState)
    pub world : World

  pub data DownloadAction : Type 0 where
    joined : Receiver → List Bytes → WatchReceiver → DownloadAction
    started : Sender → WatchReceiver → DownloadAction

  -- the operations of the map: `get`, `remove`, and `insert` where the key is not there
  pub find : Bytes → List (Bytes × DownloadState) → Option DownloadState
  find key [] = none
  find key ((k, state) ∷ rest) = if bytes_eq k key then some state else find key rest

  pub without : Bytes → List (Bytes × DownloadState) → List (Bytes × DownloadState)
  without key [] = []
  without key ((k, state) ∷ rest) =
      let rest' = without key rest in if bytes_eq k key then rest' else (k, state) ∷ rest'

  -- the state of the key with a chunk more
  pub push : Bytes → Bytes → List (Bytes × DownloadState) → List (Bytes × DownloadState)
  push key chunk [] = []
  push key chunk ((k, state) ∷ rest) =
      if bytes_eq k key
      then (k, record state { accumulated = state.accumulated ++ chunk ∷ [] }) ∷ rest
      else (k, state) ∷ push key chunk rest

  join : InflightDownloads → DownloadState → DownloadAction × InflightDownloads
  join d state =
      let (receiver, w₁) = lib.subscribe state.sender d.world in
      let (meta_rx, w₂) = lib.watch_subscribe state.meta_tx w₁ in
      (joined receiver state.accumulated meta_rx, record d { world = w₂ })

  start : Bytes → InflightDownloads → DownloadAction × InflightDownloads
  start key_str d =
      let (sender, w₁) = lib.channel d.world in
      let (meta_tx, meta_rx, w₂) = lib.watch_channel w₁ in
      let state : DownloadState = record { sender = sender; accumulated = []; meta_tx = meta_tx } in
      (started sender meta_rx, record d { downloads = (key_str, state) ∷ d.downloads; world = w₂ })

  join_or_start :
      Bytes → InflightDownloads → Option DownloadState → DownloadAction × InflightDownloads
  unfolding join start
  join_or_start key_str d (some state) = join d state
  join_or_start key_str d none = start key_str d

  -- The argument is `key.hash_hex()`, here and below.
  unfoldable pub join_or_start_download :
      Bytes → InflightDownloads → DownloadAction × InflightDownloads
  unfolding join_or_start find
  join_or_start_download key_str d = join_or_start key_str d (find key_str d.downloads)

  meta_sent : MetaResult → InflightDownloads → Option DownloadState → InflightDownloads
  meta_sent result d none = d
  meta_sent result d (some state) = record d {
    world = lib.watch_send (some result) state.meta_tx d.world;
  }

  pub set_response_meta : Bytes → ResponseMeta → InflightDownloads → InflightDownloads
  unfolding meta_sent find
  set_response_meta key_str meta d = meta_sent (meta_ok meta) d (find key_str d.downloads)

  pub set_response_error : Bytes → Bytes → InflightDownloads → InflightDownloads
  unfolding meta_sent find
  set_response_error key_str error d = meta_sent (meta_err error) d (find key_str d.downloads)

  chunk_added : Bytes → Bytes → InflightDownloads → Option DownloadState → InflightDownloads
  unfolding push
  chunk_added key_str chunk d none = d
  chunk_added key_str chunk d (some state) = record d {
    downloads = push key_str chunk d.downloads;
    world = lib.send (data_chunk chunk) state.sender d.world;
  }

  pub add_chunk : Bytes → Bytes → InflightDownloads → InflightDownloads
  unfolding chunk_added find
  add_chunk key_str chunk d = chunk_added key_str chunk d (find key_str d.downloads)

  unfoldable pub complete_download : Bytes → InflightDownloads → InflightDownloads
  unfolding without
  complete_download key_str d = record d { downloads = without key_str d.downloads }

-- ===== src/Cache/Inflight/Broadcast.antt =====
-- What goes through the channels of a download, and the channels of `tokio::sync` as an interface.
use squiddish.Prelude.{ℕ, ◌<◌, ◌≡◌, Option, none, List, [], ◌∷◌, ◌++◌, length}
use squiddish.Text.{Bytes}

pub data DownloadChunk : Type 0 where
  data_chunk : Bytes → DownloadChunk
  complete : DownloadChunk
  error : Bytes → DownloadChunk

pub record ResponseMeta : Type 0 where
  pub status : ℕ
  pub headers : List (Bytes × Bytes)

-- `ResponseMetaResult`
pub data MetaResult : Type 0 where
  meta_ok : ResponseMeta → MetaResult
  meta_err : Bytes → MetaResult

-- `channel` is `broadcast::channel(1000)` and `watch_channel` is `watch::channel(None)`. `pending` is
-- what a receiver has yet to receive, `origin` the sender that it is subscribed to: the laws speak
-- of them, and of `value`, which is what a watch receiver shows, and `watch_origin`, its sender. A
-- receiver that has fewer than 1000 messages pending loses none.
pub record Channels : Type 1 where
  pub World : Type 0
  pub Sender : Type 0
  pub Receiver : Type 0
  pub WatchSender : Type 0
  pub WatchReceiver : Type 0
  pub channel : World → Sender × World
  pub subscribe : Sender → World → Receiver × World
  pub send : DownloadChunk → Sender → World → World
  pub watch_channel : World → WatchSender × WatchReceiver × World
  pub watch_subscribe : WatchSender → World → WatchReceiver × World
  pub watch_send : Option MetaResult → WatchSender → World → World
  pub Live : Receiver → World → Type 0
  pub pending : Receiver → World → List DownloadChunk
  pub origin : Receiver → Sender
  pub origin-subscribe : (s : Sender) (w : World) → origin (subscribe s w).0 ≡ s
  pub Live-subscribe_self :
      (s : Sender) (w : World)
      → Live (subscribe s w).0 (subscribe s w).1
        × (pending (subscribe s w).0 (subscribe s w).1 ≡ [])
  pub Live-subscribe :
      (s : Sender) (w : World) (r : Receiver)
      → Live r w
      → Live r (subscribe s w).1 × (pending r (subscribe s w).1 ≡ pending r w)
  pub Live-send :
      (m : DownloadChunk) (w : World) (r : Receiver)
      → Live r w
      → length (pending r w) < 1000
      → Live r (send m (origin r) w) × (pending r (send m (origin r) w) ≡ pending r w ++ m ∷ [])
  pub Live-watch_subscribe :
      (t : WatchSender) (w : World) (r : Receiver)
      → Live r w
      → Live r (watch_subscribe t w).1 × (pending r (watch_subscribe t w).1 ≡ pending r w)
  pub watch_origin : WatchReceiver → WatchSender
  pub value : WatchReceiver → World → Option MetaResult
  pub watch_origin-watch_channel :
      (w : World) → watch_origin (watch_channel w).1 ≡ (watch_channel w).0
  pub value-watch_channel : (w : World) → value (watch_channel w).1 (watch_channel w).2 ≡ none
  pub watch_origin-watch_subscribe :
      (t : WatchSender) (w : World) → watch_origin (watch_subscribe t w).0 ≡ t
  pub value-subscribe :
      (s : Sender) (w : World) (r : WatchReceiver) → value r (subscribe s w).1 ≡ value r w
  pub value-send :
      (m : DownloadChunk) (s : Sender) (w : World) (r : WatchReceiver)
      → value r (send m s w) ≡ value r w
  pub value-watch_subscribe :
      (t : WatchSender) (w : World) (r : WatchReceiver)
      → value r (watch_subscribe t w).1 ≡ value r w
  pub value-watch_subscribe_self :
      (t : WatchSender) (w : World) (r : WatchReceiver)
      → watch_origin r ≡ t
      → value (watch_subscribe t w).0 (watch_subscribe t w).1 ≡ value r w
  pub value-watch_send :
      (v : Option MetaResult) (w : World) (r : WatchReceiver)
      → value r (watch_send v (watch_origin r) w) ≡ v
  pub Live-watch_send :
      (v : Option MetaResult) (t : WatchSender) (w : World) (r : Receiver)
      → Live r w
      → Live r (watch_send v t w) × (pending r (watch_send v t w) ≡ pending r w)

-- ===== src/Proxy/Shared.antt =====
-- What the handler shares between requests: the cache with its downloads, and the crates that the
-- model takes as interfaces.
use squiddish.Prelude.{ℕ, Bool, Option}
use squiddish.Text.{Bytes}
use squiddish.Cache.Key.{Digests}
use squiddish.Cache.Files.{FileSystem, Json}
use squiddish.Cache.Inflight.Broadcast.{Channels}
use squiddish.Cache.Inflight.{InflightDownloads}
use squiddish.Cache.Tiered.{Moka, TieredCache}
use squiddish.Config.{Platform}
use squiddish.Proxy.Http.{Http}
use squiddish.Proxy.Streaming.{Polled}

-- `parse_http_date` is that of the crate `httpdate`. `valid` tells the names and values that the
-- builder of a response takes, and `refusal` is what its error prints. `poll_next` is that of the
-- `BroadcastStream` of a receiver.
pub record Crates : Type 1 where
  pub fs : FileSystem
  pub digests : Digests
  pub json : Json
  pub moka : Moka
  pub channels : Channels
  pub http : Http
  pub platform : Platform
  pub parse_http_date : Bytes → Option ℕ
  pub valid : Bytes → Bytes → Bool
  pub refusal : Bytes
  pub poll_next : channels.Receiver → Polled × channels.Receiver

-- `TieredCache` with its field `inflight`
pub record Shared (c : Crates) : Type 0 where
  pub cache : TieredCache c.fs c.digests c.json c.moka
  pub inflight : InflightDownloads c.channels

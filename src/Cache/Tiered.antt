-- ===== src/Cache/Tiered.antt =====
-- `TieredCache` of src/cache/mod.rs.
pub mod Lookup
mod Examples
use squiddish.Prelude.{ℕ, ◌*◌, ◌≡◌, ◌≢◌, Bool, not, Option, none, some, ltb, if◌then◌else◌, ◌⊎◌}
use squiddish.Text.{Bytes}
use squiddish.Error.{Result, ok, err, panicked}
use squiddish.Cache.{CacheEntry, is_expired, size}
use squiddish.Cache.Key.{CacheKey, Digests, FilePath}
use squiddish.Cache.Files.{FileSystem, Json}
pub use squiddish.Cache.Memory.{Moka}
use squiddish.Cache.Memory.{
  new as memory_new, get as memory_get, put as memory_put, remove as memory_remove,
}
use squiddish.Cache.Disk.Rebuild.{Directories, new as disk_new}
use squiddish.Cache.Disk.State.{DiskCache}
use squiddish.Cache.Disk.Read.{get as disk_get}
use squiddish.Cache.Disk.{put as disk_put, remove}

module _ (fs : FileSystem) (digests : Digests) (json : Json) (moka : Moka) where
  open moka use {Memory}

  pub record TieredCache : Type 0 where
    pub memory : Memory
    pub disk : DiskCache fs

  -- an entry of the disk: `now` is the time of the second test
  from_disk :
      ℕ
      → CacheKey
      → TieredCache
      → Result (Option CacheEntry)
      → Result (Option CacheEntry) × TieredCache
  from_disk now key t (ok (some entry)) =
      if not (is_expired now entry)
      then (ok (some entry), record t { memory = memory_put moka key entry t.memory })
      else (ok none, record t { disk = (remove fs digests key t.disk).1 })
  from_disk now key t (ok none) = (ok none, t)
  from_disk now key t (err e) = (err e, t)
  from_disk now key t panicked = (panicked, t)

  second_tier : ℕ → CacheKey → TieredCache → Result (Option CacheEntry) × TieredCache
  unfolding from_disk
  second_tier now key t = from_disk now key t (disk_get fs digests json key t.disk)

  -- `now` and `later` are the times of the two tests
  from_memory :
      ℕ → ℕ → CacheKey → TieredCache → Option CacheEntry → Result (Option CacheEntry) × TieredCache
  unfolding second_tier
  from_memory now later key t (some entry) =
      if not (is_expired now entry)
      then (ok (some entry), t)
      else second_tier later key (record t { memory = memory_remove moka key t.memory })
  from_memory now later key t none = second_tier later key t

  unfoldable pub get : ℕ → ℕ → CacheKey → TieredCache → Result (Option CacheEntry) × TieredCache
  unfolding from_memory
  get now later key t = from_memory now later key t (memory_get moka key t.memory)

  stored :
      CacheKey
      → CacheEntry
      → TieredCache
      → Result (Unit {0}) × DiskCache fs
      → Result (Unit {0}) × TieredCache
  stored key entry t (ok tt, d) =
      (ok tt, record t { memory = memory_put moka key entry t.memory; disk = d })
  stored key entry t (err e, d) = (err e, record t { disk = d })
  stored key entry t (panicked, d) = (panicked, record t { disk = d })

  pub put : CacheKey → CacheEntry → TieredCache → Result (Unit {0}) × TieredCache
  unfolding stored
  put key entry t =
      if ltb (1024 * 1024) (size entry)
      then stored key entry t (disk_put fs digests json key entry t.disk)
      else stored key entry t (ok tt, t.disk)

  constructed : Memory → Option (Result (DiskCache fs)) → Option (Result TieredCache)
  constructed memory none = none
  constructed memory (some (ok d)) = some (ok (record { memory = memory; disk = d }))
  constructed memory (some (err e)) = some (err e)
  constructed memory (some panicked) = some panicked

  -- `none` is that of the walk over the directory; the downloads are not here
  new : Directories fs → ℕ → ℕ → FilePath → ℕ → fs.World → Option (Result TieredCache)
  unfolding constructed
  new dirs fuel memory_size disk_cache_dir disk_size w =
      constructed (memory_new moka memory_size) (disk_new fs dirs fuel disk_cache_dir disk_size w)

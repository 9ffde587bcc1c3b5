-- ===== src/Cache/Disk.antt =====
-- src/cache/disk.rs: the disk cache. A method returns its result and the new state. The lock of the
-- writers makes `put` and `remove` exclude one another, so a method runs from a state to a state.
pub mod State
pub mod Evict
pub mod Write
pub mod Read
pub mod Places
pub mod Sizes
pub mod Tracking
pub mod Changes
pub mod Accounting
pub mod Lookup
pub mod Removal
pub mod Fifo
pub mod Rebuild
mod Examples
use squiddish.Prelude.{ℕ, ◌-◌, Option, none, some, ◌∷◌, [], ◌++◌, ltb, length, if◌then◌else◌}
use squiddish.Text.{Bytes, codes}
use squiddish.Error.{Result, ok, err, panicked, cache}
use squiddish.Cache.{CacheEntry}
use squiddish.Cache.Key.{FilePath, CacheKey, Digests, hash_hex, file_path}
use squiddish.Cache.Files.{Attempt, done, failed, FileSystem, Json, DiskCacheMetadata}
use State.{DiskCache, metadata_of, add64, files_size, remove_files, retain_ne}
use Evict.{evict_if_needed}
use Write.{write_entry}

module _ (fs : FileSystem) where
  open fs use {World}

  -- `put` and `remove` find the path of a key at their first use of it.
  with_path {ℓ} :
      {A : Type ℓ}
      → Option FilePath
      → DiskCache fs
      → (FilePath → Result A × DiskCache fs)
      → Result A × DiskCache fs
  with_path none d f = (panicked, d)
  with_path (some base_path) d f = f base_path

  module _ (digests : Digests) where
    -- the state after `write_entry`
    tracked : Bytes → ℕ → DiskCache fs → Result ℕ × World → Result (Unit {0}) × DiskCache fs
    tracked key_hex old_size d (ok new_size, w) = (
      ok tt,
      record d {
        current_size = add64 (d.current_size - old_size) new_size;
        eviction_order = d.eviction_order ++ key_hex ∷ [];
        world = w;
      },
    )
    tracked key_hex old_size d (err e, w) = (err e, record d { world = w })
    tracked key_hex old_size d (panicked, w) = (panicked, record d { world = w })

    -- `put` behind the eviction, at the path of the key
    replace :
        CacheKey → CacheEntry → Bytes → DiskCache fs → FilePath → Result (Unit {0}) × DiskCache fs
    unfolding tracked
    replace key entry meta_json d base_path =
        let old_size = files_size fs base_path d.world in
        let w = remove_files fs base_path d.world in
        let key_hex = hash_hex digests key in
        let order =
          if ltb 0 old_size then retain_ne key_hex d.eviction_order else d.eviction_order in
        tracked key_hex old_size (record d { eviction_order = order; world = w })
          (write_entry fs base_path entry meta_json w)

    after_eviction :
        CacheKey
        → CacheEntry
        → Bytes
        → Result (Unit {0}) × DiskCache fs
        → Result (Unit {0}) × DiskCache fs
    unfolding replace with_path
    after_eviction key entry meta_json (ok tt, d) =
        with_path (file_path digests d.cache_dir key) d (replace key entry meta_json d)
    after_eviction key entry meta_json (err e, d) = (err e, d)
    after_eviction key entry meta_json (panicked, d) = (panicked, d)

    module _ (json : Json) where
      put_serialized :
          CacheKey
          → CacheEntry
          → DiskCache fs
          → Attempt Bytes Bytes
          → Result (Unit {0}) × DiskCache fs
      unfolding after_eviction
      put_serialized key entry d (failed e) =
          (err (cache (codes "Failed to serialize metadata: " ++ e)), d)
      put_serialized key entry d (done meta_json) =
          let entry_size = add64 (length meta_json) (length entry.content) in
          if ltb d.max_size entry_size
          then (ok tt, d)
          else after_eviction key entry meta_json (evict_if_needed fs entry_size d)

      unfoldable pub put : CacheKey → CacheEntry → DiskCache fs → Result (Unit {0}) × DiskCache fs
      unfolding put_serialized
      put key entry d = put_serialized key entry d (json.to_vec (metadata_of entry))

    removed : CacheKey → DiskCache fs → FilePath → Result (Unit {0}) × DiskCache fs
    removed key d base_path = (
      ok tt,
      record d {
        current_size = d.current_size - files_size fs base_path d.world;
        eviction_order = retain_ne (hash_hex digests key) d.eviction_order;
        world = remove_files fs base_path d.world;
      },
    )

    pub remove : CacheKey → DiskCache fs → Result (Unit {0}) × DiskCache fs
    unfolding removed with_path
    remove key d = with_path (file_path digests d.cache_dir key) d (removed key d)

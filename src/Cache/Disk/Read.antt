-- ===== src/Cache/Disk/Read.antt =====
-- `read_entry` and `get` of src/cache/disk.rs.
pub mod View
use squiddish.Prelude.{Option, none, some, ◌++◌}
use squiddish.Text.{Bytes, codes}
use squiddish.Error.{Result, ok, err, panicked, io, cache, IoError, ErrorKind, not_found}
use squiddish.Cache.{CacheEntry}
use squiddish.Cache.Key.{FilePath, CacheKey, Digests, file_path}
use squiddish.Cache.Files.{Attempt, done, failed, FileSystem, Json, DiskCacheMetadata}
use squiddish.Cache.Disk.State.{DiskCache, with_extension, entry_of}

module _ (fs : FileSystem) (digests : Digests) (json : Json) where
  open fs use {World, Handle, open_file, read_to_end}

  -- the capacity that is reserved for the body is left out
  data_read : DiskCacheMetadata → Attempt IoError Bytes → Result (Option CacheEntry)
  data_read m (failed e) = err (io e)
  data_read m (done b) = ok (some (entry_of b m))

  meta_parsed : World → Handle → Attempt Bytes DiskCacheMetadata → Result (Option CacheEntry)
  unfolding data_read
  meta_parsed w data_file (failed e) = err (cache (codes "Failed to deserialize metadata: " ++ e))
  meta_parsed w data_file (done m) = data_read m (read_to_end data_file w)

  meta_read : World → Handle → Attempt IoError Bytes → Result (Option CacheEntry)
  unfolding meta_parsed
  meta_read w data_file (failed e) = err (io e)
  meta_read w data_file (done b) = meta_parsed w data_file (json.from_slice b)

  -- a file that is not there is a miss, any other fault an error
  open_failed : IoError → ErrorKind → Result (Option CacheEntry)
  open_failed e not_found = ok none
  open_failed e _ = err (io e)

  data_opened : World → Handle → Attempt IoError Handle → Result (Option CacheEntry)
  unfolding meta_read open_failed
  data_opened w meta_file (failed e) = open_failed e e.kind
  data_opened w meta_file (done data_file) = meta_read w data_file (read_to_end meta_file w)

  meta_opened : World → FilePath → Attempt IoError Handle → Result (Option CacheEntry)
  unfolding data_opened
  meta_opened w base_path (failed e) = open_failed e e.kind
  meta_opened w base_path (done meta_file) =
      data_opened w meta_file (open_file (with_extension (codes "data") base_path) w)

  read_entry : Option FilePath → World → Result (Option CacheEntry)
  unfolding meta_opened
  read_entry none w = panicked
  read_entry (some base_path) w =
      meta_opened w base_path (open_file (with_extension (codes "meta") base_path) w)

  unfoldable pub get : CacheKey → DiskCache fs → Result (Option CacheEntry)
  unfolding read_entry
  get key d = read_entry (file_path digests d.cache_dir key) d.world

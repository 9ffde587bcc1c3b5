-- ===== src/Cache/Disk/State.antt =====
-- src/cache/disk.rs: the state of the disk cache, the paths of an entry's two files, and what is
-- measured and removed there.
use squiddish.Prelude.{
  ℕ, ◌+◌, ◌%◌, ◌^◌, Option, none, some, List, [], ◌∷◌, ◌++◌, is_empty, length, if◌then◌else◌,
}
use squiddish.Text.{Bytes, codes, bytes_eq, rsplit_once}
use squiddish.Cache.Key.{FilePath}
use squiddish.Cache.{CacheEntry}
use squiddish.Cache.Files.{FileSystem, DiskCacheMetadata}

-- addition on `u64`
unfoldable pub add64 : ℕ → ℕ → ℕ
add64 a b = (a + b) % 2 ^ 64

-- the file name without its extension
unfoldable pub stem_of : Bytes → Option (Bytes × Bytes) → Bytes
stem_of name none = name
stem_of name (some (stem, ext)) = if is_empty stem then name else stem

-- `path.with_extension(ext)`
unfoldable pub with_extension : Bytes → FilePath → FilePath
unfolding stem_of
with_extension ext [] = []
with_extension ext (name ∷ []) = (stem_of name (rsplit_once b'.' name) ++ b'.' ∷ ext) ∷ []
with_extension ext (name ∷ n ∷ rest) = name ∷ with_extension ext (n ∷ rest)

-- `order.retain(|h| *h != key_hex)`
unfoldable pub retain_ne : Bytes → List Bytes → List Bytes
retain_ne key_hex [] = []
retain_ne key_hex (h ∷ order) =
    let rest = retain_ne key_hex order in if bytes_eq h key_hex then rest else h ∷ rest

abbrev pub or_zero : Option ℕ → ℕ
or_zero none = 0
or_zero (some n) = n

abbrev pub metadata_of : CacheEntry → DiskCacheMetadata
metadata_of entry = record {
  headers = entry.headers;
  status = entry.status;
  timestamp = entry.timestamp;
  ttl_seconds = entry.ttl_seconds;
  data_size = length entry.content;
}

abbrev pub entry_of : Bytes → DiskCacheMetadata → CacheEntry
entry_of b m = record {
  content = b;
  headers = m.headers;
  status = m.status;
  timestamp = m.timestamp;
  ttl_seconds = m.ttl_seconds;
}

pub record DiskCache (fs : FileSystem) : Type 0 where
  pub cache_dir : FilePath
  pub max_size : ℕ
  pub current_size : ℕ
  pub eviction_order : List Bytes
  pub world : fs.World

module _ (fs : FileSystem) where
  open fs use {World, metadata_len, remove_file}

  -- the sizes of the two files of an entry, as the file system has them
  unfoldable pub files_size : FilePath → World → ℕ
  files_size base_path w =
      add64 (or_zero (metadata_len w (with_extension (codes "meta") base_path)))
        (or_zero (metadata_len w (with_extension (codes "data") base_path)))

  -- `let _ = fs::remove_file(...)` for both files: a failure is passed over
  unfoldable pub remove_files : FilePath → World → World
  remove_files base_path w =
      let after = (remove_file (with_extension (codes "meta") base_path) w).1 in
      (remove_file (with_extension (codes "data") base_path) after).1

-- ===== src/Cache/Disk/Write.antt =====
-- `write_entry` of src/cache/disk.rs.
pub mod Effect
pub mod Entries
use squiddish.Prelude.{ℕ, List, [], ◌∷◌, length}
use squiddish.Text.{Bytes, codes}
use squiddish.Error.{Result, ok, err, panicked, io, IoError}
use squiddish.Cache.{CacheEntry}
use squiddish.Cache.Key.{FilePath}
use squiddish.Cache.Files.{Attempt, done, failed, FileSystem}
use squiddish.Cache.Disk.State.{add64, with_extension}

module _ (fs : FileSystem) where
  open fs use {World, Handle, create_dir_all, create, write_all, flush}

  -- `File::create(path).await?`, then `write_all` and `flush`
  flushed : Attempt IoError (Unit {0}) × World → Result (Unit {0}) × World
  flushed (done tt, w) = (ok tt, w)
  flushed (failed e, w) = (err (io e), w)

  written : Handle → Attempt IoError (Unit {0}) × World → Result (Unit {0}) × World
  written f (done tt, w) = flushed (flush f w)
  written f (failed e, w) = (err (io e), w)

  created : Bytes → Attempt IoError Handle × World → Result (Unit {0}) × World
  created b (done f, w) = written f (write_all f b w)
  created b (failed e, w) = (err (io e), w)

  pub write_file : FilePath → Bytes → World → Result (Unit {0}) × World
  unfolding created written flushed
  write_file p b w = created b (create p w)

  data_written : ℕ → Result (Unit {0}) × World → Result ℕ × World
  data_written total (ok tt, w) = (ok total, w)
  data_written total (err e, w) = (err e, w)
  data_written total (panicked, w) = (panicked, w)

  meta_written : FilePath → Bytes → ℕ → Result (Unit {0}) × World → Result ℕ × World
  meta_written base_path b total (ok tt, w) =
      data_written total (write_file (with_extension (codes "data") base_path) b w)
  meta_written base_path b total (err e, w) = (err e, w)
  meta_written base_path b total (panicked, w) = (panicked, w)

  dir_created : FilePath → Bytes → Bytes → Attempt IoError (Unit {0}) × World → Result ℕ × World
  dir_created base_path meta_json b (done tt, w) =
      meta_written base_path b (add64 (length meta_json) (length b))
        (write_file (with_extension (codes "meta") base_path) meta_json w)
  dir_created base_path meta_json b (failed e, w) = (err (io e), w)

  -- the path without its last component
  parent : FilePath → FilePath
  parent [] = []
  parent (name ∷ []) = []
  parent (name ∷ n ∷ rest) = name ∷ parent (n ∷ rest)

  unfoldable pub write_entry : FilePath → CacheEntry → Bytes → World → Result ℕ × World
  unfolding dir_created meta_written data_written parent write_file
  write_entry base_path entry meta_json w =
      dir_created base_path meta_json entry.content (create_dir_all (parent base_path) w)

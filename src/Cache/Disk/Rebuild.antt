-- ===== src/Cache/Disk/Rebuild.antt =====
-- `DiskCache::new` and `rebuild_index` of src/cache/disk.rs: the walk over the directory of the cache
-- at the start. `none` is a walk that is not over when the fuel is.
pub mod Order
pub mod Walk
pub mod Visits
mod Examples
pub mod Sound
pub mod Index
use squiddish.Prelude.{
  ℕ, zero, suc, ◌+◌, Bool, true, false, Option, none, some, List, [], ◌∷◌, ◌++◌, ltb, is_empty,
  if◌then◌else◌,
}
use squiddish.Text.{Bytes, codes, bytes_eq, rsplit_once}
use squiddish.Error.{IoError, Result, ok, err, io}
use squiddish.Cache.Key.{FilePath}
use squiddish.Cache.Files.{Attempt, done, failed, FileSystem}
use squiddish.Cache.Disk.State.{DiskCache, add64, or_zero, stem_of, with_extension}

-- an entry of a directory; one whose type cannot be read counts as a file
pub record DirEntry : Type 0 where
  pub path : FilePath
  pub is_dir : Bool

-- `read_dir` with `next_entry`: the entries up to the end or the first error, or `none` where the
-- directory cannot be read. `modified` is the time of a file, or 0 where there is none.
pub record Directories (fs : FileSystem) : Type 0 where
  pub read_dir : FilePath → fs.World → Option (List DirEntry)
  pub modified : FilePath → fs.World → ℕ

pub file_name : FilePath → Option Bytes
file_name [] = none
file_name (name ∷ []) = some name
file_name (name ∷ n ∷ rest) = file_name (n ∷ rest)

extension_of : Option (Bytes × Bytes) → Option Bytes
extension_of none = none
extension_of (some (stem, ext)) = if is_empty stem then none else some ext

is_meta : Option Bytes → Bool
is_meta none = false
is_meta (some ext) = bytes_eq ext (codes "meta")

-- `path.extension().and_then(|s| s.to_str()) == Some("meta")`
pub has_meta : Option Bytes → Bool
unfolding extension_of is_meta
has_meta none = false
has_meta (some name) = is_meta (extension_of (rsplit_once b'.' name))

pub record IndexedFile : Type 0 where
  pub hash_hex : Bytes
  pub entry_size : ℕ
  pub modified : ℕ

-- the variables of the loop; the last directory of `stack` stands first
pub record Scan : Type 0 where
  pub stack : List FilePath
  pub total_size : ℕ
  pub files : List IndexedFile

-- `files.sort_by_key`, which keeps the order of files of the same time
insert_by_time : IndexedFile → List IndexedFile → List IndexedFile
insert_by_time f [] = f ∷ []
insert_by_time f (g ∷ gs) =
    let rest = insert_by_time f gs in if ltb g.modified f.modified then g ∷ rest else f ∷ g ∷ gs

pub sort_by_time : List IndexedFile → List IndexedFile
unfolding insert_by_time
sort_by_time [] = []
sort_by_time (f ∷ fs) = insert_by_time f (sort_by_time fs)

pub hashes_of : List IndexedFile → List Bytes
hashes_of [] = []
hashes_of (f ∷ fs) = f.hash_hex ∷ hashes_of fs

module _ (fs : FileSystem) (dirs : Directories fs) where
  open fs use {World, metadata_len}

  named : Option Bytes → ℕ → ℕ → List IndexedFile → List IndexedFile
  named none size time files = files
  named (some name) size time files =
      files
      ++ record {
        hash_hex = stem_of name (rsplit_once b'.' name);
        entry_size = size;
        modified = time;
      }
        ∷ []

  -- a metadata file, with its length if it can be measured
  indexed : World → FilePath → Scan → Option ℕ → Scan
  unfolding named
  indexed w path s none = s
  indexed w path s (some file_size) =
      let entry_size =
        add64 file_size (or_zero (metadata_len w (with_extension (codes "data") path))) in
      record s {
        total_size = add64 s.total_size entry_size;
        files = named (file_name path) entry_size (dirs.modified path w) s.files;
      }

  pub visit : World → DirEntry → Scan → Scan
  unfolding indexed has_meta file_name
  visit w entry s =
      if entry.is_dir
      then record s { stack = entry.path ∷ s.stack }
      else if has_meta (file_name entry.path)
      then indexed w entry.path s (metadata_len w entry.path)
      else s

  pub visit_all : World → List DirEntry → Scan → Scan
  unfolding visit
  visit_all w [] s = s
  visit_all w (entry ∷ entries) s = visit_all w entries (visit w entry s)

  pub opened : World → Option (List DirEntry) → Scan → Scan
  unfolding visit_all
  opened w none s = s
  opened w (some entries) s = visit_all w entries s

  pub walk : ℕ → World → List FilePath → Scan → Option Scan
  unfolding opened
  walk fuel w [] s = some s
  walk zero w (dir ∷ stack) s = none
  walk (suc fuel) w (dir ∷ stack) s =
      let next = opened w (dirs.read_dir dir w) (record s { stack = stack }) in
      walk fuel w next.stack next

  indexed_by : DiskCache fs → Option Scan → Option (DiskCache fs)
  indexed_by d none = none
  indexed_by d (some s) =
      some (record d {
        current_size = s.total_size;
        eviction_order = hashes_of (sort_by_time s.files);
      })

  pub rebuild_index : ℕ → DiskCache fs → Option (DiskCache fs)
  unfolding indexed_by walk
  rebuild_index fuel d = indexed_by d (
      walk fuel d.world (d.cache_dir ∷ [])
        (record { stack = d.cache_dir ∷ []; total_size = 0; files = [] }))

  rebuilt : Option (DiskCache fs) → Option (Result (DiskCache fs))
  rebuilt none = none
  rebuilt (some d) = some (ok d)

  created : ℕ → FilePath → ℕ → Attempt IoError (Unit {0}) × World → Option (Result (DiskCache fs))
  unfolding rebuilt rebuild_index
  created fuel cache_dir max_size (failed e, w) = some (err (io e))
  created fuel cache_dir max_size (done tt, w) = rebuilt (
      rebuild_index fuel (record {
        cache_dir = cache_dir;
        max_size = max_size;
        current_size = 0;
        eviction_order = [];
        world = w;
      }))

  pub new : ℕ → FilePath → ℕ → World → Option (Result (DiskCache fs))
  unfolding created
  new fuel cache_dir max_size w = created fuel cache_dir max_size (fs.create_dir_all cache_dir w)

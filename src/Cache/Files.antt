-- ===== src/Cache/Files.antt =====
-- The file system as the disk cache uses it, and the JSON of its metadata: interfaces with the
-- documented laws of `tokio::fs` and `serde_json`.
use squiddish.Prelude.{ℕ, ◌<◌, ◌≡◌, ◌≢◌, Option, none, some, List, length}
use squiddish.Text.{Bytes}
use squiddish.Error.{IoError, not_found}
use squiddish.Cache.Key.{FilePath}

-- a `Result` of another library
pub data Attempt {ℓ} (E A : Type ℓ) : Type ℓ where
  done : A → Attempt E A
  failed : E → Attempt E A

abbrev pub len? : Option Bytes → Option ℕ
len? none = none
len? (some b) = some (length b)

-- `content` is what a path holds: it is no operation, the laws speak of it. Creating, writing,
-- measuring and removing may fail, and a removal that fails leaves the files as they were. A file
-- that is there is opened and read.
pub record FileSystem : Type 1 where
  pub World : Type 0
  pub Handle : Type 0
  pub content : World → FilePath → Option Bytes
  pub metadata_len : World → FilePath → Option ℕ
  pub remove_file : FilePath → World → Attempt IoError (Unit {0}) × World
  pub create_dir_all : FilePath → World → Attempt IoError (Unit {0}) × World
  pub create : FilePath → World → Attempt IoError Handle × World
  pub write_all : Handle → Bytes → World → Attempt IoError (Unit {0}) × World
  pub flush : Handle → World → Attempt IoError (Unit {0}) × World
  pub open_file : FilePath → World → Attempt IoError Handle
  pub read_to_end : Handle → World → Attempt IoError Bytes
  pub metadata_len-absent :
      (w : World) (p : FilePath) → content w p ≡ none → metadata_len w p ≡ none
  pub metadata_len-content :
      (w : World) (p : FilePath) (n : ℕ) → metadata_len w p ≡ some n → len? (content w p) ≡ some n
  pub content-remove_done :
      (w w' : World) (p : FilePath) → remove_file p w ≡ (done tt, w') → content w' p ≡ none
  pub content-remove_failed :
      (w w' : World) (p : FilePath) (e : IoError)
      → remove_file p w ≡ (failed e, w')
      → content w' p ≡ content w p
  pub content-remove_ne :
      (w : World) (p q : FilePath) → p ≢ q → content ((remove_file p w).1) q ≡ content w q
  pub content-create_dir_all :
      (w : World) (p q : FilePath) → content (create_dir_all p w).1 q ≡ content w q
  pub content-write :
      (w w₁ w₂ w₃ : World) (p : FilePath) (f : Handle) (b : Bytes)
      → create p w ≡ (done f, w₁)
      → write_all f b w₁ ≡ (done tt, w₂)
      → flush f w₂ ≡ (done tt, w₃)
      → (content w₃ p ≡ some b) × ((q : FilePath) → p ≢ q → content w₃ q ≡ content w q)
  pub open-absent :
      (w : World) (p : FilePath)
      → content w p ≡ none
      → (e : IoError) × (open_file p w ≡ failed e) × (e.kind ≡ not_found)
  pub open-present :
      (w : World) (p : FilePath) (b : Bytes)
      → content w p ≡ some b
      → (f : Handle) × (open_file p w ≡ done f) × (read_to_end f w ≡ done b)

-- Files that are there are measured and removed without a fault.
pub record Faultless (fs : FileSystem) : Type 0 where
  pub measures :
      (w : fs.World) (p : FilePath) (b : Bytes)
      → fs.content w p ≡ some b
      → fs.metadata_len w p ≡ some (length b)
  pub removes :
      (w : fs.World) (p : FilePath) (b : Bytes)
      → fs.content w p ≡ some b
      → (w' : fs.World) × (fs.remove_file p w ≡ (done tt, w'))

-- `DiskCacheMetadata` of src/cache/disk.rs
pub record DiskCacheMetadata : Type 0 where
  pub headers : List (Bytes × Bytes)
  pub status : ℕ
  pub timestamp : ℕ
  pub ttl_seconds : ℕ
  pub data_size : ℕ

-- `serde_json` at that type; an error is what its `Display` prints
pub record Json : Type 0 where
  pub to_vec : DiskCacheMetadata → Attempt Bytes Bytes
  pub from_slice : Bytes → Attempt Bytes DiskCacheMetadata
  pub from_slice-to_vec :
      (m : DiskCacheMetadata) (b : Bytes) → to_vec m ≡ done b → from_slice b ≡ done m
  pub to_vec-pos : (m : DiskCacheMetadata) (b : Bytes) → to_vec m ≡ done b → 0 < length b

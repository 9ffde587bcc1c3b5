-- ===== src/Cache/Disk/Read/View.antt =====
-- What `get` returns is a function of what the two files of the key hold.
use squiddish.Prelude.{◌≡◌, refl, Option, none, some, ◌++◌, length}
use squiddish.Text.{Bytes, codes}
use squiddish.Error.{Result, ok, err, cache, IoError, not_found}
use squiddish.Cache.{CacheEntry}
use squiddish.Cache.Key.{CacheKey, Digests, hash_hex, FilePath}
use squiddish.Cache.Files.{Attempt, done, failed, FileSystem, Json, DiskCacheMetadata}
use squiddish.Cache.Disk.State.{DiskCache, with_extension, entry_of}
use squiddish.Cache.Disk.Places.{place, with_extension-place, hash_hex-IsHash, file_path-place}
use squiddish.Cache.Disk.Sizes.{meta_of, data_of}
use squiddish.Cache.Disk.Read.{
  open_failed, data_read, meta_parsed, meta_read, data_opened, meta_opened, read_entry, get,
}

module _ (fs : FileSystem) (digests : Digests) (json : Json) where
  open fs use {World, open_file, read_to_end, content}

  -- the entry that metadata and a body make, or the error of metadata that cannot be read
  abbrev pub parsed : Bytes → Attempt Bytes DiskCacheMetadata → Result (Option CacheEntry)
  parsed b (failed e) = err (cache (codes "Failed to deserialize metadata: " ++ e))
  parsed b (done m) = ok (some (entry_of b m))

  abbrev pub view : Option Bytes → Option Bytes → Result (Option CacheEntry)
  view none _ = ok none
  view (some m) none = ok none
  view (some m) (some b) = parsed b (json.from_slice m)

  module _ (w : World) where
    open_failed-absent :
        (e : IoError) → e.kind ≡ not_found → open_failed fs digests json e e.kind ≡ ok none
    unfolding open_failed
    open_failed-absent e k = rw k

    parsed_lem :
        (p : FilePath) (b : Bytes) (a : Attempt Bytes DiskCacheMetadata)
        → content w p ≡ some b
        → (f : fs.Handle) → open_file p w ≡ done f
        → read_to_end f w ≡ done b
        → meta_parsed fs digests json w f a ≡ parsed b a
    unfolding meta_parsed data_read
    parsed_lem p b (failed e) c f o r = refl
    parsed_lem p b (done m) c f o r = rw r

    module _ (p : FilePath) where
      data_opened_lem :
          (m : Bytes) (f : fs.Handle)
          → read_to_end f w ≡ done m
          → (o : Option Bytes) → content w p ≡ o
          → data_opened fs digests json w f (open_file p w) ≡ view (some m) o
      unfolding data_opened meta_read
      data_opened_lem m f r none c =
          let (e, opened, k) = fs.open-absent w p c in rw (opened, open_failed-absent e k)
      data_opened_lem m f r (some b) c =
          let (g, opened, reads) = fs.open-present w p b c in
          rw (opened, r) (parsed_lem p b (json.from_slice m) c g opened reads)

    module _ (base_path : FilePath) where
      read_entry_lem :
          (o : Option Bytes)
          → content w (with_extension (codes "meta") base_path) ≡ o
          → read_entry fs digests json (some base_path) w
            ≡ view o (content w (with_extension (codes "data") base_path))
      unfolding read_entry meta_opened
      read_entry_lem none c =
          let (e, opened, k) = fs.open-absent w (with_extension (codes "meta") base_path) c in
          rw (opened, open_failed-absent e k)
      read_entry_lem (some m) c =
          let (f, opened, reads) =
            fs.open-present w (with_extension (codes "meta") base_path) m c in
          rw opened (
            data_opened_lem (with_extension (codes "data") base_path) m f reads
              (content w (with_extension (codes "data") base_path)) refl)

  -- `get` is a miss if one of the two files of the key is not there, the error of unreadable metadata
  -- if the first of them does not parse, and else the entry that the two files hold.
  pub get-view :
      (key : CacheKey) (d : DiskCache fs)
      → length key.hash ≡ 32
      → get fs digests json key d
        ≡ view
            (meta_of fs d.cache_dir d.world (hash_hex digests key))
            (data_of fs d.cache_dir d.world (hash_hex digests key))
  unfolding get
  get-view key d hashed =
      let v = hash_hex-IsHash digests key hashed in
      rw (
        file_path-place digests d.cache_dir key hashed,
        read_entry_lem d.world (place d.cache_dir (hash_hex digests key)) _ refl,
        with_extension-place (codes "meta") d.cache_dir v,
        with_extension-place (codes "data") d.cache_dir v,
      )

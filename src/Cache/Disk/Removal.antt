-- ===== src/Cache/Disk/Removal.antt =====
-- `remove` on a file system that may fail: the errors of the two removals are passed over.
use squiddish.Prelude.{◌-◌, ◌≡◌, ◌≢◌, refl, sym, ap, ◌∙◌, Option, none, some, length, inl, inr, ◌⊎◌}
use squiddish.Text.{Bytes, codes}
use squiddish.Error.{Result, ok, IoError}
use squiddish.Cache.{CacheEntry}
use squiddish.Cache.Key.{CacheKey, Digests, FilePath, hash_hex}
use squiddish.Cache.Files.{Attempt, done, failed, FileSystem, Json}
use squiddish.Cache.Disk.State.{DiskCache, files_size}
use squiddish.Cache.Disk.Places.{IsHash, place, file_of, hash_hex-IsHash, file_path-place}
use squiddish.Cache.Disk.Sizes.{
  meta-ne-data, remove_files-place, meta_of-remove_ne, data_of-remove_ne,
}
use squiddish.Cache.Disk.Tracking.{Misses, Misses-retain_ne}
use squiddish.Cache.Disk.Read.{get}
use squiddish.Cache.Disk.Read.View.{view, get-view}
use squiddish.Cache.Disk.{with_path, removed, remove}

module _ (fs : FileSystem) where
  open fs use {World, remove_file, content}

  abbrev pub Fails : FilePath → World → Type 0
  Fails p w = (e : IoError) × ((remove_file p w).0 ≡ failed e)

  abbrev pub Succeeds : FilePath → World → Type 0
  Succeeds p w = (remove_file p w).0 ≡ done tt

  removal-cases :
      (p : FilePath) (w : World) (r : Attempt IoError (Unit {0}) × World)
      → remove_file p w ≡ r
      → (Succeeds p w × (content ((remove_file p w).1) p ≡ none))
        ⊎ (Fails p w × (content ((remove_file p w).1) p ≡ content w p))
  removal-cases p w (done tt, w') h =
      inl (ap (λ r. r.0) h, ap (λ r. content (r.1) p) h ∙ fs.content-remove_done w w' p h)
  removal-cases p w (failed e, w') h =
      inr ((e, ap (λ r. r.0) h), ap (λ r. content (r.1) p) h ∙ fs.content-remove_failed w w' p e h)

  module _ (digests : Digests) (json : Json) (key : CacheKey) (hashed : length key.hash ≡ 32) where
    is_hash : IsHash (hash_hex digests key)
    is_hash = hash_hex-IsHash digests key hashed

    view-no_data : (o : Option Bytes) → view fs digests json o none ≡ ok none
    view-no_data none = refl
    view-no_data (some m) = refl

    module _ (d : DiskCache fs) where
      abbrev pub meta_path : FilePath
      meta_path = file_of (codes "meta") d.cache_dir (hash_hex digests key)

      abbrev pub data_path : FilePath
      data_path = file_of (codes "data") d.cache_dir (hash_hex digests key)

      -- the files behind the removal of the first one
      abbrev pub between : World
      between = (remove_file meta_path d.world).1

      abbrev behind : World
      behind = (remove_file data_path between).1

      -- what is read of the key before, and behind the two removals
      abbrev seen : World → Result (Option CacheEntry)
      seen w = view fs digests json (content w meta_path) (content w data_path)

      meta-behind : content behind meta_path ≡ content between meta_path
      meta-behind =
          fs.content-remove_ne between data_path meta_path
            (λ e. meta-ne-data fs d.cache_dir is_hash is_hash (sym e))

      data-between : content between data_path ≡ content d.world data_path
      data-between =
          fs.content-remove_ne d.world meta_path data_path
            (meta-ne-data fs d.cache_dir is_hash is_hash)

      behind-cases :
          ((Succeeds meta_path d.world ⊎ Succeeds data_path between) × (seen behind ≡ ok none))
          ⊎ ((Fails meta_path d.world × Fails data_path between) × (seen behind ≡ seen d.world))
      behind-cases = elim (removal-cases meta_path d.world (remove_file meta_path d.world) refl) [
        | inl (success, gone) ↦ inl (inl success, rw (meta-behind, gone))
        | inr (fault, stays) ↦
            elim (removal-cases data_path between (remove_file data_path between) refl) [
              | inl (success, gone) ↦
                  inl (inr success, rw gone (view-no_data (content behind meta_path)))
              | inr (fault', stays') ↦
                  inr ((fault, fault'), rw (meta-behind, stays, stays', data-between))
            ]
      ]

      -- What `remove` leaves of the key: no place in the order, the size without the bytes that were
      -- measured, and a miss if one of the removals succeeds, or else what was there before.
      pub record Removes (r : Result (Unit {0}) × DiskCache fs) : Type 0 where
        pub returned : r.0 ≡ ok tt
        pub forgotten : Misses (hash_hex digests key) r.1.eviction_order
        pub size :
            r.1.current_size
            ≡ d.current_size - files_size fs (place d.cache_dir (hash_hex digests key)) d.world
        pub read :
            ((Succeeds meta_path d.world ⊎ Succeeds data_path between)
              × (get fs digests json key r.1 ≡ ok none))
            ⊎ ((Fails meta_path d.world × Fails data_path between)
                × (get fs digests json key r.1 ≡ get fs digests json key d))
        pub others :
            (other : CacheKey)
            → length other.hash ≡ 32
            → hash_hex digests key ≢ hash_hex digests other
            → get fs digests json other r.1 ≡ get fs digests json other d

      -- On every state and whatever faults the removals have, `remove` returns `Ok`: the key is
      -- in the eviction order no more, the bytes that were measured are taken off the size, and
      -- `get` of the key is a miss if one of the two files was removed, and what it was before if
      -- both removals failed. A key of another hash is what it was.
      pub remove-Removes : Removes (remove fs digests key d)
      unfolding remove removed with_path
      remove-Removes = rw (file_path-place digests d.cache_dir key hashed) (record {
        returned = refl;
        forgotten = Misses-retain_ne (hash_hex digests key) d.eviction_order;
        size = refl;
        read =
            rw
              (
                get-view fs digests json key _ hashed,
                get-view fs digests json key d hashed,
                remove_files-place fs d.cache_dir d.world is_hash,
              )
              behind-cases;
        others = λ other h ne.
            let u = hash_hex-IsHash digests other h in
            get-view fs digests json other _ h
            ∙ rw (
              meta_of-remove_ne fs d.cache_dir d.world is_hash u ne,
              data_of-remove_ne fs d.cache_dir d.world is_hash u ne,
              get-view fs digests json other d h,
            );
      })

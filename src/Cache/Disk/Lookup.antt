-- ===== src/Cache/Disk/Lookup.antt =====
-- The disk cache as a map: what `get` returns behind `put` and behind `remove`.
use squiddish.Prelude.{◌+◌, ◌≤◌, ◌<◌, ◌≡◌, ◌≢◌, ◌∙◌, some, none, List, length, arith, inl, inr, ◌⊎◌}
use squiddish.Text.{Bytes}
use squiddish.Error.{ok}
use squiddish.Cache.{CacheEntry}
use squiddish.Cache.Key.{CacheKey, Digests, hash_hex}
use squiddish.Cache.Files.{FileSystem, Faultless, Json, done}
use squiddish.Cache.Disk.State.{DiskCache, metadata_of, remove_files}
use squiddish.Cache.Disk.Places.{IsHash, place, hash_hex-IsHash}
use squiddish.Cache.Disk.Sizes.{
  u64_mod, meta_of, data_of, meta_of-remove_self, meta_of-remove_ne, data_of-remove_ne,
}
use squiddish.Cache.Disk.Tracking.{Tracked, Has-or-Misses}
use squiddish.Cache.Disk.Evict.Room.{Swept}
use squiddish.Cache.Disk.Write.Entries.{
  meta_of-Stored_self, data_of-Stored_self, meta_of-Stored_ne, data_of-Stored_ne,
}
use squiddish.Cache.Disk.Accounting.{Inserts, put-cases, remove-without}
use squiddish.Cache.Disk.Read.{get}
use squiddish.Cache.Disk.Read.View.{view, get-view}
use squiddish.Cache.Disk.{put, remove}

module _ (fs : FileSystem) (digests : Digests) (json : Json) (key : CacheKey)
    (hashed : length key.hash ≡ 32) where
  is_hash : IsHash (hash_hex digests key)
  is_hash = hash_hex-IsHash digests key hashed

  module _ (entry : CacheEntry) (meta_json : Bytes)
      (serialized : json.to_vec (metadata_of entry) ≡ done meta_json) (d d' : DiskCache fs) where
    get-Inserts :
        Inserts fs digests key hashed entry meta_json d d'
        → get fs digests json key d' ≡ ok (some entry)
    get-Inserts ins = rw ins.result (
        get-view fs digests json key _ hashed
        ∙ rw (
          meta_of-Stored_self fs d.cache_dir is_hash entry meta_json _ ins.n ins.files ins.stored,
          data_of-Stored_self fs d.cache_dir is_hash entry meta_json _ ins.n ins.files ins.stored,
          json.from_slice-to_vec (metadata_of entry) meta_json serialized,
        ))

    -- A `put` that succeeds, where files that are there are measured and removed without a fault,
    -- on a state whose accounts are right and for sizes that do not pass 64 bits, stores an entry
    -- that is no larger than the limit: `get` of the key returns it.
    pub get-put :
        ⦃faultless : Faultless fs⦄
        → length meta_json + length entry.content < u64_mod
        → (t : Tracked fs d) → d.current_size + d.max_size < u64_mod
        → length meta_json + length entry.content ≤ d.max_size
        → put fs digests json key entry d ≡ (ok tt, d')
        → get fs digests json key d' ≡ ok (some entry)
    get-put bounded t small fits success =
        elim (put-cases fs digests key hashed json entry meta_json serialized bounded d d' t small
          success) [ inl (large, same) ↦ absurd (omega arith) | inr ins ↦ get-Inserts ins ]

    module _ (other : CacheKey) (other_hashed : length other.hash ≡ 32)
        (ne : hash_hex digests key ≢ hash_hex digests other) where
      other_is_hash : IsHash (hash_hex digests other)
      other_is_hash = hash_hex-IsHash digests other other_hashed

      get_other-Swept :
          (gone : List Bytes) (w : fs.World)
          → Swept fs d.cache_dir gone d.world w
          → (view fs digests json
                (meta_of fs d.cache_dir w (hash_hex digests other))
                (data_of fs d.cache_dir w (hash_hex digests other))
              ≡ get fs digests json other d)
            ⊎ (view fs digests json
                  (meta_of fs d.cache_dir w (hash_hex digests other))
                  (data_of fs d.cache_dir w (hash_hex digests other))
                ≡ ok none)
      get_other-Swept gone w s = elim (Has-or-Misses (hash_hex digests other) gone) [
        | inl there ↦ inr (rw ((s.emptied (hash_hex digests other) there).0))
        | inr absent ↦
            let (a, b) = s.kept (hash_hex digests other) other_is_hash absent in
            inl (rw (get-view fs digests json other d other_hashed, a, b))
      ]

      get_other-Inserts :
          (ins : Inserts fs digests key hashed entry meta_json d d')
          → get fs digests json other d'
            ≡ view fs digests json
                (meta_of fs d.cache_dir ins.room.files (hash_hex digests other))
                (data_of fs d.cache_dir ins.room.files (hash_hex digests other))
      get_other-Inserts ins =
          let w = remove_files fs (place d.cache_dir (hash_hex digests key)) ins.room.files in
          rw ins.result (
            get-view fs digests json other _ other_hashed
            ∙ rw (
              meta_of-Stored_ne fs d.cache_dir is_hash entry meta_json w ins.n ins.files ins.stored
                  _ other_is_hash ne,
              data_of-Stored_ne fs d.cache_dir is_hash entry meta_json w ins.n ins.files ins.stored
                  _ other_is_hash ne,
              meta_of-remove_ne fs d.cache_dir ins.room.files is_hash other_is_hash ne,
              data_of-remove_ne fs d.cache_dir ins.room.files is_hash other_is_hash ne,
            ))

      -- A `put` that succeeds, where files that are there are measured and removed without a
      -- fault, on a state whose accounts are right and for sizes that do not pass 64 bits, leaves
      -- each other hash alone or evicts it: `get` of such a key returns what it did before, or is
      -- a miss.
      pub get_other-put :
          ⦃faultless : Faultless fs⦄
          → length meta_json + length entry.content < u64_mod
          → (t : Tracked fs d) → d.current_size + d.max_size < u64_mod
          → put fs digests json key entry d ≡ (ok tt, d')
          → (get fs digests json other d' ≡ get fs digests json other d)
            ⊎ (get fs digests json other d' ≡ ok none)
      get_other-put bounded t small success =
          elim (put-cases fs digests key hashed json entry meta_json serialized bounded d d' t small
            success) [
              | inl (large, same) ↦ inl (rw same)
              | inr ins ↦
                  rw (get_other-Inserts ins)
                    (get_other-Swept ins.room.gone ins.room.files ins.room.swept)
            ]

  -- Where files that are there are measured and removed without a fault, on a state whose accounts
  -- are right and whose size fits 64 bits, behind a `remove` the key is a miss, and a key of another
  -- hash is what it was.
  pub get-remove :
      ⦃faultless : Faultless fs⦄ (d : DiskCache fs)
      → Tracked fs d
      → d.current_size < u64_mod
      → (other : CacheKey) → length other.hash ≡ 32
      → hash_hex digests key ≢ hash_hex digests other
      → (get fs digests json key (remove fs digests key d).1 ≡ ok none)
        × (get fs digests json other (remove fs digests key d).1 ≡ get fs digests json other d)
  get-remove d t small other other_hashed ne =
      let u = hash_hex-IsHash digests other other_hashed in
      rw (remove-without fs digests key hashed d t small) (
        get-view fs digests json key _ hashed
            ∙ rw (meta_of-remove_self fs d.cache_dir d.world is_hash),
        get-view fs digests json other _ other_hashed
            ∙ rw (
              meta_of-remove_ne fs d.cache_dir d.world is_hash u ne,
              data_of-remove_ne fs d.cache_dir d.world is_hash u ne,
              get-view fs digests json other d other_hashed,
            ),
      )

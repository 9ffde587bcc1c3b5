-- ===== src/Cache/Disk/Accounting.antt =====
-- The accounts of the disk cache: the size that it keeps is the size of the files that it tracks,
-- and it stays within the limit.
use squiddish.Prelude.{
  ℕ, ◌+◌, ◌-◌, ◌≤◌, ◌<◌, ◌≡◌, refl, sym, ap, ◌∙◌, List, [], ◌∷◌, ◌++◌, arith, length, ltb,
  ltb-false→le, ltb→lt, lt→ltb, Bool-cases, inl, inr, ◌⊎◌, if◌then◌else◌,
}
use mathlib.Core.Path.{subst}
use squiddish.Text.{Bytes}
use squiddish.Error.{Result, ok, err, panicked}
use squiddish.Cache.{CacheEntry}
use squiddish.Cache.Key.{CacheKey, Digests, hash_hex}
use squiddish.Cache.Files.{FileSystem, Faultless, Json, done}
use squiddish.Cache.Disk.State.{DiskCache, metadata_of, add64, retain_ne, files_size, remove_files}
use squiddish.Cache.Disk.Places.{IsHash, place, hash_hex-IsHash, file_path-place}
use squiddish.Cache.Disk.Sizes.{u64_mod, add64_lem, taken, files_size-place}
use squiddish.Cache.Disk.Tracking.{
  Tracked, Misses, Has-or-Misses, retain_ne-Misses, Misses-retain_ne,
}
use squiddish.Cache.Disk.Changes.{taken-le-current_size, without, without-Tracked, insert-Tracked}
use squiddish.Cache.Disk.Write.{write_entry}
use squiddish.Cache.Disk.Write.Effect.{Stored, write_entry-Stored}
use squiddish.Cache.Disk.Evict.{evict_if_needed}
use squiddish.Cache.Disk.Evict.Limit.{with_entries, MakesRoom, evict_if_needed-MakesRoom}
use squiddish.Cache.Disk.{
  with_path, tracked, replace, after_eviction, put_serialized, put, removed, remove,
}

module _ (fs : FileSystem) (digests : Digests) (key : CacheKey)
    (hashed : length key.hash ≡ 32) where
  abbrev pub hash : Bytes
  hash = hash_hex digests key

  pub is_hash : IsHash hash
  is_hash = hash_hex-IsHash digests key hashed

  module _ ⦃faultless : Faultless fs⦄ (d : DiskCache fs) (t : Tracked fs d)
      (small : d.current_size < u64_mod) where
    size_of_old : files_size fs (place d.cache_dir hash) d.world ≡ taken fs d.cache_dir d.world hash
    size_of_old =
        files_size-place fs d.cache_dir d.world is_hash
          (omega (arith, taken-le-current_size fs d t is_hash))

    pub remove-without : remove fs digests key d ≡ (ok tt, without fs d t is_hash)
    unfolding remove removed with_path
    remove-without = rw (file_path-place digests d.cache_dir key hashed, size_of_old)

    -- the order that `put` goes on with is the one without the key, also where it was not tracked
    order_without :
        (if ltb 0 (taken fs d.cache_dir d.world hash)
          then retain_ne hash d.eviction_order
          else d.eviction_order)
        ≡ retain_ne hash d.eviction_order
    order_without = elim (Has-or-Misses hash d.eviction_order) [
      | inl there ↦ rw (lt→ltb 0 (taken fs d.cache_dir d.world hash) (t.positive hash there))
      | inr absent ↦ ground (arith, retain_ne-Misses hash d.eviction_order absent)
    ]

  -- What a `put` that stores its entry has done: room was made, the files of the key were removed
  -- and written, and the key stands at the end of the order.
  pub record Inserts (entry : CacheEntry) (meta_json : Bytes) (d d' : DiskCache fs) : Type 0 where
    pub size : ℕ
    pub size_lem : size ≡ length meta_json + length entry.content
    pub within : size ≤ d.max_size
    pub room : MakesRoom fs size d (evict_if_needed fs size d)
    pub n : ℕ
    pub files : fs.World
    pub stored :
        Stored fs
          (place d.cache_dir hash)
          entry
          meta_json
          (remove_files fs (place d.cache_dir hash) room.files)
          n
          files
    pub result :
        d'
        ≡ with_entries d
            (retain_ne hash room.left ++ hash ∷ [])
            (room.size - taken fs d.cache_dir room.files hash + size)
            files

  module _ (entry : CacheEntry) (meta_json : Bytes) (size : ℕ)
      (size_lem : size ≡ length meta_json + length entry.content) (bounded : size < u64_mod) where
    total_size : add64 (length meta_json) (length entry.content) ≡ size
    total_size = add64_lem (length meta_json) (length entry.content) (omega arith) ∙ sym size_lem

    tracked-Inserts :
        (d d' : DiskCache fs) (within : size ≤ d.max_size)
        (room : MakesRoom fs size d (evict_if_needed fs size d)) (c : Result ℕ × fs.World)
        → d.max_size < u64_mod
        → write_entry fs
            (place d.cache_dir hash)
            entry
            meta_json
            (remove_files fs (place d.cache_dir hash) room.files)
          ≡ c
        → tracked fs digests hash
            (taken fs d.cache_dir room.files hash)
            (with_entries d
              (retain_ne hash room.left)
              room.size
              (remove_files fs (place d.cache_dir hash) room.files))
            c
          ≡ (ok tt, d')
        → Inserts entry meta_json d d'
    unfolding tracked
    tracked-Inserts d d' within room (ok n, w') m e h =
        let s =
          write_entry-Stored fs (place d.cache_dir hash) entry meta_json
            (remove_files fs (place d.cache_dir hash) room.files) e in
        let n_size : n ≡ size = s.size ∙ total_size in
        let sum : add64 (room.size - taken fs d.cache_dir room.files hash) n
            ≡ room.size - taken fs d.cache_dir room.files hash + size =
          ap (add64 (room.size - taken fs d.cache_dir room.files hash)) n_size
          ∙ add64_lem (room.size - taken fs d.cache_dir room.files hash) size
              (omega (arith, room.fits)) in
        record {
          size = size;
          size_lem = size_lem;
          within = within;
          room = room;
          n = n;
          files = w';
          stored = s;
          result =
              ap (λ r. r.1) (sym h)
              ∙ ap (λ x. with_entries d (retain_ne hash room.left ++ hash ∷ []) x w') sum;
        }
    tracked-Inserts d d' within room (err x, w') m e h = absurd (cc (ap (λ r. r.0) h))
    tracked-Inserts d d' within room (panicked, w') m e h = absurd (cc (ap (λ r. r.0) h))

    module _ ⦃faultless : Faultless fs⦄ (d d' : DiskCache fs) (t : Tracked fs d)
        (small : d.current_size + d.max_size < u64_mod) where
      room-Inserts :
          (within : size ≤ d.max_size) (room : MakesRoom fs size d (evict_if_needed fs size d))
          → after_eviction fs digests key entry meta_json (evict_if_needed fs size d) ≡ (ok tt, d')
          → Inserts entry meta_json d d'
      unfolding after_eviction with_path replace
      room-Inserts within room h =
          let d₁ = with_entries d room.left room.size room.files in
          let small₁ : room.size < u64_mod = omega (arith, room.fits) in
          tracked-Inserts d d' within room
            (write_entry fs (place d.cache_dir hash) entry meta_json
              (remove_files fs (place d.cache_dir hash) room.files))
            (omega arith) refl
            (rw
              (
                room.run,
                file_path-place digests d.cache_dir key hashed,
                size_of_old d₁ room.tracked small₁,
                order_without d₁ room.tracked small₁,
              )
              at h)

      serialized-cases :
          (json : Json)
          → put_serialized fs digests json key entry d (done meta_json) ≡ (ok tt, d')
          → ((d.max_size < size) × (d' ≡ d)) ⊎ Inserts entry meta_json d d'
      unfolding put_serialized
      serialized-cases json h = elim (Bool-cases (ltb d.max_size size)) [
        | inl large ↦
            inl (ltb→lt d.max_size size large, ap (λ r. r.1) (sym (rw (total_size, large) at h)))
        | inr fits ↦
            let within = ltb-false→le d.max_size size fits in
            inr (
              room-Inserts within (evict_if_needed-MakesRoom d t size within (omega arith))
                (rw (total_size, fits) at h))
      ]

  module _ ⦃faultless : Faultless fs⦄ (json : Json) (entry : CacheEntry) (meta_json : Bytes)
      (serialized : json.to_vec (metadata_of entry) ≡ done meta_json)
      (bounded : length meta_json + length entry.content < u64_mod) (d d' : DiskCache fs)
      (t : Tracked fs d) (small : d.current_size + d.max_size < u64_mod)
      (success : put fs digests json key entry d ≡ (ok tt, d')) where
    pub put-cases :
        ((d.max_size < length meta_json + length entry.content) × (d' ≡ d))
        ⊎ Inserts entry meta_json d d'
    unfolding put
    put-cases =
        serialized-cases entry meta_json (length meta_json + length entry.content) refl bounded d d'
          t small json (rw serialized at success)

    inserted-Tracked : Inserts entry meta_json d d' → Tracked fs d' × (d'.current_size ≤ d.max_size)
    inserted-Tracked ins = (
      rw ins.result (
          subst (λ s. Tracked fs (with_entries d order (base + s) ins.files)) (sym ins.size_lem)
            (insert-Tracked fs (without fs d₁ ins.room.tracked is_hash)
              (without-Tracked fs d₁ ins.room.tracked is_hash) is_hash entry meta_json ins.n
              ins.files (Misses-retain_ne hash ins.room.left)
              (json.to_vec-pos (metadata_of entry) meta_json serialized) ins.stored)),
      rw ins.result (omega (arith, ins.room.fits)),
    )
      where
        d₁ : DiskCache fs
        d₁ = with_entries d ins.room.left ins.room.size ins.room.files

        order : List Bytes
        order = retain_ne hash ins.room.left ++ hash ∷ []

        base : ℕ
        base = ins.room.size - taken fs d.cache_dir ins.room.files hash

    -- After a `put` that succeeds, where files that are there are measured and removed without a
    -- fault, on a state whose accounts are right and for sizes that do not pass 64 bits, the
    -- accounts are right again, and either the state is as it was, because the entry is larger
    -- than the limit, or the size that is kept is within the limit.
    pub put-Tracked : Tracked fs d' × ((d' ≡ d) ⊎ (d'.current_size ≤ d'.max_size))
    put-Tracked = elim put-cases [
      | inl (large, same) ↦ (rw same t, inl same)
      | inr ins ↦
          let (tracked', bound) = inserted-Tracked ins in
          (tracked', inr (rw ins.result (rw ins.result at bound)))
    ]

  -- Where files that are there are measured and removed without a fault, on a state whose
  -- accounts are right and whose size fits 64 bits, `remove` succeeds and keeps the accounts
  -- right: the key is no longer tracked and its files are gone, and the bytes that they took are
  -- taken off the size.
  pub remove-Tracked :
      ⦃faultless : Faultless fs⦄ (d : DiskCache fs) (t : Tracked fs d)
      → d.current_size < u64_mod
      → ((remove fs digests key d).0 ≡ ok tt)
        × Tracked fs (remove fs digests key d).1
        × Misses hash (remove fs digests key d).1.eviction_order
        × ((remove fs digests key d).1.current_size + taken fs d.cache_dir d.world hash
            ≡ d.current_size)
  remove-Tracked d t small = rw (remove-without d t small) (
    refl,
    without-Tracked fs d t is_hash,
    Misses-retain_ne hash d.eviction_order,
    omega (arith, taken-le-current_size fs d t is_hash),
  )

-- ===== src/Cache/Tiered/Lookup.antt =====
-- What the two tiers return together.
use squiddish.Prelude.{
  ℕ, ◌+◌, ◌*◌, ◌≤◌, ◌<◌, ◌≡◌, refl, sym, ap, ◌∙◌, false, Option, none, some, length, Bool-cases,
  inl, inr, ◌⊎◌, lt→ltb,
}
use squiddish.Text.{Bytes}
use squiddish.Error.{Result, ok, err, panicked}
use squiddish.Cache.{CacheEntry, is_expired, size}
use squiddish.Cache.Key.{CacheKey, Digests}
use squiddish.Cache.Files.{FileSystem, Faultless, Json, done}
use squiddish.Cache.Disk.State.{DiskCache, metadata_of}
use squiddish.Cache.Disk.Sizes.{u64_mod}
use squiddish.Cache.Disk.Tracking.{Tracked}
use squiddish.Cache.Disk.Read.{get as disk_get}
use squiddish.Cache.Disk.Lookup.{get-put as disk-get-put}
use squiddish.Cache.Disk.{put as disk_put}
use squiddish.Cache.Tiered.{
  Moka, TieredCache, from_disk, second_tier, from_memory, get, stored, put,
}

module _ (fs : FileSystem) (digests : Digests) (json : Json) (moka : Moka) (key : CacheKey) where
  -- The entry stands in memory or on the disk, and it had not expired when it was tested.
  pub record Fresh (now later : ℕ) (t : TieredCache fs digests json moka) (entry : CacheEntry)
      : Type 0 where
    pub source :
        ((moka.lookup key t.memory ≡ some entry) × (is_expired now entry ≡ false))
        ⊎ ((disk_get fs digests json key t.disk ≡ ok (some entry))
            × (is_expired later entry ≡ false))

  disk-Fresh :
      (later : ℕ) (t : TieredCache fs digests json moka) (entry : CacheEntry)
      (r : Result (Option CacheEntry))
      → (from_disk fs digests json moka later key t r).0 ≡ ok (some entry)
      → (r ≡ ok (some entry)) × (is_expired later entry ≡ false)
  unfolding from_disk
  disk-Fresh later t entry (ok (some e)) h = elim (Bool-cases (is_expired later e)) [
    | inl old ↦ absurd (cc (rw old at h))
    | inr young ↦
        let same : e ≡ entry = cc (rw young at h) in
        (ap (λ x. ok (some x)) same, rw (sym same) young)
  ]
  disk-Fresh later t entry (ok none) h = cc
  disk-Fresh later t entry (err x) h = cc
  disk-Fresh later t entry panicked h = cc

  second-Fresh :
      (later : ℕ) (t : TieredCache fs digests json moka) (entry : CacheEntry)
      → (second_tier fs digests json moka later key t).0 ≡ ok (some entry)
      → (disk_get fs digests json key t.disk ≡ ok (some entry)) × (is_expired later entry ≡ false)
  unfolding second_tier
  second-Fresh later t entry h = disk-Fresh later t entry (disk_get fs digests json key t.disk) h

  memory-Fresh :
      (now later : ℕ) (t : TieredCache fs digests json moka) (entry : CacheEntry)
      (o : Option CacheEntry)
      → moka.lookup key t.memory ≡ o
      → (from_memory fs digests json moka now later key t o).0 ≡ ok (some entry)
      → Fresh now later t entry
  unfolding from_memory
  memory-Fresh now later t entry none e h = record { source = inr (second-Fresh later t entry h) }
  memory-Fresh now later t entry (some x) e h = elim (Bool-cases (is_expired now x)) [
    | inl old ↦
        let cleared : TieredCache fs digests json moka = record t {
          memory = moka.invalidate key t.memory;
        } in
        record { source = inr (second-Fresh later cleared entry (rw old at h)) }
    | inr young ↦
        let same : x ≡ entry = cc (rw young at h) in
        record { source = inl (e ∙ ap some same, rw (sym same) young) }
  ]

  -- An entry that `get` returns stands in memory or on the disk under the key, and it had not expired
  -- when it was tested there.
  pub get-Fresh :
      (now later : ℕ) (t : TieredCache fs digests json moka) (entry : CacheEntry)
      → (get fs digests json moka now later key t).0 ≡ ok (some entry)
      → Fresh now later t entry
  unfolding get
  get-Fresh now later t entry h = memory-Fresh now later t entry (moka.lookup key t.memory) refl h

  found_on_disk :
      (later : ℕ) (t : TieredCache fs digests json moka) (entry : CacheEntry)
      → disk_get fs digests json key t.disk ≡ ok (some entry)
      → is_expired later entry ≡ false
      → (second_tier fs digests json moka later key t).0 ≡ ok (some entry)
  unfolding second_tier from_disk
  found_on_disk later t entry h young = rw (h, young)

  found_anywhere :
      (now later : ℕ) (t : TieredCache fs digests json moka) (entry : CacheEntry)
      → (moka.lookup key t.memory ≡ some entry) ⊎ (moka.lookup key t.memory ≡ none)
      → disk_get fs digests json key t.disk ≡ ok (some entry)
      → is_expired now entry ≡ false
      → is_expired later entry ≡ false
      → (get fs digests json moka now later key t).0 ≡ ok (some entry)
  unfolding get from_memory
  found_anywhere now later t entry (inl e) h young₁ young₂ = rw (e, young₁)
  found_anywhere now later t entry (inr e) h young₁ young₂ =
      rw e (found_on_disk later t entry h young₂)

  module _ (hashed : length key.hash ≡ 32) (entry : CacheEntry) (meta_json : Bytes)
      (serialized : json.to_vec (metadata_of entry) ≡ done meta_json)
      (t t' : TieredCache fs digests json moka) (now later : ℕ) where
    stored-found :
        (r : Result (Unit {0}) × DiskCache fs)
        → ((d : DiskCache fs) → r ≡ (ok tt, d) → disk_get fs digests json key d ≡ ok (some entry))
        → is_expired now entry ≡ false
        → is_expired later entry ≡ false
        → stored fs digests json moka key entry t r ≡ (ok tt, t')
        → (get fs digests json moka now later key t').0 ≡ ok (some entry)
    unfolding stored
    stored-found (ok tt, d) there young₁ young₂ h = rw (sym (ap (λ r. r.1) h)) (
        found_anywhere now later (record t { memory = moka.insert key entry t.memory; disk = d })
          entry (moka.lookup-insert_self key entry t.memory) (there d refl) young₁ young₂)
    stored-found (err e, d) there young₁ young₂ h = absurd (cc (ap (λ r. r.0) h))
    stored-found (panicked, d) there young₁ young₂ h = absurd (cc (ap (λ r. r.0) h))

    -- An entry of more than 1 MiB that fits the disk and is put with success is returned by `get`
    -- while it has not expired, even if memory has dropped it. The accounts of the disk are right
    -- before, the sizes do not pass 64 bits, and files that are there are measured and removed
    -- without a fault.
    pub get-put_large :
        ⦃faultless : Faultless fs⦄
        → 1024 * 1024 < size entry
        → length meta_json + length entry.content < u64_mod
        → (a : Tracked fs t.disk) → t.disk.current_size + t.disk.max_size < u64_mod
        → length meta_json + length entry.content ≤ t.disk.max_size
        → is_expired now entry ≡ false
        → is_expired later entry ≡ false
        → put fs digests json moka key entry t ≡ (ok tt, t')
        → (get fs digests json moka now later key t').0 ≡ ok (some entry)
    unfolding put
    get-put_large large bounded a small fits young₁ young₂ h =
        stored-found (disk_put fs digests json key entry t.disk)
          (λ d e.
            disk-get-put fs digests json key hashed entry meta_json serialized t.disk d bounded a
              small fits e)
          young₁ young₂ (rw (lt→ltb (1024 * 1024) (size entry) large) at h)

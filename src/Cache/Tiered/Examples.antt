-- ===== src/Cache/Tiered/Examples.antt =====
-- Examples of the theorems on the two tiers: an entry of 1 MiB, put into empty caches.
use squiddish.Prelude.{
  ℕ, zero, suc, ◌*◌, ◌<◌, ◌≡◌, refl, ap, none, some, [], ◌∷◌, length, arith, false, lt→ltb,
}
use squiddish.Text.{Bytes, codes}
use squiddish.Error.{Result, ok, err, panicked}
use squiddish.Cache.{CacheEntry, is_expired, size, header_sizes}
use squiddish.Cache.Key.{CacheKey, file_path}
use squiddish.Samples.Storage.{files_lib, faultless_lib, digests_lib, json_lib}
use squiddish.Samples.Memory.{memory_lib}
use squiddish.Cache.Disk.State.{DiskCache, add64, with_extension, remove_files}
use squiddish.Cache.Disk.Tracking.{Tracked}
use squiddish.Cache.Disk.Evict.{evict_if_needed}
use squiddish.Cache.Disk.Write.{write_entry}
use squiddish.Cache.Disk.{put as disk_put}
use squiddish.Cache.Tiered.{TieredCache, get, put, stored}
use squiddish.Cache.Tiered.Lookup.{Fresh, get-Fresh, get-put_large}

zeros : ℕ → Bytes
zeros zero = []
zeros (suc n) = 0 ∷ zeros n

length-zeros : (n : ℕ) → length (zeros n) ≡ n
unfolding zeros
length-zeros zero = refl
length-zeros (suc n) = ap suc (length-zeros n)

abbrev entry : CacheEntry
entry = record {
  content = zeros 1_048_576;
  headers = [];
  status = 200;
  timestamp = 5;
  ttl_seconds = 60;
}

abbrev key : CacheKey
key = record { hash = digests_lib.sha256 (codes "a"); uri = codes "a" }

abbrev empty : TieredCache files_lib digests_lib json_lib memory_lib
empty = record {
  memory = none;
  disk = record {
    cache_dir = codes "cache" ∷ [];
    max_size = 2_000_000;
    current_size = 0;
    eviction_order = [];
    world = λ p. none;
  };
}

empty-Tracked : Tracked files_lib empty.disk
empty-Tracked = record {
  hashes = tt;
  distinct = tt;
  exact = refl;
  positive = λ h there. absurd there;
  untracked = λ h v m. (refl, refl);
}

abbrev meta_json : Bytes
meta_json = 200 ∷ 5 ∷ 60 ∷ length (zeros 1_048_576) ∷ []

abbrev filled : TieredCache files_lib digests_lib json_lib memory_lib
filled = (put files_lib digests_lib json_lib memory_lib key entry empty).1

large : 1024 * 1024 < size entry
unfolding size header_sizes
large = omega (arith, length-zeros 1_048_576)

disk-lem : (disk_put files_lib digests_lib json_lib key entry empty.disk).0 ≡ ok tt
unfolding disk_put evict_if_needed write_entry add64 file_path with_extension remove_files
disk-lem = rw (length-zeros 1_048_576)

stored-ok :
    (r : Result (Unit {0}) × DiskCache files_lib)
    → r.0 ≡ ok tt
    → (stored files_lib digests_lib json_lib memory_lib key entry empty r).0 ≡ ok tt
unfolding stored
stored-ok (ok tt, d) h = refl
stored-ok (err e, d) h = absurd cc
stored-ok (panicked, d) h = absurd cc

put-lem : (put files_lib digests_lib json_lib memory_lib key entry empty).0 ≡ ok tt
unfolding put
put-lem =
    rw (lt→ltb (1024 * 1024) (size entry) large)
      (stored-ok (disk_put files_lib digests_lib json_lib key entry empty.disk) disk-lem)

filled_lem : put files_lib digests_lib json_lib memory_lib key entry empty ≡ (ok tt, filled)
filled_lem = λ i. (put-lem i, filled)

young : is_expired 10 entry ≡ false
unfolding is_expired
young = refl

get-put_large_example :
    (get files_lib digests_lib json_lib memory_lib 10 10 key filled).0 ≡ ok (some entry)
get-put_large_example =
    get-put_large files_lib digests_lib json_lib memory_lib key refl entry meta_json refl empty
      filled 10 10 large (omega (arith, length-zeros 1_048_576)) empty-Tracked (omega arith)
      (omega (arith, length-zeros 1_048_576)) young young filled_lem

get-Fresh_example : Fresh files_lib digests_lib json_lib memory_lib key 10 10 filled entry
get-Fresh_example = get-Fresh files_lib digests_lib json_lib memory_lib key 10 10 filled entry (
    get-put_large files_lib digests_lib json_lib memory_lib key refl entry meta_json refl empty
      filled 10 10 large (omega (arith, length-zeros 1_048_576)) empty-Tracked (omega arith)
      (omega (arith, length-zeros 1_048_576)) young young filled_lem)

-- ===== src/Cache/Disk/Examples.antt =====
-- Examples of the theorems on the disk cache: an empty cache, one entry, and a second key.
use squiddish.Prelude.{
  ℕ, zero, suc, ◌+◌, ◌≤◌, ◌≡◌, ◌≢◌, refl, none, some, List, [], ◌∷◌, arith, ◌⊎◌, ap,
}
use squiddish.Text.{Bytes, codes}
use squiddish.Error.{ok}
use squiddish.Cache.{CacheEntry}
use squiddish.Cache.Key.{CacheKey, hash_hex, file_path}
use squiddish.Cache.Disk.Removal.{Removes, remove-Removes}
use squiddish.Samples.Storage.{locked_lib, files_lib, faultless_lib, digests_lib, json_lib}
use squiddish.Cache.Disk.State.{DiskCache, add64, with_extension, remove_files, files_size}
use squiddish.Cache.Disk.Sizes.{taken}
use squiddish.Cache.Disk.Tracking.{Tracked, Misses}
use squiddish.Cache.Disk.Evict.{evict_if_needed}
use squiddish.Cache.Disk.Evict.Limit.{MakesRoom, evict_if_needed-MakesRoom}
use squiddish.Cache.Disk.Write.{write_entry}
use squiddish.Cache.Disk.Read.{get}
use squiddish.Cache.Disk.Accounting.{put-Tracked, remove-Tracked}
use squiddish.Cache.Disk.Lookup.{get-put, get_other-put, get-remove}
use squiddish.Cache.Disk.Fifo.{Fifo}
use squiddish.Cache.Disk.Fifo.Calls.{
  Call, puts, gets, removes, put_made, get_made, remove_made, idle, next, Allowed,
}
use squiddish.Cache.Disk.Fifo.Refines.{Refines, Runs-Refines}
use squiddish.Cache.Disk.{put, remove}

abbrev empty : DiskCache files_lib
empty = record {
  cache_dir = codes "cache" ∷ [];
  max_size = 100;
  current_size = 0;
  eviction_order = [];
  world = λ p. none;
}

empty-Tracked : Tracked files_lib empty
empty-Tracked = record {
  hashes = tt;
  distinct = tt;
  exact = refl;
  positive = λ h there. absurd there;
  untracked = λ h v m. (refl, refl);
}

abbrev entry : CacheEntry
entry = record {
  content = codes "Packages";
  headers = [];
  status = 200;
  timestamp = 5;
  ttl_seconds = 60;
}

abbrev key : CacheKey
key = record { hash = digests_lib.sha256 (codes "a"); uri = codes "a" }

abbrev other : CacheKey
other = record { hash = digests_lib.sha256 (codes "b"); uri = codes "b" }

abbrev meta_json : Bytes
meta_json = 200 ∷ 5 ∷ 60 ∷ 8 ∷ []

-- the cache with the entry
abbrev filled : DiskCache files_lib
filled = (put files_lib digests_lib json_lib key entry empty).1

filled_lem : put files_lib digests_lib json_lib key entry empty ≡ (ok tt, filled)
unfolding put evict_if_needed write_entry add64 file_path with_extension remove_files
filled_lem = refl

at : ℕ → Bytes → ℕ
at i [] = 0
at zero (c ∷ s) = c
at (suc i) (c ∷ s) = at i s

differ : hash_hex digests_lib key ≢ hash_hex digests_lib other
unfolding hash_hex at
differ e = omega (arith, ap (at 1) e)

evict_if_needed_example : MakesRoom files_lib 40 empty (evict_if_needed files_lib 40 empty)
evict_if_needed_example =
    evict_if_needed-MakesRoom empty empty-Tracked 40 (omega arith) (omega arith)

get-put_example : get files_lib digests_lib json_lib key filled ≡ ok (some entry)
get-put_example =
    get-put files_lib digests_lib json_lib key refl entry meta_json refl empty filled (omega arith)
      empty-Tracked (omega arith) (omega arith) filled_lem

get_other-put_example :
    (get files_lib digests_lib json_lib other filled
      ≡ get files_lib digests_lib json_lib other empty)
    ⊎ (get files_lib digests_lib json_lib other filled ≡ ok none)
get_other-put_example =
    get_other-put files_lib digests_lib json_lib key refl entry meta_json refl empty filled other
      refl differ (omega arith) empty-Tracked (omega arith) filled_lem

put-Tracked_example :
    Tracked files_lib filled × ((filled ≡ empty) ⊎ (filled.current_size ≤ filled.max_size))
put-Tracked_example =
    put-Tracked files_lib digests_lib key refl json_lib entry meta_json refl (omega arith) empty
      filled empty-Tracked (omega arith) filled_lem

filled-Tracked : Tracked files_lib filled
filled-Tracked =
    (put-Tracked files_lib digests_lib key refl json_lib entry meta_json refl (omega arith) empty
      filled empty-Tracked (omega arith) filled_lem).0

filled-size : filled.current_size ≡ 12
unfolding put evict_if_needed write_entry add64 file_path with_extension remove_files files_size
filled-size = refl

remove-Tracked_example :
    ((remove files_lib digests_lib key filled).0 ≡ ok tt)
    × Tracked files_lib (remove files_lib digests_lib key filled).1
    × Misses (hash_hex digests_lib key) (remove files_lib digests_lib key filled).1.eviction_order
    × ((remove files_lib digests_lib key filled).1.current_size
          + taken files_lib filled.cache_dir filled.world (hash_hex digests_lib key)
        ≡ filled.current_size)
remove-Tracked_example =
    remove-Tracked files_lib digests_lib key refl filled filled-Tracked (omega (arith, filled-size))

get-remove_example :
    (get files_lib digests_lib json_lib key (remove files_lib digests_lib key filled).1 ≡ ok none)
    × (get files_lib digests_lib json_lib other (remove files_lib digests_lib key filled).1
        ≡ get files_lib digests_lib json_lib other filled)
get-remove_example =
    get-remove files_lib digests_lib json_lib key refl filled filled-Tracked
      (omega (arith, filled-size)) other refl differ

empty-Refines : Refines files_lib digests_lib json_lib [] empty
empty-Refines = record {
  tracked = empty-Tracked;
  within = omega arith;
  small = omega arith;
  order = refl;
  reads = λ h v. refl;
}

abbrev calls : List Call
calls = puts key entry ∷ gets key (get files_lib digests_lib json_lib key filled) ∷ removes key ∷ []

Runs-Refines_example :
    (q : Fifo) × Allowed files_lib digests_lib json_lib 100 [] calls q
    × Refines files_lib digests_lib json_lib q (remove files_lib digests_lib key filled).1
Runs-Refines_example = Runs-Refines files_lib digests_lib json_lib [] empty-Refines (
    next (put_made key entry meta_json refl refl (omega arith) filled_lem)
      (next (get_made key refl) (next (remove_made key refl) idle)))

-- the cache with the entry, on files that cannot be removed
abbrev locked : DiskCache locked_lib
locked = record {
  cache_dir = codes "cache" ∷ [];
  max_size = 100;
  current_size = 12;
  eviction_order = hash_hex digests_lib key ∷ [];
  world = filled.world;
}

remove-Removes_example :
    Removes locked_lib digests_lib json_lib key refl locked
      (remove locked_lib digests_lib key locked)
remove-Removes_example = remove-Removes locked_lib digests_lib json_lib key refl locked

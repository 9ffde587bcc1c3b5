-- ===== src/Cache/Disk/Evict.antt =====
-- `evict_if_needed` of src/cache/disk.rs.
pub mod Room
pub mod Limit
use squiddish.Prelude.{ℕ, ◌-◌, Option, none, some, List, [], ◌∷◌, leb, if◌then◌else◌}
use squiddish.Text.{Bytes}
use squiddish.Error.{Result, ok, panicked}
use squiddish.Cache.Key.{FilePath, sharded}
use squiddish.Cache.Files.{FileSystem}
use squiddish.Cache.Disk.State.{DiskCache, add64, files_size, remove_files}

module _ (fs : FileSystem) where
  open fs use {World}

  -- one round of the loop of `evict_if_needed`; `none` is the panic of a name too short to be sharded
  evict_step :
      (ℕ → World → Option (List Bytes × ℕ × World))
      → Option FilePath
      → ℕ
      → World
      → Option (List Bytes × ℕ × World)
  evict_step rest none freed w = none
  evict_step rest (some base_path) freed w =
      rest (add64 freed (files_size fs base_path w)) (remove_files fs base_path w)

  -- What the loop leaves: the eviction order, the bytes freed, and the files.
  pub evict_loop : FilePath → ℕ → ℕ → List Bytes → ℕ → World → Option (List Bytes × ℕ × World)
  unfolding evict_step
  evict_loop dir current_size target_size [] freed w = some ([], freed, w)
  evict_loop dir current_size target_size (h ∷ order) freed w =
      let rest =
        evict_step (evict_loop dir current_size target_size order) (sharded dir h) freed w in
      if leb (current_size - freed) target_size then some (h ∷ order, freed, w) else rest

  evicted : DiskCache fs → Option (List Bytes × ℕ × World) → Result (Unit {0}) × DiskCache fs
  evicted d none = (panicked, d)
  evicted d (some (order, freed, w)) =
      (ok tt, record d { eviction_order = order; current_size = d.current_size - freed; world = w })

  unfoldable pub evict_if_needed : ℕ → DiskCache fs → Result (Unit {0}) × DiskCache fs
  unfolding evict_loop evicted
  evict_if_needed needed_size d =
      if leb (add64 d.current_size needed_size) d.max_size
      then (ok tt, d)
      else evicted d (
          evict_loop d.cache_dir d.current_size (d.max_size - needed_size) d.eviction_order 0
            d.world)

-- ===== src/Cache/Disk/Rebuild/Examples.antt =====
-- An example of the theorem on the index: a directory with a metadata file, and one below it with
-- another.
use squiddish.Prelude.{
  ℕ, ◌≤◌, ◌≡◌, sym, Bool, true, false, Option, none, some, List, [], ◌∷◌, arith,
}
use squiddish.Text.{codes, bytes_eq}
use squiddish.Cache.Key.{FilePath}
use squiddish.Samples.Storage.{files_lib, path_eq}
use squiddish.Cache.Disk.State.{DiskCache}
use squiddish.Cache.Disk.Rebuild.{DirEntry, Directories, rebuild_index}
use squiddish.Cache.Disk.Rebuild.Walk.{entries_weight, IsFinite}
use squiddish.Cache.Disk.Rebuild.Index.{Indexes, rebuild_index-Indexes}

abbrev top : FilePath
top = codes "cache" ∷ []

abbrev sub : FilePath
sub = codes "cache" ∷ codes "00" ∷ []

abbrev listed : Bool → Bool → List DirEntry
listed true b =
    record { path = sub; is_dir = true }
    ∷ record { path = codes "cache" ∷ codes "a.meta" ∷ []; is_dir = false }
    ∷ []
listed false b =
    record { path = codes "cache" ∷ codes "00" ∷ codes "b.meta" ∷ []; is_dir = false } ∷ []

abbrev listing : Bool → Bool → Option (List DirEntry)
listing true b = some (listed true b)
listing false true = some (listed false true)
listing false false = none

abbrev directories : Directories files_lib
directories = record {
  read_dir = λ p w. listing (path_eq p top) (path_eq p sub);
  modified = λ p w. 7;
}

abbrev one_or_zero : Bool → ℕ
one_or_zero true = 1
one_or_zero false = 0

abbrev weight : FilePath → ℕ
weight p = one_or_zero (path_eq p top)

abbrev unindexed : DiskCache files_lib
unindexed = record {
  cache_dir = top;
  max_size = 100;
  current_size = 0;
  eviction_order = [];
  world = λ p. some (codes "ab");
}

listing-weight :
    (a b : Bool) (entries : List DirEntry)
    → listing a b ≡ some entries
    → entries_weight files_lib directories (unindexed.world) weight entries ≤ one_or_zero a
unfolding bytes_eq
listing-weight true b entries h =
    let same : listed true b ≡ entries = cc in rw (sym same) (omega arith)
listing-weight false true entries h =
    let same : listed false true ≡ entries = cc in rw (sym same) (omega arith)
listing-weight false false entries h = absurd cc

finite : IsFinite files_lib directories (unindexed.world) weight
finite dir entries h = listing-weight (path_eq dir top) (path_eq dir sub) entries h

rebuild_index-Indexes_example :
    (d : DiskCache files_lib) × (rebuild_index files_lib directories 2 unindexed ≡ some d)
    × Indexes files_lib directories unindexed d
unfolding bytes_eq
rebuild_index-Indexes_example =
    rebuild_index-Indexes files_lib directories unindexed weight finite 2 (omega arith)

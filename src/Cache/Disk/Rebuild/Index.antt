-- ===== src/Cache/Disk/Rebuild/Index.antt =====
-- The index that is built at the start: every metadata file under the directory is in it, older ones
-- first, and its size is that of all of them.
use squiddish.Prelude.{
  ℕ, zero, suc, ◌%◌, ◌<◌, ◌≡◌, refl, sym, ap, ◌∙◌, Option, some, List, [], ◌∷◌, arith, All, inl,
  inr, ◌⊎◌,
}
use squiddish.Text.{Bytes}
use squiddish.Cache.Key.{FilePath}
use squiddish.Cache.Files.{FileSystem}
use squiddish.Cache.Disk.State.{DiskCache}
use squiddish.Cache.Disk.Sizes.{u64_mod}
use squiddish.Cache.Disk.Tracking.{Has}
use squiddish.Cache.Disk.Rebuild.{
  DirEntry, Directories, IndexedFile, Scan, file_name, sort_by_time, hashes_of, opened, walk,
  indexed_by, rebuild_index,
}
use squiddish.Cache.Disk.Rebuild.Order.{
  sizes, IsAscending, sort-IsAscending, sizes-sort, All-sort, Has-sort,
}
use squiddish.Cache.Disk.Rebuild.Walk.{walk-nil, IsFinite, walk-returns}
use squiddish.Cache.Disk.Rebuild.Sound.{Comes, walk-only}
use squiddish.Cache.Disk.Rebuild.Visits.{
  stem, OnStack, Lies, here, below, Sums, visit-Sums, Indexed, opened-Indexed, opened-OnStack,
  IsMeta, visit_all-indexes, visit_all-pushes,
}

module _ (fs : FileSystem) (dirs : Directories fs) (w : fs.World) where
  module _ (P : Scan → Type 0)
      (restack : (s : Scan) (stack : List FilePath) → P s → P (record s { stack = stack }))
      (keeps : (o : Option (List DirEntry)) (s : Scan) → P s → P (opened fs dirs w o s)) where
    walk-keeps :
        (fuel : ℕ) (stack : List FilePath) (s s' : Scan)
        → walk fs dirs fuel w stack s ≡ some s'
        → P s
        → P s'
    unfolding walk
    walk-keeps fuel [] s s' h p =
        let over = walk-nil fs dirs fuel w s in let same : s ≡ s' = cc in rw (sym same) p
    walk-keeps zero (dir ∷ stack) s s' h p = absurd cc
    walk-keeps (suc fuel) (dir ∷ stack) s s' h p =
        let next = opened fs dirs w (dirs.read_dir dir w) (record s { stack = stack }) in
        walk-keeps fuel next.stack next s' h (keeps (dirs.read_dir dir w) _ (restack s stack p))

  walk-Indexed :
      (name : Bytes) (fuel : ℕ) (stack : List FilePath) (s s' : Scan)
      → walk fs dirs fuel w stack s ≡ some s'
      → Indexed fs dirs w name s
      → Indexed fs dirs w name s'
  unfolding Indexed
  walk-Indexed name =
      walk-keeps (Indexed fs dirs w name) (λ s stack p. p)
        (λ o s p. opened-Indexed fs dirs w name o s p)

  -- what lies in a directory that is opened is indexed, or it lies in one that is pushed
  opened-finds :
      (dir : FilePath) (e : DirEntry) (s : Scan) (o : Option (List DirEntry))
      → dirs.read_dir dir w ≡ o
      → Lies fs dirs w dir e
      → IsMeta fs dirs w e
      → Indexed fs dirs w (stem (file_name e.path)) (opened fs dirs w o s)
        ⊎ ((sub : FilePath) × OnStack sub (opened fs dirs w o s).stack × Lies fs dirs w sub e)
  unfolding opened
  opened-finds dir e s o read (here entries e' listed there) m =
      rw (sym read ∙ listed) (inl (visit_all-indexes fs dirs w entries e s there m))
  opened-finds dir e s o read (below entries sub e' listed there d lies) m =
      rw (sym read ∙ listed)
        (inr (sub.path, visit_all-pushes fs dirs w entries sub s there d, lies))

  walk-finds :
      (fuel : ℕ) (stack : List FilePath) (s s' : Scan) (dir : FilePath) (e : DirEntry)
      → walk fs dirs fuel w stack s ≡ some s'
      → OnStack dir stack
      → Lies fs dirs w dir e
      → IsMeta fs dirs w e
      → Indexed fs dirs w (stem (file_name e.path)) s'
  unfolding walk
  walk-finds fuel [] s s' dir e h there lies m = absurd there
  walk-finds zero (d ∷ stack) s s' dir e h there lies m = absurd cc
  walk-finds (suc fuel) (d ∷ stack) s s' dir e h (inr later) lies m =
      let rest : Scan = record s { stack = stack } in
      let next = opened fs dirs w (dirs.read_dir d w) rest in
      walk-finds fuel next.stack next s' dir e h
        (opened-OnStack fs dirs w dir (dirs.read_dir d w) rest later) lies m
  walk-finds (suc fuel) (d ∷ stack) s s' dir e h (inl same) lies m =
      let rest : Scan = record s { stack = stack } in
      let next = opened fs dirs w (dirs.read_dir d w) rest in
      elim (opened-finds d e rest (dirs.read_dir d w) refl (rw same at lies) m) [
        | inl found ↦ walk-Indexed (stem (file_name e.path)) fuel next.stack next s' h found
        | inr (sub, pushed, lies') ↦ walk-finds fuel next.stack next s' sub e h pushed lies' m
      ]

  walk-Sums :
      (fuel : ℕ) (stack : List FilePath) (s s' : Scan)
      → walk fs dirs fuel w stack s ≡ some s'
      → Sums fs dirs w s
      → Sums fs dirs w s'
  walk-Sums =
      walk-keeps (λ s. Sums fs dirs w s) (λ s stack p. p) (λ o s p. visit-Sums fs dirs w o s p)

-- What the index holds: its files, older ones first, with the size of all of them on 64 bits.
-- Each has the name, the time and the bytes of a metadata file that lies in the directory of the
-- cache or below it, and each such file is there.
pub record Indexes (fs : FileSystem) (dirs : Directories fs) (d d' : DiskCache fs) : Type 0 where
  pub files : List IndexedFile
  pub order : d'.eviction_order ≡ hashes_of files
  pub oldest_first : IsAscending files
  pub size : d'.current_size ≡ sizes files % u64_mod
  pub all :
      (e : DirEntry)
      → Lies fs dirs d.world d.cache_dir e
      → IsMeta fs dirs d.world e
      → Has (stem (file_name e.path)) d'.eviction_order
  pub only : All (Comes fs dirs d.world d.cache_dir) files

-- If the tree of directories is finite, measured by a weight of each directory, then with fuel
-- for the weight of the directory of the cache the index is rebuilt: the walk comes to its end.
-- The order has the name of every metadata file in the tree that can be measured. It lists files
-- each of which is such a file, with its name, its time of modification, and the bytes of it and
-- of the data file beside it; they stand in the order of these times, and the size is the sum of
-- these bytes, on 64 bits.
pub rebuild_index-Indexes :
    (fs : FileSystem) (dirs : Directories fs) (d : DiskCache fs) (weight : FilePath → ℕ)
    → IsFinite fs dirs d.world weight
    → (fuel : ℕ) → weight d.cache_dir < fuel
    → (d' : DiskCache fs) × (rebuild_index fs dirs fuel d ≡ some d') × Indexes fs dirs d d'
unfolding rebuild_index indexed_by
rebuild_index-Indexes fs dirs d weight finite fuel enough =
    let start : Scan = record { stack = d.cache_dir ∷ []; total_size = 0; files = [] } in
    let (s, ends) =
      walk-returns fs dirs d.world weight finite fuel (d.cache_dir ∷ []) start (omega arith) in
    (
      record d { current_size = s.total_size; eviction_order = hashes_of (sort_by_time s.files) },
      rw ends refl,
      record {
        files = sort_by_time s.files;
        order = refl;
        oldest_first = sort-IsAscending s.files;
        size =
            walk-Sums fs dirs d.world fuel (d.cache_dir ∷ []) start s ends refl
            ∙ ap (λ n. n % u64_mod) (sym (sizes-sort s.files));
        only =
            All-sort (Comes fs dirs d.world d.cache_dir) s.files
              (walk-only fs dirs d.world d.cache_dir fuel 0 s ends);
        all = λ e lies m. Has-sort (stem (file_name e.path)) s.files (
            unfold Indexed in
            walk-finds fs dirs d.world fuel (d.cache_dir ∷ []) start s d.cache_dir e ends (inl refl)
              lies m);
      },
    )

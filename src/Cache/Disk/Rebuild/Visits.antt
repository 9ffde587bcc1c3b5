-- ===== src/Cache/Disk/Rebuild/Visits.antt =====
-- What visiting the entries of directories does: metadata files are indexed, with their sizes, and
-- directories are pushed.
use squiddish.Prelude.{
  ℕ, ◌+◌, ◌%◌, ◌≡◌, refl, sym, true, false, Option, none, some, List, [], ◌∷◌, ◌++◌, arith,
  Bool-cases, inl, inr, ◌⊎◌,
}
use squiddish.Text.{Bytes, codes, rsplit_once}
use squiddish.Cache.Key.{FilePath}
use squiddish.Cache.Files.{FileSystem}
use squiddish.Cache.Disk.State.{add64, or_zero, stem_of, with_extension}
use squiddish.Cache.Disk.Sizes.{u64_mod}
use squiddish.Cache.Disk.Tracking.{Has}
use squiddish.Cache.Disk.Rebuild.{
  DirEntry, Directories, IndexedFile, Scan, has_meta, file_name, hashes_of, named, indexed, visit,
  visit_all, opened,
}
use squiddish.Cache.Disk.Rebuild.Order.{sizes}

-- the name of a file without its extension
abbrev pub stem : Option Bytes → Bytes
stem none = []
stem (some name) = stem_of name (rsplit_once b'.' name)

abbrev pub OnStack : FilePath → List FilePath → Type 0
OnStack p [] = ⊥
OnStack p (d ∷ ds) = (p ≡ d) ⊎ OnStack p ds

sizes-snoc :
    (fs : List IndexedFile) (f : IndexedFile) → sizes (fs ++ f ∷ []) ≡ sizes fs + f.entry_size
sizes-snoc [] f = omega arith
sizes-snoc (g ∷ fs) f = omega (arith, sizes-snoc fs f)

Has-append :
    (h : Bytes) (fs gs : List IndexedFile) → Has h (hashes_of fs) → Has h (hashes_of (fs ++ gs))
unfolding hashes_of
Has-append h [] gs there = absurd there
Has-append h (f ∷ fs) gs (inl e) = inl e
Has-append h (f ∷ fs) gs (inr later) = inr (Has-append h fs gs later)

Has-snoc : (fs : List IndexedFile) (f : IndexedFile) → Has f.hash_hex (hashes_of (fs ++ f ∷ []))
unfolding hashes_of
Has-snoc [] f = inl refl
Has-snoc (g ∷ fs) f = inr (Has-snoc fs f)

module _ (fs : FileSystem) (dirs : Directories fs) (w : fs.World) where
  -- the entry is in the list
  abbrev pub Lists : List DirEntry → DirEntry → Type 0
  Lists [] e = ⊥
  Lists (x ∷ xs) e = (e ≡ x) ⊎ Lists xs e

  -- a file of the directory or of one below it
  pub data Lies : FilePath → DirEntry → Type 0 where
    here :
        {dir : FilePath} (entries : List DirEntry) (e : DirEntry)
        → dirs.read_dir dir w ≡ some entries
        → Lists entries e
        → Lies dir e
    below :
        {dir : FilePath} (entries : List DirEntry) (sub e : DirEntry)
        → dirs.read_dir dir w ≡ some entries
        → Lists entries sub
        → sub.is_dir ≡ true
        → Lies sub.path e
        → Lies dir e

  -- the size that is kept is that of the files, on 64 bits
  abbrev pub Sums : Scan → Type 0
  Sums s = s.total_size ≡ sizes s.files % u64_mod

  named-sizes :
      (o : Option Bytes) (size time : ℕ) (files : List IndexedFile)
      → has_meta o ≡ true
      → sizes (named fs dirs o size time files) ≡ sizes files + size
  unfolding named has_meta
  named-sizes none size time files m = cc
  named-sizes (some name) size time files m = sizes-snoc files _

  named-keeps :
      (o : Option Bytes) (size time : ℕ) (files : List IndexedFile) (h : Bytes)
      → Has h (hashes_of files)
      → Has h (hashes_of (named fs dirs o size time files))
  unfolding named
  named-keeps none size time files h there = there
  named-keeps (some name) size time files h there = Has-append h files _ there

  named-adds :
      (o : Option Bytes) (size time : ℕ) (files : List IndexedFile)
      → has_meta o ≡ true
      → Has (stem o) (hashes_of (named fs dirs o size time files))
  unfolding named has_meta
  named-adds none size time files m = absurd cc
  named-adds (some name) size time files m = Has-snoc files _

  indexed-Sums :
      (path : FilePath) (s : Scan) (o : Option ℕ)
      → has_meta (file_name path) ≡ true
      → Sums s
      → Sums (indexed fs dirs w path s o)
  unfolding indexed add64
  indexed-Sums path s none m sums = sums
  indexed-Sums path s (some n) m sums =
      rw
        (named-sizes (file_name path)
          (add64 n (or_zero (fs.metadata_len w (with_extension (codes "data") path))))
          (dirs.modified path w) s.files m)
        (omega (arith, sums))

  -- What visiting keeps: it pushes directories, and it indexes metadata files.
  module _ (P : Scan → Type 0)
      (push : (s : Scan) (dir : FilePath) → P s → P (record s { stack = dir ∷ s.stack }))
      (index : (s : Scan) (path : FilePath) (o : Option ℕ)
        → has_meta (file_name path) ≡ true
        → P s
        → P (indexed fs dirs w path s o)) where
    visit-keeps : (e : DirEntry) (s : Scan) → P s → P (visit fs dirs w e s)
    unfolding visit
    visit-keeps e s p = elim (Bool-cases e.is_dir) [
      | inl d ↦ rw d (push s e.path p)
      | inr f ↦ elim (Bool-cases (has_meta (file_name e.path))) [
        | inl m ↦ rw (f, m) (index s e.path (fs.metadata_len w e.path) m p)
        | inr n ↦ rw (f, n) p
      ]
    ]

    visit_all-keeps : (es : List DirEntry) (s : Scan) → P s → P (visit_all fs dirs w es s)
    unfolding visit_all
    visit_all-keeps [] s p = p
    visit_all-keeps (e ∷ es) s p = visit_all-keeps es (visit fs dirs w e s) (visit-keeps e s p)

    opened-keeps : (o : Option (List DirEntry)) (s : Scan) → P s → P (opened fs dirs w o s)
    unfolding opened
    opened-keeps none s p = p
    opened-keeps (some es) s p = visit_all-keeps es s p

  pub visit-Sums : (o : Option (List DirEntry)) (s : Scan) → Sums s → Sums (opened fs dirs w o s)
  visit-Sums = opened-keeps Sums (λ s dir p. p) (λ s path o m p. indexed-Sums path s o m p)

  unfoldable pub Indexed : Bytes → Scan → Type 0
  Indexed h s = Has h (hashes_of s.files)

  indexed-Indexed :
      (h : Bytes) (s : Scan) (path : FilePath) (o : Option ℕ)
      → Indexed h s
      → Indexed h (indexed fs dirs w path s o)
  unfolding indexed Indexed
  indexed-Indexed h s path none there = there
  indexed-Indexed h s path (some n) there = named-keeps (file_name path) _ _ s.files h there

  visit_all-Indexed :
      (h : Bytes) (es : List DirEntry) (s : Scan)
      → Indexed h s
      → Indexed h (visit_all fs dirs w es s)
  unfolding Indexed
  visit_all-Indexed h =
      visit_all-keeps (Indexed h) (λ s dir p. p) (λ s path o m p. indexed-Indexed h s path o p)

  pub opened-Indexed :
      (h : Bytes) (o : Option (List DirEntry)) (s : Scan)
      → Indexed h s
      → Indexed h (opened fs dirs w o s)
  unfolding Indexed
  opened-Indexed h =
      opened-keeps (Indexed h) (λ s dir p. p) (λ s path o m p. indexed-Indexed h s path o p)

  indexed-OnStack :
      (d : FilePath) (s : Scan) (path : FilePath) (o : Option ℕ)
      → OnStack d s.stack
      → OnStack d (indexed fs dirs w path s o).stack
  unfolding indexed
  indexed-OnStack d s path none there = there
  indexed-OnStack d s path (some n) there = there

  visit_all-OnStack :
      (d : FilePath) (es : List DirEntry) (s : Scan)
      → OnStack d s.stack
      → OnStack d (visit_all fs dirs w es s).stack
  visit_all-OnStack d =
      visit_all-keeps (λ s. OnStack d s.stack) (λ s dir p. inr p)
        (λ s path o m p. indexed-OnStack d s path o p)

  pub opened-OnStack :
      (d : FilePath) (o : Option (List DirEntry)) (s : Scan)
      → OnStack d s.stack
      → OnStack d (opened fs dirs w o s).stack
  opened-OnStack d =
      opened-keeps (λ s. OnStack d s.stack) (λ s dir p. inr p)
        (λ s path o m p. indexed-OnStack d s path o p)

  visit-pushes :
      (e : DirEntry) (s : Scan) → e.is_dir ≡ true → OnStack e.path (visit fs dirs w e s).stack
  unfolding visit
  visit-pushes e s d = rw d (inl refl)

  pub visit_all-pushes :
      (es : List DirEntry) (e : DirEntry) (s : Scan)
      → Lists es e
      → e.is_dir ≡ true
      → OnStack e.path (visit_all fs dirs w es s).stack
  unfolding visit_all
  visit_all-pushes [] e s there d = absurd there
  visit_all-pushes (x ∷ es) e s (inl same) d =
      visit_all-OnStack e.path es (visit fs dirs w x s) (rw (sym same) (visit-pushes e s d))
  visit_all-pushes (x ∷ es) e s (inr later) d = visit_all-pushes es e (visit fs dirs w x s) later d

  -- a metadata file that can be measured
  abbrev pub IsMeta : DirEntry → Type 0
  IsMeta e =
      (e.is_dir ≡ false)
      × (has_meta (file_name e.path) ≡ true)
      × ((n : ℕ) × (fs.metadata_len w e.path ≡ some n))

  visit-indexes :
      (e : DirEntry) (s : Scan) → IsMeta e → Indexed (stem (file_name e.path)) (visit fs dirs w e s)
  unfolding visit indexed Indexed
  visit-indexes e s (f, m, (n, there)) =
      rw (f, m, there) (named-adds (file_name e.path) _ _ s.files m)

  pub visit_all-indexes :
      (es : List DirEntry) (e : DirEntry) (s : Scan)
      → Lists es e
      → IsMeta e
      → Indexed (stem (file_name e.path)) (visit_all fs dirs w es s)
  unfolding visit_all
  visit_all-indexes [] e s there m = absurd there
  visit_all-indexes (x ∷ es) e s (inl same) m =
      visit_all-Indexed (stem (file_name e.path)) es (visit fs dirs w x s)
        (rw (sym same) (visit-indexes e s m))
  visit_all-indexes (x ∷ es) e s (inr later) m =
      visit_all-indexes es e (visit fs dirs w x s) later m

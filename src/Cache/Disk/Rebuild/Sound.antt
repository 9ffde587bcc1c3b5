-- ===== src/Cache/Disk/Rebuild/Sound.antt =====
-- Only what lies under the directory of the cache is indexed.
use squiddish.Prelude.{
  ℕ, zero, suc, ◌≡◌, refl, sym, ap, true, false, Option, none, some, List, [], ◌∷◌, All, Bool-cases,
  inl, inr,
}
use squiddish.Text.{Bytes, codes}
use squiddish.Cache.Key.{FilePath}
use squiddish.Cache.Files.{FileSystem}
use squiddish.Cache.Disk.State.{add64, or_zero, with_extension}
use squiddish.Cache.Disk.Tracking.{All-append}
use squiddish.Cache.Disk.Rebuild.{
  DirEntry, Directories, IndexedFile, Scan, has_meta, file_name, named, indexed, visit, visit_all,
  opened, walk,
}
use squiddish.Cache.Disk.Rebuild.Walk.{walk-nil}
use squiddish.Cache.Disk.Rebuild.Visits.{stem, OnStack, Lists, Lies, here, below, IsMeta}

module _ (fs : FileSystem) (dirs : Directories fs) (w : fs.World) (root : FilePath) where
  -- the root or a directory below it
  data Reaches : FilePath → Type 0 where
    at_root : Reaches root
    deeper :
        {dir : FilePath} (entries : List DirEntry) (sub : DirEntry)
        → Reaches dir
        → dirs.read_dir dir w ≡ some entries
        → Lists fs dirs w entries sub
        → sub.is_dir ≡ true
        → Reaches sub.path

  Reaches-Lies :
      {dir : FilePath} (e : DirEntry) → Reaches dir → Lies fs dirs w dir e → Lies fs dirs w root e
  Reaches-Lies e at_root lies = lies
  Reaches-Lies e (deeper entries sub r read there d) lies =
      Reaches-Lies e r (below entries sub e read there d lies)

  -- The file of the index is that of a metadata file under the root: with its name, its time and the
  -- bytes of it and of the data file beside it.
  pub record Comes (f : IndexedFile) : Type 0 where
    pub entry : DirEntry
    pub lies : Lies fs dirs w root entry
    pub is_meta : IsMeta fs dirs w entry
    pub name : f.hash_hex ≡ stem (file_name entry.path)
    pub time : f.modified ≡ dirs.modified entry.path w
    pub meta_size : ℕ
    pub measured : fs.metadata_len w entry.path ≡ some meta_size
    pub bytes :
        f.entry_size
        ≡ add64 meta_size (or_zero (fs.metadata_len w (with_extension (codes "data") entry.path)))

  AllReach : List FilePath → Type 0
  AllReach stack = (d : FilePath) → OnStack d stack → Reaches d

  AllCome : List IndexedFile → Type 0
  AllCome files = All Comes files

  named-Comes :
      (o : Option Bytes) (size time : ℕ) (files : List IndexedFile)
      → AllCome files
      → ((name : Bytes)
          → o ≡ some name
          → Comes (record { hash_hex = stem (some name); entry_size = size; modified = time }))
      → AllCome (named fs dirs o size time files)
  unfolding named AllCome
  named-Comes none size time files c new = c
  named-Comes (some name) size time files c new = All-append Comes files _ c (new name refl, tt)

  indexed-Comes :
      (e : DirEntry) (s : Scan) (o : Option ℕ)
      → Lies fs dirs w root e
      → e.is_dir ≡ false
      → has_meta (file_name e.path) ≡ true
      → fs.metadata_len w e.path ≡ o
      → AllReach s.stack × AllCome s.files
      → AllReach (indexed fs dirs w e.path s o).stack × AllCome (indexed fs dirs w e.path s o).files
  unfolding indexed
  indexed-Comes e s none lies f m len (r, c) = (r, c)
  indexed-Comes e s (some n) lies f m len (r, c) = (
    r,
    named-Comes (file_name e.path) _ _ s.files c (λ name named_so. record {
      entry = e;
      lies = lies;
      is_meta = (f, m, (n, len));
      name = ap stem (sym named_so);
      time = refl;
      meta_size = n;
      measured = len;
      bytes = refl;
    }),
  )

  visit-Comes :
      (e : DirEntry) (s : Scan)
      → Lies fs dirs w root e
      → (e.is_dir ≡ true → Reaches e.path)
      → AllReach s.stack × AllCome s.files
      → AllReach (visit fs dirs w e s).stack × AllCome (visit fs dirs w e s).files
  unfolding visit AllReach
  visit-Comes e s lies reach (r, c) = elim (Bool-cases e.is_dir) [
    | inl d ↦
        rw d (λ p there. elim there [ inl same ↦ rw same (reach d) | inr later ↦ r p later ], c)
    | inr f ↦ elim (Bool-cases (has_meta (file_name e.path))) [
      | inl m ↦ rw (f, m) (indexed-Comes e s (fs.metadata_len w e.path) lies f m refl (r, c))
      | inr n ↦ rw (f, n) (r, c)
    ]
  ]

  visit_all-Comes :
      (dir : FilePath) (entries es : List DirEntry) (s : Scan)
      → Reaches dir
      → dirs.read_dir dir w ≡ some entries
      → ((e : DirEntry) → Lists fs dirs w es e → Lists fs dirs w entries e)
      → AllReach s.stack × AllCome s.files
      → AllReach (visit_all fs dirs w es s).stack × AllCome (visit_all fs dirs w es s).files
  unfolding visit_all
  visit_all-Comes dir entries [] s reach read listed a = a
  visit_all-Comes dir entries (e ∷ es) s reach read listed a =
      let there = listed e (inl refl) in
      visit_all-Comes dir entries es (visit fs dirs w e s) reach read (λ x l. listed x (inr l))
        (visit-Comes e s (Reaches-Lies e reach (here entries e read there))
          (λ d. deeper entries e reach read there d) a)

  opened-Comes :
      (dir : FilePath) (o : Option (List DirEntry)) (s : Scan)
      → Reaches dir
      → dirs.read_dir dir w ≡ o
      → AllReach s.stack × AllCome s.files
      → AllReach (opened fs dirs w o s).stack × AllCome (opened fs dirs w o s).files
  unfolding opened
  opened-Comes dir none s reach read a = a
  opened-Comes dir (some entries) s reach read a =
      visit_all-Comes dir entries entries s reach read (λ e l. l) a

  walk-Comes :
      (fuel : ℕ) (stack : List FilePath) (s s' : Scan)
      → walk fs dirs fuel w stack s ≡ some s'
      → AllReach stack
      → AllCome s.files
      → AllCome s'.files
  unfolding walk AllReach
  walk-Comes fuel [] s s' h r c =
      let over = walk-nil fs dirs fuel w s in let same : s ≡ s' = cc in rw (sym same) c
  walk-Comes zero (dir ∷ stack) s s' h r c = absurd cc
  walk-Comes (suc fuel) (dir ∷ stack) s s' h r c =
      let rest : Scan = record s { stack = stack } in
      let next = opened fs dirs w (dirs.read_dir dir w) rest in
      let (r', c') =
        opened-Comes dir (dirs.read_dir dir w) rest (r dir (inl refl)) refl
          ((λ d l. r d (inr l)), c) in
      walk-Comes fuel next.stack next s' h r' c'

  -- each file that the walk from the root finds is that of a metadata file under it
  pub walk-only :
      (fuel total : ℕ) (s' : Scan)
      → walk fs dirs fuel w
          (root ∷ [])
          (record { stack = root ∷ []; total_size = total; files = [] })
        ≡ some s'
      → All Comes s'.files
  unfolding AllReach AllCome
  walk-only fuel total s' h =
      walk-Comes fuel (root ∷ []) _ s' h
        (λ d l. elim l [ inl same ↦ rw same at_root | inr never ↦ absurd never ]) tt

-- ===== src/Cache/Disk/Rebuild/Walk.antt =====
-- The walk at the start ends, as a tree of directories is finite.
use squiddish.Prelude.{
  ℕ, zero, suc, ◌+◌, ◌≤◌, ◌≡◌, refl, ◌∙◌, Option, none, some, List, [], ◌∷◌, arith, Bool-cases, inl,
  inr, if◌then◌else◌,
}
use squiddish.Cache.Key.{FilePath}
use squiddish.Cache.Files.{FileSystem}
use squiddish.Cache.Disk.Rebuild.{
  DirEntry, Directories, Scan, has_meta, file_name, indexed, visit, visit_all, opened, walk,
}

pub walk-nil :
    (fs : FileSystem) (dirs : Directories fs) (fuel : ℕ) (w : fs.World) (s : Scan)
    → walk fs dirs fuel w [] s ≡ some s
unfolding walk
walk-nil fs dirs zero w s = refl
walk-nil fs dirs (suc fuel) w s = refl

module _ (fs : FileSystem) (dirs : Directories fs) (w : fs.World) where
  module _ (weight : FilePath → ℕ) where
    abbrev pub stack_weight : List FilePath → ℕ
    stack_weight [] = 0
    stack_weight (d ∷ ds) = suc (weight d) + stack_weight ds

    -- the weights of the directories among the entries
    abbrev pub entries_weight : List DirEntry → ℕ
    entries_weight [] = 0
    entries_weight (e ∷ es) =
        if e.is_dir then suc (weight e.path) + entries_weight es else entries_weight es

    indexed-stack :
        (path : FilePath) (s : Scan) (o : Option ℕ) → (indexed fs dirs w path s o).stack ≡ s.stack
    unfolding indexed
    indexed-stack path s none = refl
    indexed-stack path s (some n) = refl

    visit-weight :
        (e : DirEntry) (es : List DirEntry) (s : Scan)
        → entries_weight es + stack_weight (visit fs dirs w e s).stack
          ≡ entries_weight (e ∷ es) + stack_weight s.stack
    unfolding visit
    visit-weight e es s = elim (Bool-cases e.is_dir) [
      | inl d ↦ rw d (omega arith)
      | inr f ↦ elim (Bool-cases (has_meta (file_name e.path))) [
        | inl m ↦ rw (f, m, indexed-stack e.path s (fs.metadata_len w e.path)) refl
        | inr n ↦ rw (f, n) refl
      ]
    ]

    visit_all-weight :
        (es : List DirEntry) (s : Scan)
        → stack_weight (visit_all fs dirs w es s).stack ≡ entries_weight es + stack_weight s.stack
    unfolding visit_all
    visit_all-weight [] s = omega arith
    visit_all-weight (e ∷ es) s = visit_all-weight es (visit fs dirs w e s) ∙ visit-weight e es s

    -- Each directory that can be read weighs more than those in it together: the tree is finite.
    abbrev pub IsFinite : Type 0
    IsFinite =
        (dir : FilePath) (entries : List DirEntry)
        → dirs.read_dir dir w ≡ some entries
        → entries_weight entries ≤ weight dir

    opened-weight :
        (dir : FilePath) (s : Scan) (o : Option (List DirEntry))
        → ((entries : List DirEntry) → o ≡ some entries → entries_weight entries ≤ weight dir)
        → stack_weight (opened fs dirs w o s).stack ≤ weight dir + stack_weight s.stack
    unfolding opened
    opened-weight dir s none finite = omega arith
    opened-weight dir s (some entries) finite =
        omega (arith, visit_all-weight entries s, finite entries refl)

    pub walk-returns :
        IsFinite
        → (fuel : ℕ) (stack : List FilePath) (s : Scan) → stack_weight stack ≤ fuel
        → (s' : Scan) × (walk fs dirs fuel w stack s ≡ some s')
    unfolding walk
    walk-returns finite fuel [] s h = (s, walk-nil fs dirs fuel w s)
    walk-returns finite zero (dir ∷ stack) s h = absurd (omega arith)
    walk-returns finite (suc fuel) (dir ∷ stack) s h =
        let rest : Scan = record s { stack = stack } in
        let next = opened fs dirs w (dirs.read_dir dir w) rest in
        walk-returns finite fuel next.stack next
          (omega (arith, opened-weight dir rest (dirs.read_dir dir w) (finite dir)))

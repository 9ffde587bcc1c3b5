-- ===== src/Cache/Disk/Rebuild/Order.antt =====
-- The sort by the time of modification: it orders the files, and it keeps what holds of all of them.
use squiddish.Prelude.{
  ℕ, ◌+◌, ◌≤◌, ◌≡◌, refl, List, [], ◌∷◌, All, arith, ltb, ltb→lt, ltb-false→le, Bool-cases, inl,
  inr, All-map,
}
use squiddish.Text.{Bytes}
use squiddish.Cache.Disk.Tracking.{Has}
use squiddish.Cache.Disk.Rebuild.{IndexedFile, insert_by_time, sort_by_time, hashes_of}

-- the bytes of the files together
abbrev pub sizes : List IndexedFile → ℕ
sizes [] = 0
sizes (f ∷ fs) = f.entry_size + sizes fs

-- older files come first
abbrev pub IsAscending : List IndexedFile → Type 0
IsAscending [] = Unit
IsAscending (f ∷ fs) = All (λ g. f.modified ≤ g.modified) fs × IsAscending fs

All-insert {ℓ} :
    (P : IndexedFile → Type ℓ) (f : IndexedFile) (fs : List IndexedFile)
    → P f
    → All P fs
    → All P (insert_by_time f fs)
unfolding insert_by_time
All-insert P f [] p a = (p, tt)
All-insert P f (g ∷ fs) p (h, a) = elim (Bool-cases (ltb g.modified f.modified)) [
  | inl older ↦ rw older (h, All-insert P f fs p a)
  | inr younger ↦ rw younger (p, (h, a))
]

insert-IsAscending :
    (f : IndexedFile) (fs : List IndexedFile) → IsAscending fs → IsAscending (insert_by_time f fs)
unfolding insert_by_time
insert-IsAscending f [] a = (tt, tt)
insert-IsAscending f (g ∷ fs) (below, a) = elim (Bool-cases (ltb g.modified f.modified)) [
  | inl older ↦
      let le : g.modified ≤ f.modified = omega (arith, ltb→lt g.modified f.modified older) in
      rw older (All-insert (λ h. g.modified ≤ h.modified) f fs le below, insert-IsAscending f fs a)
  | inr younger ↦
      let le = ltb-false→le g.modified f.modified younger in
      rw younger ((le, All-map fs (λ h b. omega arith) below), (below, a))
]

sizes-insert :
    (f : IndexedFile) (fs : List IndexedFile)
    → sizes (insert_by_time f fs) ≡ f.entry_size + sizes fs
unfolding insert_by_time
sizes-insert f [] = refl
sizes-insert f (g ∷ fs) = elim (Bool-cases (ltb g.modified f.modified)) [
  | inl older ↦ rw older (omega (arith, sizes-insert f fs))
  | inr younger ↦ rw younger refl
]

Has-insert :
    (h : Bytes) (f : IndexedFile) (fs : List IndexedFile)
    → Has h (hashes_of (f ∷ fs))
    → Has h (hashes_of (insert_by_time f fs))
unfolding insert_by_time hashes_of
Has-insert h f [] there = there
Has-insert h f (g ∷ fs) there = elim (Bool-cases (ltb g.modified f.modified)) [
  | inl older ↦ rw older (elim there [
    | inl e ↦ inr (Has-insert h f fs (inl e))
    | inr (inl e) ↦ inl e
    | inr (inr later) ↦ inr (Has-insert h f fs (inr later))
  ])
  | inr younger ↦ rw younger there
]

pub sort-IsAscending : (fs : List IndexedFile) → IsAscending (sort_by_time fs)
unfolding sort_by_time
sort-IsAscending [] = tt
sort-IsAscending (f ∷ fs) = insert-IsAscending f (sort_by_time fs) (sort-IsAscending fs)

pub sizes-sort : (fs : List IndexedFile) → sizes (sort_by_time fs) ≡ sizes fs
unfolding sort_by_time
sizes-sort [] = refl
sizes-sort (f ∷ fs) = omega (arith, sizes-insert f (sort_by_time fs), sizes-sort fs)

pub Has-sort :
    (h : Bytes) (fs : List IndexedFile) → Has h (hashes_of fs) → Has h (hashes_of (sort_by_time fs))
unfolding sort_by_time hashes_of
Has-sort h [] there = there
Has-sort h (f ∷ fs) (inl e) = Has-insert h f (sort_by_time fs) (inl e)
Has-sort h (f ∷ fs) (inr later) = Has-insert h f (sort_by_time fs) (inr (Has-sort h fs later))

pub All-sort {ℓ} :
    (P : IndexedFile → Type ℓ) (fs : List IndexedFile) → All P fs → All P (sort_by_time fs)
unfolding sort_by_time
All-sort P [] a = tt
All-sort P (f ∷ fs) (p, a) = All-insert P f (sort_by_time fs) p (All-sort P fs a)

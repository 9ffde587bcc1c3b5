-- ===== src/Cache/Disk/Tracking.antt =====
-- The entries that the eviction order tracks: lists of hashes, and the bytes that they take.
use squiddish.Prelude.{
  ℕ, ◌+◌, ◌<◌, ◌≡◌, ◌≢◌, refl, sym, ap, ◌∙◌, none, List, [], ◌∷◌, ◌++◌, arith, All, Bool-cases, inl,
  inr, ◌⊎◌,
}
use squiddish.Text.{Bytes, bytes_eq}
use squiddish.Text.Laws.{bytes_eq_iff, bytes_eq_sound}
use squiddish.Cache.Key.{FilePath}
use squiddish.Cache.Files.{FileSystem}
use squiddish.Cache.Disk.State.{DiskCache, retain_ne, remove_files}
use squiddish.Cache.Disk.Places.{IsHash, place}
use squiddish.Cache.Disk.Sizes.{meta_of, data_of, taken, taken-remove_ne}

-- the hash is not in the list, and it is
abbrev pub Misses : Bytes → List Bytes → Type 0
Misses h = All (λ k. h ≢ k)

abbrev pub Has : Bytes → List Bytes → Type 0
Has h [] = ⊥
Has h (k ∷ order) = (h ≡ k) ⊎ Has h order

abbrev pub Distinct : List Bytes → Type 0
Distinct [] = Unit
Distinct (h ∷ order) = Misses h order × Distinct order

pub Has-or-Misses : (h : Bytes) (order : List Bytes) → Has h order ⊎ Misses h order
Has-or-Misses h [] = inr tt
Has-or-Misses h (k ∷ order) = elim (Bool-cases (bytes_eq h k)) [
  | inl same ↦ inl (inl (bytes_eq_sound h k same))
  | inr other ↦ elim (Has-or-Misses h order) [
    | inl there ↦ inl (inr there)
    | inr absent ↦ inr (λ e. cc ((bytes_eq_iff h k).1 e), absent)
  ]
]

pub Misses-Has : {h k : Bytes} (order : List Bytes) → Misses h order → Has k order → h ≢ k
Misses-Has [] m there = absurd there
Misses-Has (j ∷ order) (ne, m) (inl e) = λ p. ne (p ∙ e)
Misses-Has (j ∷ order) (ne, m) (inr there) = Misses-Has order m there

pub retain_ne-Misses : (h : Bytes) (order : List Bytes) → Misses h order → retain_ne h order ≡ order
unfolding retain_ne
retain_ne-Misses h [] m = refl
retain_ne-Misses h (k ∷ order) (ne, m) = elim (Bool-cases (bytes_eq k h)) [
  | inl same ↦ absurd (ne (sym (bytes_eq_sound k h same)))
  | inr other ↦ rw other (ap (◌∷◌ k) (retain_ne-Misses h order m))
]

pub Misses-retain_ne : (h : Bytes) (order : List Bytes) → Misses h (retain_ne h order)
unfolding retain_ne
Misses-retain_ne h [] = tt
Misses-retain_ne h (k ∷ order) = elim (Bool-cases (bytes_eq k h)) [
  | inl same ↦ rw same (Misses-retain_ne h order)
  | inr other ↦ rw other (λ e. cc ((bytes_eq_iff k h).1 (sym e)), Misses-retain_ne h order)
]

pub All-retain_ne {ℓ} :
    (P : Bytes → Type ℓ) (h : Bytes) (order : List Bytes) → All P order → All P (retain_ne h order)
unfolding retain_ne
All-retain_ne P h [] a = tt
All-retain_ne P h (k ∷ order) (p, a) = elim (Bool-cases (bytes_eq k h)) [
  | inl same ↦ rw same (All-retain_ne P h order a)
  | inr other ↦ rw other (p, All-retain_ne P h order a)
]

pub retain_ne-Distinct :
    (h : Bytes) (order : List Bytes) → Distinct order → Distinct (retain_ne h order)
unfolding retain_ne
retain_ne-Distinct h [] d = tt
retain_ne-Distinct h (k ∷ order) (m, d) = elim (Bool-cases (bytes_eq k h)) [
  | inl same ↦ rw same (retain_ne-Distinct h order d)
  | inr other ↦ rw other (All-retain_ne (λ j. k ≢ j) h order m, retain_ne-Distinct h order d)
]

pub All-append {ℓ κ} :
    {A : Type ℓ} (P : A → Type κ) (xs ys : List A) → All P xs → All P ys → All P (xs ++ ys)
All-append P [] ys a b = b
All-append P (x ∷ xs) ys (p, a) b = (p, All-append P xs ys a b)

pub All-append-right {ℓ κ} :
    {A : Type ℓ} (P : A → Type κ) (xs ys : List A) → All P (xs ++ ys) → All P ys
All-append-right P [] ys a = a
All-append-right P (x ∷ xs) ys (p, a) = All-append-right P xs ys a

pub All-append-left {ℓ κ} :
    {A : Type ℓ} (P : A → Type κ) (xs ys : List A) → All P (xs ++ ys) → All P xs
All-append-left P [] ys a = tt
All-append-left P (x ∷ xs) ys (p, a) = (p, All-append-left P xs ys a)

pub Distinct-append-right : (xs ys : List Bytes) → Distinct (xs ++ ys) → Distinct ys
Distinct-append-right [] ys d = d
Distinct-append-right (x ∷ xs) ys (m, d) = Distinct-append-right xs ys d

pub Distinct-snoc :
    (order : List Bytes) (h : Bytes) → Distinct order → Misses h order → Distinct (order ++ h ∷ [])
Distinct-snoc [] h d m = (tt, tt)
Distinct-snoc (k ∷ order) h (n, d) (ne, m) =
    (All-append (λ j. k ≢ j) order (h ∷ []) n (λ e. ne (sym e), tt), Distinct-snoc order h d m)

pub All-Has {ℓ} :
    (P : Bytes → Type ℓ) (order : List Bytes) {h : Bytes} → All P order → Has h order → P h
All-Has P [] a there = absurd there
All-Has P (k ∷ order) (p, a) (inl e) = rw e p
All-Has P (k ∷ order) (p, a) (inr there) = All-Has P order a there

pub Has-append-right : (xs ys : List Bytes) (h : Bytes) → Has h ys → Has h (xs ++ ys)
Has-append-right [] ys h there = there
Has-append-right (x ∷ xs) ys h there = inr (Has-append-right xs ys h there)

pub Misses-append-left :
    (xs ys : List Bytes) (h : Bytes) → Distinct (xs ++ ys) → Has h ys → Misses h xs
Misses-append-left [] ys h d there = tt
Misses-append-left (x ∷ xs) ys h (m, d) there = (
  λ e. Misses-Has (xs ++ ys) m (Has-append-right xs ys h there) (sym e),
  Misses-append-left xs ys h d there,
)

module _ (fs : FileSystem) (dir : FilePath) where
  abbrev pub total : fs.World → List Bytes → ℕ
  total w [] = 0
  total w (h ∷ order) = taken fs dir w h + total w order

  pub total-remove_files :
      (w : fs.World) {h : Bytes} (order : List Bytes)
      → IsHash h
      → All IsHash order
      → Misses h order
      → total (remove_files fs (place dir h) w) order ≡ total w order
  total-remove_files w [] v a m = refl
  total-remove_files w (k ∷ order) v (u, a) (ne, m) =
      rw (taken-remove_ne fs dir w v u ne, total-remove_files w order v a m)

  pub total-append :
      (w : fs.World) (xs ys : List Bytes) → total w (xs ++ ys) ≡ total w xs + total w ys
  total-append w [] ys = omega arith
  total-append w (x ∷ xs) ys = omega (arith, total-append w xs ys)

  -- taking a hash out of an order that has it once takes its bytes out of the sum
  pub total-retain_ne :
      (w : fs.World) (h : Bytes) (order : List Bytes)
      → Distinct order
      → Has h order
      → total w (retain_ne h order) + taken fs dir w h ≡ total w order
  unfolding retain_ne
  total-retain_ne w h [] d there = absurd there
  total-retain_ne w h (k ∷ order) (m, d) there = elim (Bool-cases (bytes_eq k h)) [
    | inl same ↦
        let e = bytes_eq_sound k h same in
        let m' : Misses h order = rw e at m in
        rw same (omega (arith, ap (total w) (retain_ne-Misses h order m'), ap (taken fs dir w) e))
    | inr other ↦ elim there [
      | inl e ↦ absurd (cc ((bytes_eq_iff k h).1 (sym e)))
      | inr later ↦ rw other (omega (arith, total-retain_ne w h order d later))
    ]
  ]

-- What holds of the state between two calls: the eviction order lists different hashes, the bytes
-- of their files add up to the size that is kept, each has some bytes, and no other hash has files.
pub record Tracked (fs : FileSystem) (d : DiskCache fs) : Type 0 where
  pub hashes : All IsHash d.eviction_order
  pub distinct : Distinct d.eviction_order
  pub exact : total fs d.cache_dir d.world d.eviction_order ≡ d.current_size
  pub positive : (h : Bytes) → Has h d.eviction_order → 0 < taken fs d.cache_dir d.world h
  pub untracked :
      (h : Bytes)
      → IsHash h
      → Misses h d.eviction_order
      → (meta_of fs d.cache_dir d.world h ≡ none) × (data_of fs d.cache_dir d.world h ≡ none)

-- ===== src/Cache/Disk/Sizes.antt =====
-- What the operations on files do to the contents and sizes of entries.
use squiddish.Prelude.{
  ℕ, ◌+◌, ◌<◌, ◌≡◌, ◌≢◌, refl, sym, ap, ◌∙◌, Option, none, some, [], ◌∷◌, arith,
}
use squiddish.Error.{IoError}
use squiddish.Text.{Bytes, codes}
use squiddish.Cache.Key.{FilePath}
use squiddish.Cache.Files.{Attempt, done, failed, FileSystem, Faultless, len?}
use squiddish.Cache.Disk.State.{add64, or_zero, files_size, remove_files}
use squiddish.Cache.Disk.Places.{IsHash, place, file_of, with_extension-place, file_of_injective}

abbrev pub u64_mod : ℕ
u64_mod = 18446744073709551616

pub add64_lem : (a b : ℕ) → a + b < u64_mod → add64 a b ≡ a + b
unfolding add64
add64_lem a b h = omega arith

abbrev first_byte : Bytes → ℕ
first_byte [] = 0
first_byte (c ∷ s) = c

module _ (fs : FileSystem) (dir : FilePath) where
  open fs use {World, content, remove_file}

  abbrev pub meta_of : World → Bytes → Option Bytes
  meta_of w h = content w (file_of (codes "meta") dir h)

  abbrev pub data_of : World → Bytes → Option Bytes
  data_of w h = content w (file_of (codes "data") dir h)

  -- the bytes that the files of a hash take
  abbrev pub taken : World → Bytes → ℕ
  taken w h = or_zero (len? (meta_of w h)) + or_zero (len? (data_of w h))

  module _ ⦃faultless : Faultless fs⦄ where
    measured :
        (w : World) (p : FilePath) (o : Option Bytes)
        → content w p ≡ o
        → fs.metadata_len w p ≡ len? o
    measured w p none h = fs.metadata_len-absent w p h
    measured w p (some b) h = faultless.measures w p b h

    removed_attempt :
        (w : World) (p : FilePath) (o : Option Bytes) (r : Attempt IoError (Unit {0}) × World)
        → content w p ≡ o
        → remove_file p w ≡ r
        → content (r.1) p ≡ none
    removed_attempt w p o (done tt, w') h e = fs.content-remove_done w w' p e
    removed_attempt w p none (failed x, w') h e = fs.content-remove_failed w w' p x e ∙ h
    removed_attempt w p (some b) (failed x, w') h e =
        let (w₁, removes) = faultless.removes w p b h in
        absurd (cc (ap (λ r. r.0) (sym e ∙ removes)))

    content-remove_self : (w : World) (p : FilePath) → content ((remove_file p w).1) p ≡ none
    content-remove_self w p = removed_attempt w p (content w p) (remove_file p w) refl refl

    pub files_size-place :
        (w : World) {h : Bytes}
        → IsHash h
        → taken w h < u64_mod
        → files_size fs (place dir h) w ≡ taken w h
    unfolding files_size
    files_size-place w {h} v small = rw (
      with_extension-place (codes "meta") dir v,
      with_extension-place (codes "data") dir v,
      measured w (file_of (codes "meta") dir h) (meta_of w h) refl,
      measured w (file_of (codes "data") dir h) (data_of w h) refl,
      add64_lem (or_zero (len? (meta_of w h))) (or_zero (len? (data_of w h))) small,
    )

  pub meta-ne-data :
      {h k : Bytes}
      → IsHash h
      → IsHash k
      → file_of (codes "meta") dir h ≢ file_of (codes "data") dir k
  meta-ne-data v w e =
      omega (arith, ap first_byte ((file_of_injective (codes "meta") (codes "data") dir v w e).1))

  module _ (w : World) {h : Bytes} (v : IsHash h) where
    pub remove_files-place :
        remove_files fs (place dir h) w
        ≡ (remove_file
            (file_of (codes "data") dir h)
            ((remove_file (file_of (codes "meta") dir h) w).1)).1
    unfolding remove_files
    remove_files-place = λ i.
        (remove_file (with_extension-place (codes "data") dir v i)
          ((remove_file (with_extension-place (codes "meta") dir v i) w).1)).1

    pub meta_of-remove_ne :
        {k : Bytes} → IsHash k → h ≢ k → meta_of (remove_files fs (place dir h) w) k ≡ meta_of w k
    meta_of-remove_ne {k} u ne = rw (
      remove_files-place,
      fs.content-remove_ne ((remove_file (file_of (codes "meta") dir h) w).1)
          (file_of (codes "data") dir h) (file_of (codes "meta") dir k)
          (λ e. meta-ne-data u v (sym e)),
      fs.content-remove_ne w (file_of (codes "meta") dir h) (file_of (codes "meta") dir k)
          (λ e. ne (file_of_injective (codes "meta") (codes "meta") dir v u e).0),
    )

    pub data_of-remove_ne :
        {k : Bytes} → IsHash k → h ≢ k → data_of (remove_files fs (place dir h) w) k ≡ data_of w k
    data_of-remove_ne {k} u ne = rw (
      remove_files-place,
      fs.content-remove_ne ((remove_file (file_of (codes "meta") dir h) w).1)
          (file_of (codes "data") dir h) (file_of (codes "data") dir k)
          (λ e. ne (file_of_injective (codes "data") (codes "data") dir v u e).0),
      fs.content-remove_ne w (file_of (codes "meta") dir h) (file_of (codes "data") dir k)
          (λ e. meta-ne-data v u e),
    )

    pub taken-remove_ne :
        {k : Bytes} → IsHash k → h ≢ k → taken (remove_files fs (place dir h) w) k ≡ taken w k
    taken-remove_ne u ne = rw (meta_of-remove_ne u ne, data_of-remove_ne u ne)

    module _ ⦃faultless : Faultless fs⦄ where
      pub meta_of-remove_self : meta_of (remove_files fs (place dir h) w) h ≡ none
      meta_of-remove_self = rw (
        remove_files-place,
        fs.content-remove_ne ((remove_file (file_of (codes "meta") dir h) w).1)
            (file_of (codes "data") dir h) (file_of (codes "meta") dir h)
            (λ e. meta-ne-data v v (sym e)),
        content-remove_self w (file_of (codes "meta") dir h),
      )

      pub data_of-remove_self : data_of (remove_files fs (place dir h) w) h ≡ none
      data_of-remove_self = rw (
        remove_files-place,
        content-remove_self ((remove_file (file_of (codes "meta") dir h) w).1)
            (file_of (codes "data") dir h),
      )

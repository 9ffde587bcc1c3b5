-- ===== src/Cache/Disk/Evict/Room.antt =====
-- `evict_if_needed` makes room: it evicts the oldest entries, and as many as it takes.
use squiddish.Prelude.{
  ℕ, ◌+◌, ◌-◌, ◌≤◌, ◌<◌, ◌≡◌, ◌≢◌, refl, sym, ap, ◌∙◌, Option, none, some, List, [], ◌∷◌, ◌++◌,
  arith, All, leb, leb→le, Bool-cases, inl, inr,
}
use squiddish.Text.{Bytes}
use squiddish.Cache.Key.{FilePath}
use squiddish.Cache.Files.{FileSystem, Faultless}
use squiddish.Cache.Disk.State.{remove_files}
use squiddish.Cache.Disk.Places.{IsHash, place, sharded-place}
use squiddish.Cache.Disk.Sizes.{
  u64_mod, add64_lem, meta_of, data_of, taken, files_size-place, meta_of-remove_self,
  data_of-remove_self, meta_of-remove_ne, data_of-remove_ne,
}
use squiddish.Cache.Disk.Tracking.{
  Misses, Has, Distinct, total, total-remove_files, All-append-left,
}
use squiddish.Cache.Disk.Evict.{evict_step, evict_loop}

module _ (fs : FileSystem) (dir : FilePath) where
  open fs use {World}

  -- The files of the evicted hashes are gone and those of all others are as they were.
  pub record Swept (gone : List Bytes) (w w' : World) : Type 0 where
    pub emptied :
        (k : Bytes) → Has k gone → (meta_of fs dir w' k ≡ none) × (data_of fs dir w' k ≡ none)
    pub kept :
        (k : Bytes)
        → IsHash k
        → Misses k gone
        → (meta_of fs dir w' k ≡ meta_of fs dir w k) × (data_of fs dir w' k ≡ data_of fs dir w k)

  pub Swept-nil : (w : World) → Swept [] w w
  Swept-nil w = record { emptied = λ k there. absurd there; kept = λ k v m. (refl, refl) }

  both_none :
      ⦃faultless : Faultless fs⦄ (w w' : World) (h : Bytes)
      → IsHash h
      → (meta_of fs dir w' h ≡ meta_of fs dir (remove_files fs (place dir h) w) h)
        × (data_of fs dir w' h ≡ data_of fs dir (remove_files fs (place dir h) w) h)
      → (meta_of fs dir w' h ≡ none) × (data_of fs dir w' h ≡ none)
  both_none w w' h v (a, b) =
      (a ∙ meta_of-remove_self fs dir w v, b ∙ data_of-remove_self fs dir w v)

  Swept-cons :
      ⦃faultless : Faultless fs⦄ (w w' : World) {h : Bytes} (gone : List Bytes)
      → IsHash h
      → Misses h gone
      → Swept gone (remove_files fs (place dir h) w) w'
      → Swept (h ∷ gone) w w'
  Swept-cons w w' {h} gone v fresh s = record {
    emptied = λ k there. elim there [
      | inl e ↦ rw e (both_none w w' h v (s.kept h v fresh))
      | inr later ↦ s.emptied k later
    ];
    kept = λ k u m.
        let (a, b) = s.kept k u m.1 in
        (
          a ∙ meta_of-remove_ne fs dir w v u (λ e. m.0 (sym e)),
          b ∙ data_of-remove_ne fs dir w v u (λ e. m.0 (sym e)),
        );
  }

  -- What the loop does to an order: it evicts a part at the front, and the bytes freed and the bytes
  -- of what is left make up the size that the loop started from.
  pub record Evicts (current_size target_size : ℕ) (order : List Bytes) (w : World)
      (r : Option (List Bytes × ℕ × World)) : Type 0 where
    pub left : List Bytes
    pub freed : ℕ
    pub files : World
    pub run : r ≡ some (left, freed, files)
    pub gone : List Bytes
    pub oldest_first : order ≡ gone ++ left
    pub exact : freed + total fs dir files left ≡ current_size
    pub enough : current_size - freed ≤ target_size
    pub swept : Swept gone w files

  pub Evicts-none :
      (current_size target_size : ℕ) (order : List Bytes) (freed : ℕ) (w : World)
      → freed + total fs dir w order ≡ current_size
      → current_size - freed ≤ target_size
      → Evicts current_size target_size order w (some (order, freed, w))
  Evicts-none current_size target_size order freed w e fits = record {
    left = order;
    freed = freed;
    files = w;
    run = refl;
    gone = [];
    oldest_first = refl;
    exact = e;
    enough = fits;
    swept = Swept-nil w;
  }

  Evicts-one :
      ⦃faultless : Faultless fs⦄ {current_size target_size : ℕ} {h : Bytes} {order : List Bytes}
      {w : World} {r : Option (List Bytes × ℕ × World)}
      → IsHash h
      → Misses h order
      → Evicts current_size target_size order (remove_files fs (place dir h) w) r
      → Evicts current_size target_size (h ∷ order) w r
  Evicts-one {h = h} {w = w} v m ev = record {
    left = ev.left;
    freed = ev.freed;
    files = ev.files;
    run = ev.run;
    gone = h ∷ ev.gone;
    oldest_first = ap (◌∷◌ h) ev.oldest_first;
    exact = ev.exact;
    enough = ev.enough;
    swept =
        Swept-cons w ev.files ev.gone v
          (All-append-left (λ k. h ≢ k) ev.gone ev.left (rw ev.oldest_first at m)) ev.swept;
  }

  module _ (current_size target_size : ℕ) (small : current_size < u64_mod) where
    pub evict_loop_lem :
        ⦃faultless : Faultless fs⦄ (order : List Bytes) (freed : ℕ) (w : World)
        → All IsHash order
        → Distinct order
        → freed + total fs dir w order ≡ current_size
        → Evicts current_size target_size order w
            (evict_loop fs dir current_size target_size order freed w)
    unfolding evict_loop evict_step
    evict_loop_lem [] freed w a d e =
        Evicts-none current_size target_size [] freed w e (omega arith)
    evict_loop_lem (h ∷ order) freed w (v, a) (m, d) e =
        elim (Bool-cases (leb (current_size - freed) target_size)) [
          | inl fits ↦ rw fits (
              Evicts-none current_size target_size (h ∷ order) freed w e
                (leb→le (current_size - freed) target_size fits))
          | inr more ↦
              let left = total-remove_files fs dir w order v a m in
              let size = files_size-place fs dir w v (omega arith) in
              let sum = add64_lem freed (taken fs dir w h) (omega arith) in
              rw (more, sharded-place dir h (omega (arith, v.sized)), size, sum)
                (Evicts-one v m (
                  evict_loop_lem order (freed + taken fs dir w h) (remove_files fs (place dir h) w)
                    a d (omega arith)))
        ]

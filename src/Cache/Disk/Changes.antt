-- ===== src/Cache/Disk/Changes.antt =====
-- The two changes of an entry that keep the accounts right: its removal, and its insertion where it
-- is not tracked.
use squiddish.Prelude.{
  ℕ, ◌+◌, ◌-◌, ◌≤◌, ◌<◌, ◌≡◌, ◌≢◌, refl, sym, ap, ◌∙◌, List, [], ◌∷◌, ◌++◌, arith, All, Bool-cases,
  length, inl, inr, ◌⊎◌,
}
use squiddish.Text.{Bytes, bytes_eq}
use squiddish.Text.Laws.{bytes_eq_iff, bytes_eq_sound}
use squiddish.Cache.{CacheEntry}
use squiddish.Cache.Files.{FileSystem, Faultless}
use squiddish.Cache.Disk.State.{DiskCache, retain_ne, remove_files}
use squiddish.Cache.Disk.Places.{IsHash, place}
use squiddish.Cache.Disk.Sizes.{
  taken, meta_of-remove_self, data_of-remove_self, meta_of-remove_ne, data_of-remove_ne,
  taken-remove_ne,
}
use squiddish.Cache.Disk.Tracking.{
  Tracked, Misses, Has, total, Has-or-Misses, All-append, All-Has, All-append-left,
  All-append-right, retain_ne-Misses, Misses-retain_ne, All-retain_ne, retain_ne-Distinct,
  Distinct-snoc, total-remove_files, total-append, total-retain_ne, Misses-Has,
}
use squiddish.Cache.Disk.Evict.Limit.{with_entries}
use squiddish.Cache.Disk.Write.Effect.{Stored}
use squiddish.Cache.Disk.Write.Entries.{
  meta_of-Stored_ne, data_of-Stored_ne, taken-Stored_self, taken-Stored_ne,
}

-- a hash that was retained was there, and is another one
Has-retain_ne : (h k : Bytes) (order : List Bytes) → Has k (retain_ne h order) → Has k order
unfolding retain_ne
Has-retain_ne h k [] there = absurd there
Has-retain_ne h k (j ∷ order) there = elim (Bool-cases (bytes_eq j h)) [
  | inl same ↦ inr (Has-retain_ne h k order (rw same at there))
  | inr other ↦
      let there' : Has k (j ∷ retain_ne h order) = rw other at there in
      elim there' [ inl e ↦ inl e | inr later ↦ inr (Has-retain_ne h k order later) ]
]

Misses-retain_ne_other :
    (h k : Bytes) (order : List Bytes) → k ≢ h → Misses k (retain_ne h order) → Misses k order
unfolding retain_ne
Misses-retain_ne_other h k [] ne m = tt
Misses-retain_ne_other h k (j ∷ order) ne m = elim (Bool-cases (bytes_eq j h)) [
  | inl same ↦
      (λ e. ne (e ∙ bytes_eq_sound j h same), Misses-retain_ne_other h k order ne (rw same at m))
  | inr other ↦
      let m' : Misses k (j ∷ retain_ne h order) = rw other at m in
      (m'.0, Misses-retain_ne_other h k order ne m'.1)
]

Has-snoc : (h k : Bytes) (order : List Bytes) → Has k (order ++ h ∷ []) → Has k order ⊎ (k ≡ h)
Has-snoc h k [] (inl e) = inr e
Has-snoc h k [] (inr none_left) = absurd none_left
Has-snoc h k (j ∷ order) (inl e) = inl (inl e)
Has-snoc h k (j ∷ order) (inr there) = elim (Has-snoc h k order there) [
  | inl there' ↦ inl (inr there')
  | inr e ↦ inr e
]

pub bytes_cases : (s t : Bytes) → (s ≡ t) ⊎ (s ≢ t)
bytes_cases s t = elim (Bool-cases (bytes_eq s t)) [
  | inl same ↦ inl (bytes_eq_sound s t same)
  | inr other ↦ inr (λ e. cc ((bytes_eq_iff s t).1 e))
]

module _ (fs : FileSystem) (d : DiskCache fs) (t : Tracked fs d) {h : Bytes} (v : IsHash h) where
  open d use {cache_dir, current_size, eviction_order, world}

  taken_untracked : Misses h eviction_order → taken fs cache_dir world h ≡ 0
  taken_untracked m = let (a, b) = t.untracked h v m in rw (a, b)

  retained :
      total fs cache_dir world (retain_ne h eviction_order) + taken fs cache_dir world h
      ≡ current_size
  retained = elim (Has-or-Misses h eviction_order) [
    | inl there ↦ total-retain_ne fs cache_dir world h eviction_order t.distinct there ∙ t.exact
    | inr absent ↦ omega (
      arith,
      taken_untracked absent,
      ap (total fs cache_dir world) (retain_ne-Misses h eviction_order absent),
      t.exact,
    )
  ]

  pub taken-le-current_size : taken fs cache_dir world h ≤ current_size
  taken-le-current_size = omega (arith, retained)

  abbrev pub without : DiskCache fs
  without =
      with_entries d (retain_ne h eviction_order) (current_size - taken fs cache_dir world h)
        (remove_files fs (place cache_dir h) world)

  pub without-Tracked : ⦃faultless : Faultless fs⦄ → Tracked fs without
  without-Tracked = record {
    hashes = All-retain_ne IsHash h eviction_order t.hashes;
    distinct = retain_ne-Distinct h eviction_order t.distinct;
    exact =
        total-remove_files fs cache_dir world (retain_ne h eviction_order) v
          (All-retain_ne IsHash h eviction_order t.hashes) (Misses-retain_ne h eviction_order)
        ∙ omega (arith, retained);
    positive = λ k there.
        let there' = Has-retain_ne h k eviction_order there in
        let u = All-Has IsHash eviction_order t.hashes there' in
        let ne =
          Misses-Has (retain_ne h eviction_order) (Misses-retain_ne h eviction_order) there in
        rw (taken-remove_ne fs cache_dir world v u ne) (t.positive k there');
    untracked = λ k u m. elim (bytes_cases k h) [
      | inl e ↦
          rw e (meta_of-remove_self fs cache_dir world v, data_of-remove_self fs cache_dir world v)
      | inr ne ↦
          let (a, b) = t.untracked k u (Misses-retain_ne_other h k eviction_order ne m) in
          (
            meta_of-remove_ne fs cache_dir world v u (λ e. ne (sym e)) ∙ a,
            data_of-remove_ne fs cache_dir world v u (λ e. ne (sym e)) ∙ b,
          )
    ];
  }

module _ (fs : FileSystem) (d : DiskCache fs) (t : Tracked fs d) {h : Bytes} (v : IsHash h) where
  open d use {cache_dir, current_size, eviction_order, world}

  module _ (entry : CacheEntry) (meta_json : Bytes) (n : ℕ) (w' : fs.World)
      (fresh : Misses h eviction_order) (some_bytes : 0 < length meta_json)
      (s : Stored fs (place cache_dir h) entry meta_json world n w') where
    self : taken fs cache_dir w' h ≡ length meta_json + length entry.content
    self = taken-Stored_self fs cache_dir v entry meta_json world n w' s

    total-Stored :
        (order : List Bytes)
        → All IsHash order
        → Misses h order
        → total fs cache_dir w' order ≡ total fs cache_dir world order
    total-Stored [] a m = refl
    total-Stored (k ∷ order) (u, a) (ne, m) =
        rw (
          taken-Stored_ne fs cache_dir v entry meta_json world n w' s k u ne,
          total-Stored order a m,
        )

    pub insert-Tracked : Tracked fs (
        with_entries d
          (eviction_order ++ h ∷ [])
          (current_size + (length meta_json + length entry.content))
          w')
    insert-Tracked = record {
      hashes = All-append IsHash eviction_order (h ∷ []) t.hashes (v, tt);
      distinct = Distinct-snoc eviction_order h t.distinct fresh;
      exact = omega (
        arith,
        total-append fs cache_dir w' eviction_order (h ∷ []),
        total-Stored eviction_order t.hashes fresh,
        self,
        t.exact,
      );
      positive = λ k there. elim (Has-snoc h k eviction_order there) [
        | inl there' ↦
            let u = All-Has IsHash eviction_order t.hashes there' in
            rw
              (taken-Stored_ne fs cache_dir v entry meta_json world n w' s k u
                (Misses-Has eviction_order fresh there'))
              (t.positive k there')
        | inr e ↦ rw (e, self) (omega arith)
      ];
      untracked = λ k u m.
          let ne = (All-append-right (λ j. k ≢ j) eviction_order (h ∷ []) m).0 in
          let (a, b) = t.untracked k u (All-append-left (λ j. k ≢ j) eviction_order (h ∷ []) m) in
          (
            meta_of-Stored_ne fs cache_dir v entry meta_json world n w' s k u (λ e. ne (sym e)) ∙ a,
            data_of-Stored_ne fs cache_dir v entry meta_json world n w' s k u (λ e. ne (sym e)) ∙ b,
          );
    }

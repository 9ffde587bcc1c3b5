-- ===== src/Cache/Disk/Evict/Limit.antt =====
-- `evict_if_needed` keeps the accounts and leaves room for the bytes that it is asked for.
use squiddish.Prelude.{
  ℕ, ◌+◌, ◌-◌, ◌≤◌, ◌<◌, ◌≡◌, ◌≢◌, refl, ◌∙◌, Option, List, [], ◌++◌, arith, leb, leb→le,
  Bool-cases, inl, inr, All,
}
use squiddish.Text.{Bytes}
use squiddish.Error.{Result, ok}
use squiddish.Cache.Files.{FileSystem, Faultless, len?}
use squiddish.Cache.Disk.State.{DiskCache, or_zero}
use squiddish.Cache.Disk.Places.{IsHash}
use squiddish.Cache.Disk.Sizes.{u64_mod, add64_lem, meta_of, data_of, taken}
use squiddish.Cache.Disk.Tracking.{
  Tracked, Distinct, total, Has-or-Misses, All-append, All-append-right, All-Has,
  Distinct-append-right, Has-append-right, Misses-append-left,
}
use squiddish.Cache.Disk.Evict.{evicted, evict_if_needed}
use squiddish.Cache.Disk.Evict.Room.{Swept, Swept-nil, Evicts, evict_loop_lem}

-- the state with another order, size and files
abbrev pub with_entries :
    {fs : FileSystem} → DiskCache fs → List Bytes → ℕ → fs.World → DiskCache fs
with_entries d order size w = record d { eviction_order = order; current_size = size; world = w }

-- The call succeeds, has evicted a part at the front of the order, has left the files of all other
-- entries alone, keeps its accounts, and the bytes asked for fit.
pub record MakesRoom (fs : FileSystem) (needed_size : ℕ) (d : DiskCache fs)
    (r : Result (Unit {0}) × DiskCache fs) : Type 0 where
  pub left : List Bytes
  pub size : ℕ
  pub files : fs.World
  pub run : r ≡ (ok tt, with_entries d left size files)
  pub fits : size + needed_size ≤ d.max_size
  pub tracked : Tracked fs (with_entries d left size files)
  pub gone : List Bytes
  pub oldest_first : d.eviction_order ≡ gone ++ left
  pub swept : Swept fs d.cache_dir gone d.world files

module _ {fs : FileSystem} (d : DiskCache fs) (t : Tracked fs d) where
  taken-kept :
      (w : fs.World) (h : Bytes)
      → (meta_of fs d.cache_dir w h ≡ meta_of fs d.cache_dir d.world h)
        × (data_of fs d.cache_dir w h ≡ data_of fs d.cache_dir d.world h)
      → taken fs d.cache_dir w h ≡ taken fs d.cache_dir d.world h
  taken-kept w h (a, b) = λ i. or_zero (len? (a i)) + or_zero (len? (b i))

  swept-Tracked :
      (gone left : List Bytes) (size : ℕ) (w : fs.World)
      → d.eviction_order ≡ gone ++ left
      → total fs d.cache_dir w left ≡ size
      → Swept fs d.cache_dir gone d.world w
      → Tracked fs (with_entries d left size w)
  swept-Tracked gone left size w split e s = record {
    hashes = hashes;
    distinct = Distinct-append-right gone left distinct;
    exact = e;
    positive = λ h there.
        rw
          (taken-kept w h (
            s.kept h (All-Has IsHash left hashes there)
              (Misses-append-left gone left h distinct there)))
          (t.positive h (rw split (Has-append-right gone left h there)));
    untracked = λ h v m. elim (Has-or-Misses h gone) [
      | inl there ↦ s.emptied h there
      | inr absent ↦
          let (a, b) = s.kept h v absent in
          let (a', b') = t.untracked h v (rw split (All-append (λ k. h ≢ k) gone left absent m)) in
          (a ∙ a', b ∙ b')
    ];
  }
    where
      distinct : Distinct (gone ++ left)
      distinct = rw split at t.distinct

      hashes : All IsHash left
      hashes = All-append-right IsHash gone left (rw split at t.hashes)

  evicted-MakesRoom :
      (needed_size : ℕ) (r : Option (List Bytes × ℕ × fs.World))
      → needed_size ≤ d.max_size
      → Evicts fs d.cache_dir d.current_size (d.max_size - needed_size) d.eviction_order d.world r
      → MakesRoom fs needed_size d (evicted fs d r)
  unfolding evicted
  evicted-MakesRoom needed_size r small ev = record {
    left = ev.left;
    size = d.current_size - ev.freed;
    files = ev.files;
    run = rw ev.run;
    fits = omega (arith, ev.enough);
    tracked =
        swept-Tracked ev.gone ev.left (d.current_size - ev.freed) ev.files ev.oldest_first
          (omega (arith, ev.exact)) ev.swept;
    gone = ev.gone;
    oldest_first = ev.oldest_first;
    swept = ev.swept;
  }

  -- Where files that are there are measured and removed without a fault, on a state whose accounts
  -- are right, where the sizes do not pass 64 bits and the bytes asked for are no more than the
  -- limit, `evict_if_needed` succeeds. It evicts the oldest entries only, whose
  -- files are gone then, the other entries keep their files, the accounts are right, and the bytes
  -- asked for fit beside what is left.
  pub evict_if_needed-MakesRoom :
      ⦃faultless : Faultless fs⦄ (needed_size : ℕ)
      → needed_size ≤ d.max_size
      → d.current_size + needed_size < u64_mod
      → MakesRoom fs needed_size d (evict_if_needed fs needed_size d)
  unfolding evict_if_needed
  evict_if_needed-MakesRoom needed_size small fits =
      let sum = add64_lem d.current_size needed_size fits in
      elim (Bool-cases (leb (d.current_size + needed_size) d.max_size)) [
        | inl enough ↦
            rw (sum, enough)
              (record {
                left = d.eviction_order;
                size = d.current_size;
                files = d.world;
                run = refl;
                fits = leb→le (d.current_size + needed_size) d.max_size enough;
                tracked = t;
                gone = [];
                oldest_first = refl;
                swept = Swept-nil fs d.cache_dir d.world;
              })
        | inr short ↦
            rw (sum, short)
              (evicted-MakesRoom needed_size _ small (
                evict_loop_lem fs d.cache_dir d.current_size (d.max_size - needed_size)
                  (omega arith) d.eviction_order 0 d.world t.hashes t.distinct
                  (omega (arith, t.exact))))
      ]

-- ===== src/Cache/Memory.antt =====
-- src/cache/memory.rs: the memory cache on the crate `moka`, which is an interface.
use squiddish.Prelude.{ℕ, ◌≡◌, ◌≢◌, Option, none, some, ◌⊎◌, leb, if◌then◌else◌}
use squiddish.Cache.{CacheEntry, size}
use squiddish.Cache.Key.{CacheKey}

-- `moka::future::Cache`, which may drop any entry at any time that it is changed; `build` is its
-- builder with the capacity and the weigher
pub record Moka : Type 1 where
  pub Memory : Type 0
  pub build : ℕ → (CacheKey → CacheEntry → ℕ) → Memory
  pub lookup : CacheKey → Memory → Option CacheEntry
  pub insert : CacheKey → CacheEntry → Memory → Memory
  pub invalidate : CacheKey → Memory → Memory
  pub lookup-build :
      (k : CacheKey) (n : ℕ) (weigher : CacheKey → CacheEntry → ℕ)
      → lookup k (build n weigher) ≡ none
  pub lookup-insert_self :
      (k : CacheKey) (e : CacheEntry) (m : Memory)
      → (lookup k (insert k e m) ≡ some e) ⊎ (lookup k (insert k e m) ≡ none)
  pub lookup-insert_ne :
      (k j : CacheKey) (e : CacheEntry) (m : Memory)
      → k ≢ j
      → (lookup j (insert k e m) ≡ lookup j m) ⊎ (lookup j (insert k e m) ≡ none)
  pub lookup-invalidate_self : (k : CacheKey) (m : Memory) → lookup k (invalidate k m) ≡ none

abbrev pub u32_max : ℕ
u32_max = 4294967295

-- `u32::try_from(value.size()).unwrap_or(u32::MAX)`
abbrev pub weigher : CacheKey → CacheEntry → ℕ
weigher key value = if leb (size value) u32_max then size value else u32_max

module _ (moka : Moka) where
  open moka use {Memory, build, lookup, insert, invalidate}

  abbrev pub new : ℕ → Memory
  new max_size = build max_size weigher

  abbrev pub get : CacheKey → Memory → Option CacheEntry
  get key cache = lookup key cache

  abbrev pub put : CacheKey → CacheEntry → Memory → Memory
  put key entry cache = insert key entry cache

  abbrev pub remove : CacheKey → Memory → Memory
  remove key cache = invalidate key cache

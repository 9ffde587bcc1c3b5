-- ===== src/Cache.antt =====
-- src/cache: entries, keys, and the two tiers.
pub mod Key
pub mod Files
pub mod Disk
pub mod Inflight
pub mod Memory
pub mod Tiered
use squiddish.Prelude.{
  ℕ, ◌+◌, ◌-◌, ◌*◌, ◌/◌, Bool, true, List, [], ◌∷◌, ltb, leb, length, if◌then◌else◌,
}
use squiddish.Text.{Bytes}

-- `timestamp` is in nanoseconds since the epoch.
pub record CacheEntry : Type 0 where
  pub content : Bytes
  pub headers : List (Bytes × Bytes)
  pub status : ℕ
  pub timestamp : ℕ
  pub ttl_seconds : ℕ

-- `Duration::as_secs`
abbrev pub as_secs : ℕ → ℕ
as_secs nanos = nanos / 1_000_000_000

-- `now` is the time that `elapsed` reads; it fails if the timestamp lies ahead of it.
unfoldable pub is_expired : ℕ → CacheEntry → Bool
is_expired now entry =
    if leb entry.timestamp now
    then ltb entry.ttl_seconds (as_secs (now - entry.timestamp))
    else true

unfoldable pub header_sizes : List (Bytes × Bytes) → ℕ
header_sizes [] = 0
header_sizes ((k, v) ∷ rest) = length k + length v + 48 + header_sizes rest

unfoldable pub size : CacheEntry → ℕ
unfolding header_sizes
size entry = length entry.content + header_sizes entry.headers + 64

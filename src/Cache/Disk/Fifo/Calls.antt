-- ===== src/Cache/Disk/Fifo/Calls.antt =====
-- The calls of the disk cache and of the queue, and runs of them.
use squiddish.Prelude.{ℕ, ◌+◌, ◌≤◌, ◌<◌, ◌≡◌, Option, List, [], ◌∷◌, length}
use squiddish.Text.{Bytes}
use squiddish.Error.{Result, ok}
use squiddish.Cache.{CacheEntry}
use squiddish.Cache.Key.{CacheKey, Digests, hash_hex}
use squiddish.Cache.Files.{FileSystem, Json, done}
use squiddish.Cache.Disk.State.{DiskCache, metadata_of}
use squiddish.Cache.Disk.Sizes.{u64_mod}
use squiddish.Cache.Disk.Read.{get}
use squiddish.Cache.Disk.{put, remove}
use squiddish.Cache.Disk.Fifo.{Fifo, lookup, delete, insert}

-- a call, with what it returned if it is a `get`; the other calls have succeeded
pub data Call : Type 0 where
  puts : CacheKey → CacheEntry → Call
  gets : CacheKey → Result (Option CacheEntry) → Call
  removes : CacheKey → Call

module _ (fs : FileSystem) (digests : Digests) (json : Json) where
  -- The call as the disk cache makes it: keys are hashes of 32 bytes, and sizes do not pass 64 bits.
  pub data Performs : DiskCache fs → Call → DiskCache fs → Type 0 where
    put_made :
        {d d' : DiskCache fs} (key : CacheKey) (entry : CacheEntry) (meta_json : Bytes)
        → length key.hash ≡ 32
        → json.to_vec (metadata_of entry) ≡ done meta_json
        → length meta_json + length entry.content < u64_mod
        → put fs digests json key entry d ≡ (ok tt, d')
        → Performs d (puts key entry) d'
    get_made :
        {d : DiskCache fs} (key : CacheKey)
        → length key.hash ≡ 32
        → Performs d (gets key (get fs digests json key d)) d
    remove_made :
        {d : DiskCache fs} (key : CacheKey)
        → length key.hash ≡ 32
        → Performs d (removes key) (remove fs digests key d).1

  -- The call as the queue allows it, where entries are limited to a number of bytes.
  pub data Allows (limit : ℕ) : Fifo → Call → Fifo → Type 0 where
    stores :
        {q : Fifo} (key : CacheKey) (entry : CacheEntry) (meta_json : Bytes) (n : ℕ)
        → json.to_vec (metadata_of entry) ≡ done meta_json
        → length meta_json + length entry.content ≤ limit
        → Allows limit q (puts key entry) (insert n (hash_hex digests key) entry q)
    too_large :
        {q : Fifo} (key : CacheKey) (entry : CacheEntry) (meta_json : Bytes)
        → json.to_vec (metadata_of entry) ≡ done meta_json
        → limit < length meta_json + length entry.content
        → Allows limit q (puts key entry) q
    finds :
        {q : Fifo} (key : CacheKey)
        → Allows limit q (gets key (ok (lookup (hash_hex digests key) q))) q
    deletes :
        {q : Fifo} (key : CacheKey) → Allows limit q (removes key) (delete (hash_hex digests key) q)

  pub data Runs : DiskCache fs → List Call → DiskCache fs → Type 0 where
    idle : {d : DiskCache fs} → Runs d [] d
    next :
        {d d₁ d₂ : DiskCache fs} {call : Call} {calls : List Call}
        → Performs d call d₁
        → Runs d₁ calls d₂
        → Runs d (call ∷ calls) d₂

  pub data Allowed (limit : ℕ) : Fifo → List Call → Fifo → Type 0 where
    idly : {q : Fifo} → Allowed limit q [] q
    then_next :
        {q q₁ q₂ : Fifo} {call : Call} {calls : List Call}
        → Allows limit q call q₁
        → Allowed limit q₁ calls q₂
        → Allowed limit q (call ∷ calls) q₂

-- ===== src/Cache/Key.antt =====
-- src/cache/key.rs: the key of a request, and the place of its files.
mod Words
pub mod Encoding
mod Examples
pub use Words.*
use squiddish.Prelude.{
  ℕ, ◌-◌, ◌*◌, ◌≤◌, ◌≡◌, Option, none, some, List, [], ◌∷◌, ◌++◌, leb, length, take, drop,
  if◌then◌else◌, All, ◌⊎◌,
}
use squiddish.Text.{Bytes, codes}

-- the crates `sha2` and `hex`
pub record Digests : Type 0 where
  pub sha256 : Bytes → Bytes
  pub hex_encode : Bytes → Bytes
  pub length-sha256 : (s : Bytes) → length (sha256 s) ≡ 32
  pub length-hex_encode : (s : Bytes) → length (hex_encode s) ≡ 2 * length s
  pub hex_encode-IsHex : (s : Bytes) → All IsHex (hex_encode s)

pub record CacheKey : Type 0 where
  pub hash : Bytes
  pub uri : Bytes

-- what the hasher is fed, in order
pub vary_bytes : List (Bytes × Bytes) → Bytes
vary_bytes [] = []
vary_bytes ((name, value) ∷ rest) = 0 ∷ (name ++ b':' ∷ (value ++ vary_bytes rest))

pub key_bytes : Bytes → Bytes → List (Bytes × Bytes) → Bytes
key_bytes method uri vary_headers = method ++ 0 ∷ (uri ++ vary_bytes vary_headers)

-- `&s[a..b]`, which panics out of range
unfoldable pub slice : ℕ → ℕ → Bytes → Option Bytes
slice a b s = if leb b (length s) then some (take (b - a) (drop a s)) else none

infixl 5 ◌>>=◌
abbrev ◌>>=◌ {ℓ κ} : {A : Type ℓ} {B : Type κ} → Option A → (A → Option B) → Option B
none >>= f = none
some a >>= f = f a

-- `none` is the panic of a slice
unfoldable pub sharded : FilePath → Bytes → Option FilePath
unfolding slice
sharded base_dir hex = do
  shard ← slice 0 2 hex
  subshard ← slice 2 4 hex
  some (base_dir ++ shard ∷ subshard ∷ hex ∷ [])

module _ (digests : Digests) where
  open digests use {sha256, hex_encode}

  unfoldable pub new : Bytes → Bytes → List (Bytes × Bytes) → CacheKey
  unfolding key_bytes vary_bytes
  new method uri vary_headers = record {
    hash = sha256 (key_bytes method uri vary_headers);
    uri = uri;
  }

  unfoldable pub hash_hex : CacheKey → Bytes
  hash_hex key = hex_encode key.hash

  unfoldable pub file_path : FilePath → CacheKey → Option FilePath
  unfolding sharded hash_hex
  file_path base_dir key = sharded base_dir (hash_hex key)

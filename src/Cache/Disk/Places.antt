-- ===== src/Cache/Disk/Places.antt =====
-- The two files of an entry: their paths name the hash of the key, and files of different hashes or
-- of different kinds never share a path.
use squiddish.Prelude.{
  ◌≤◌, ◌≡◌, refl, sym, ap, ◌∙◌, none, some, [], ◌∷◌, ◌++◌, arith, length, take, drop, All, inl, inr,
}
use squiddish.Text.{Bytes, split_once, rsplit_once}
use squiddish.Text.Cuts.{Lacks, split_once-append, rsplit_once-none}
use squiddish.Cache.Key.{FilePath, IsHex, CacheKey, Digests, slice, sharded, hash_hex, file_path}
use squiddish.Cache.Disk.State.{with_extension}

-- what `hash_hex` returns: 64 hexadecimal digits
pub record IsHash (h : Bytes) : Type 0 where
  pub sized : length h ≡ 64
  pub digits : All IsHex h

abbrev pub place : FilePath → Bytes → FilePath
place dir h = dir ++ take 2 h ∷ take 2 (drop 2 h) ∷ h ∷ []

abbrev pub file_of : Bytes → FilePath → Bytes → FilePath
file_of ext dir h = dir ++ take 2 h ∷ take 2 (drop 2 h) ∷ (h ++ b'.' ∷ ext) ∷ []

pub sharded-place : (dir : FilePath) (h : Bytes) → 4 ≤ length h → sharded dir h ≡ some (place dir h)
unfolding sharded slice
sharded-place dir h p = ground arith

hex-Lacks : (h : Bytes) → All IsHex h → Lacks b'.' h
hex-Lacks [] _ = tt
hex-Lacks (c ∷ h) (inl d, rest) = (λ e. omega arith, hex-Lacks h rest)
hex-Lacks (c ∷ h) (inr d, rest) = (λ e. omega arith, hex-Lacks h rest)

with_extension-last :
    (ext : Bytes) (dir : FilePath) (a b h : Bytes)
    → rsplit_once b'.' h ≡ none
    → with_extension ext (dir ++ a ∷ b ∷ h ∷ []) ≡ dir ++ a ∷ b ∷ (h ++ b'.' ∷ ext) ∷ []
unfolding with_extension
with_extension-last ext [] a b h e = rw e
with_extension-last ext (d ∷ []) a b h e = rw e
with_extension-last ext (d ∷ c ∷ dir) a b h e =
    ap (◌∷◌ d) (with_extension-last ext (c ∷ dir) a b h e)

pub with_extension-place :
    (ext : Bytes) (dir : FilePath) {h : Bytes}
    → IsHash h
    → with_extension ext (place dir h) ≡ file_of ext dir h
with_extension-place ext dir {h} v =
    with_extension-last ext dir (take 2 h) (take 2 (drop 2 h)) h
      (rsplit_once-none b'.' h (hex-Lacks h v.digits))

last : FilePath → Bytes
last [] = []
last (n ∷ []) = n
last (n ∷ m ∷ rest) = last (m ∷ rest)

last-append : (dir : FilePath) (a b x : Bytes) → last (dir ++ a ∷ b ∷ x ∷ []) ≡ x
unfolding last
last-append [] a b x = refl
last-append (d ∷ []) a b x = refl
last-append (d ∷ c ∷ dir) a b x = last-append (c ∷ dir) a b x

-- The path of a file tells its hash and its kind.
pub file_of_injective :
    (ext ext' : Bytes) (dir : FilePath) {h k : Bytes}
    → IsHash h
    → IsHash k
    → file_of ext dir h ≡ file_of ext' dir k
    → (h ≡ k) × (ext ≡ ext')
file_of_injective ext ext' dir {h} {k} v w e = ground (
  arith,
  split_once-append b'.' h ext (hex-Lacks h v.digits),
  split_once-append b'.' k ext' (hex-Lacks k w.digits),
  ap (split_once b'.') names,
)
  where
    names : h ++ b'.' ∷ ext ≡ k ++ b'.' ∷ ext'
    names =
        sym (last-append dir (take 2 h) (take 2 (drop 2 h)) (h ++ b'.' ∷ ext))
        ∙ ap last e
        ∙ last-append dir (take 2 k) (take 2 (drop 2 k)) (k ++ b'.' ∷ ext')

module _ (digests : Digests) where
  pub hash_hex-IsHash : (key : CacheKey) → length key.hash ≡ 32 → IsHash (hash_hex digests key)
  unfolding hash_hex
  hash_hex-IsHash key e = record {
    sized = omega (arith, digests.length-hex_encode key.hash);
    digits = digests.hex_encode-IsHex key.hash;
  }

  pub file_path-place :
      (dir : FilePath) (key : CacheKey)
      → length key.hash ≡ 32
      → file_path digests dir key ≡ some (place dir (hash_hex digests key))
  unfolding file_path
  file_path-place dir key e =
      sharded-place dir (hash_hex digests key) (omega (arith, (hash_hex-IsHash key e).sized))

-- ===== src/Samples/Memory.antt =====
-- A memory cache with room for one entry.
use squiddish.Prelude.{
  ◌≡◌, ◌≢◌, refl, Bool, true, Option, none, some, ◌&&◌, if◌then◌else◌, and-true, Bool-cases, inl,
  inr,
}
use squiddish.Text.{bytes_eq}
use squiddish.Text.Laws.{bytes_eq_sound, bytes_eq_refl}
use squiddish.Cache.{CacheEntry}
use squiddish.Cache.Key.{CacheKey}
use squiddish.Cache.Memory.{Moka}

abbrev pub key_eq : CacheKey → CacheKey → Bool
key_eq k j = bytes_eq k.hash j.hash && bytes_eq k.uri j.uri

pub key_eq_sound : (k j : CacheKey) → key_eq k j ≡ true → k ≡ j
key_eq_sound k j e =
    let (a, b) = and-true _ _ e in
    λ i. record { hash = bytes_eq_sound k.hash j.hash a i; uri = bytes_eq_sound k.uri j.uri b i }

abbrev pub lookup : CacheKey → Option (CacheKey × CacheEntry) → Option CacheEntry
lookup k none = none
lookup k (some (j, e)) = if key_eq j k then some e else none

pub lookup_self : (k : CacheKey) (e : CacheEntry) → lookup k (some (k, e)) ≡ some e
lookup_self k e = rw (bytes_eq_refl k.hash, bytes_eq_refl k.uri)

pub lookup_ne : (k j : CacheKey) (e : CacheEntry) → k ≢ j → lookup j (some (k, e)) ≡ none
lookup_ne k j e ne = elim (Bool-cases (key_eq k j)) [
  | inl same ↦ absurd (ne (key_eq_sound k j same))
  | inr other ↦ rw other
]

abbrev pub memory_lib : Moka
memory_lib = record {
  Memory = Option (CacheKey × CacheEntry);
  build = λ n weigher. none;
  lookup = lookup;
  insert = λ k e m. some (k, e);
  invalidate = λ k m. none;
  lookup-build = λ k n weigher. refl;
  lookup-insert_self = λ k e m. inl (lookup_self k e);
  lookup-insert_ne = λ k j e m ne. inr (lookup_ne k j e ne);
  lookup-invalidate_self = λ k m. refl;
}

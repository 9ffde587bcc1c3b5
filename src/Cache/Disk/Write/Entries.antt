-- ===== src/Cache/Disk/Write/Entries.antt =====
-- What a `write_entry` that succeeds leaves at the hash of the entry, and at other hashes.
use squiddish.Prelude.{ℕ, ◌+◌, ◌≡◌, ◌≢◌, sym, ◌∙◌, some, length}
use squiddish.Text.{Bytes, codes}
use squiddish.Cache.{CacheEntry}
use squiddish.Cache.Key.{FilePath}
use squiddish.Cache.Files.{FileSystem}
use squiddish.Cache.Disk.State.{with_extension}
use squiddish.Cache.Disk.Places.{IsHash, place, file_of, with_extension-place, file_of_injective}
use squiddish.Cache.Disk.Sizes.{meta_of, data_of, taken, meta-ne-data}
use squiddish.Cache.Disk.Write.Effect.{Wrote, Stored}

module _ (fs : FileSystem) (dir : FilePath) {h : Bytes} (v : IsHash h) where
  open fs use {World, content}

  Wrote-file :
      (ext b : Bytes) (w w' : World)
      → Wrote fs (with_extension ext (place dir h)) b w w'
      → Wrote fs (file_of ext dir h) b w w'
  Wrote-file ext b w w' = rw (with_extension-place ext dir v) (λ x. x)

  module _ (entry : CacheEntry) (meta_json : Bytes) (w : World) (n : ℕ) (w' : World)
      (s : Stored fs (place dir h) entry meta_json w n w') where
    meta-Wrote : Wrote fs (file_of (codes "meta") dir h) meta_json s.start s.between
    meta-Wrote = Wrote-file (codes "meta") meta_json s.start s.between s.meta

    data-Wrote : Wrote fs (file_of (codes "data") dir h) entry.content s.between w'
    data-Wrote = Wrote-file (codes "data") entry.content s.between w' s.data_file

    pub meta_of-Stored_self : meta_of fs dir w' h ≡ some meta_json
    meta_of-Stored_self =
        data-Wrote.elsewhere (file_of (codes "meta") dir h) (λ e. meta-ne-data fs dir v v (sym e))
        ∙ meta-Wrote.here

    pub data_of-Stored_self : data_of fs dir w' h ≡ some entry.content
    data_of-Stored_self = data-Wrote.here

    pub taken-Stored_self : taken fs dir w' h ≡ length meta_json + length entry.content
    taken-Stored_self = rw (meta_of-Stored_self, data_of-Stored_self)

    module _ (k : Bytes) (u : IsHash k) (ne : h ≢ k) where
      pub meta_of-Stored_ne : meta_of fs dir w' k ≡ meta_of fs dir w k
      meta_of-Stored_ne =
          data-Wrote.elsewhere (file_of (codes "meta") dir k) (λ e. meta-ne-data fs dir u v (sym e))
          ∙ meta-Wrote.elsewhere (file_of (codes "meta") dir k)
              (λ e. ne (file_of_injective (codes "meta") (codes "meta") dir v u e).0)
          ∙ s.dirs (file_of (codes "meta") dir k)

      pub data_of-Stored_ne : data_of fs dir w' k ≡ data_of fs dir w k
      data_of-Stored_ne =
          data-Wrote.elsewhere (file_of (codes "data") dir k)
            (λ e. ne (file_of_injective (codes "data") (codes "data") dir v u e).0)
          ∙ meta-Wrote.elsewhere (file_of (codes "data") dir k) (λ e. meta-ne-data fs dir v u e)
          ∙ s.dirs (file_of (codes "data") dir k)

      pub taken-Stored_ne : taken fs dir w' k ≡ taken fs dir w k
      taken-Stored_ne = rw (meta_of-Stored_ne, data_of-Stored_ne)

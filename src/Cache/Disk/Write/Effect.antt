-- ===== src/Cache/Disk/Write/Effect.antt =====
-- A `write_entry` that succeeds leaves the two files of the entry and touches no others.
use squiddish.Prelude.{ℕ, ◌≡◌, ◌≢◌, refl, sym, ap, ◌∙◌, some, arith, length}
use squiddish.Text.{Bytes, codes}
use squiddish.Error.{Result, ok, err, panicked, IoError}
use squiddish.Cache.{CacheEntry}
use squiddish.Cache.Key.{FilePath}
use squiddish.Cache.Files.{Attempt, done, failed, FileSystem}
use squiddish.Cache.Disk.State.{add64, with_extension}
use squiddish.Cache.Disk.Write.{
  flushed, written, created, write_file, data_written, meta_written, dir_created, parent,
  write_entry,
}

module _ (fs : FileSystem) where
  open fs use {World, Handle, content, create, write_all, flush, create_dir_all}

  -- the path holds the bytes, and the other paths hold what they held
  pub record Wrote (p : FilePath) (b : Bytes) (w w' : World) : Type 0 where
    pub here : content w' p ≡ some b
    pub elsewhere : (q : FilePath) → p ≢ q → content w' q ≡ content w q

  module _ (p : FilePath) (b : Bytes) (w : World) {w' : World} where
    flushed-Wrote :
        (f : Handle) (w₁ w₂ : World) (c : Attempt IoError (Unit {0}) × World)
        → create p w ≡ (done f, w₁)
        → write_all f b w₁ ≡ (done tt, w₂)
        → flush f w₂ ≡ c
        → flushed fs c ≡ (ok tt, w')
        → Wrote p b w w'
    unfolding flushed
    flushed-Wrote f w₁ w₂ (done tt, w₃) e₁ e₂ e₃ h =
        let (here, elsewhere) = fs.content-write w w₁ w₂ w₃ p f b e₁ e₂ e₃ in
        rw (ap (λ r. r.1) (sym h)) (record { here = here; elsewhere = elsewhere })
    flushed-Wrote f w₁ w₂ (failed e, w₃) e₁ e₂ e₃ h = absurd (cc (ap (λ r. r.0) h))

    written-Wrote :
        (f : Handle) (w₁ : World) (c : Attempt IoError (Unit {0}) × World)
        → create p w ≡ (done f, w₁)
        → write_all f b w₁ ≡ c
        → written fs f c ≡ (ok tt, w')
        → Wrote p b w w'
    unfolding written
    written-Wrote f w₁ (done tt, w₂) e₁ e₂ h = flushed-Wrote f w₁ w₂ (flush f w₂) e₁ e₂ refl h
    written-Wrote f w₁ (failed e, w₂) e₁ e₂ h = absurd (cc (ap (λ r. r.0) h))

    created-Wrote :
        (c : Attempt IoError Handle × World)
        → create p w ≡ c
        → created fs b c ≡ (ok tt, w')
        → Wrote p b w w'
    unfolding created
    created-Wrote (done f, w₁) e h = written-Wrote f w₁ (write_all f b w₁) e refl h
    created-Wrote (failed e', w₁) e h = absurd (cc (ap (λ r. r.0) h))

    pub write_file-Wrote : write_file fs p b w ≡ (ok tt, w') → Wrote p b w w'
    unfolding write_file
    write_file-Wrote h = created-Wrote (create p w) refl h

  module _ (base_path : FilePath) (entry : CacheEntry) (meta_json : Bytes) where
    -- what a success means: the size returned, and the files written one behind the other
    pub record Stored (w : World) (n : ℕ) (w' : World) : Type 0 where
      pub between : World
      pub start : World
      pub size : n ≡ add64 (length meta_json) (length entry.content)
      pub dirs : (q : FilePath) → content start q ≡ content w q
      pub meta : Wrote (with_extension (codes "meta") base_path) meta_json start between
      pub data_file : Wrote (with_extension (codes "data") base_path) entry.content between w'

    data-Stored :
        (w start between : World) {w' : World} {n : ℕ} (c : Result (Unit {0}) × World)
        → ((q : FilePath) → content start q ≡ content w q)
        → Wrote (with_extension (codes "meta") base_path) meta_json start between
        → write_file fs (with_extension (codes "data") base_path) entry.content between ≡ c
        → data_written fs (add64 (length meta_json) (length entry.content)) c ≡ (ok n, w')
        → Stored w n w'
    unfolding data_written
    data-Stored w start between {w'} {n} (ok tt, w₂) dirs m e h = record {
      between = between;
      start = start;
      size = ground arith;
      dirs = dirs;
      meta = m;
      data_file =
          write_file-Wrote (with_extension (codes "data") base_path) entry.content between
            (e ∙ ap (λ v. (ok tt, v)) (ap (λ r. r.1) h));
    }
    data-Stored w start between (err x, w₂) dirs m e h = absurd (cc (ap (λ r. r.0) h))
    data-Stored w start between (panicked, w₂) dirs m e h = absurd (cc (ap (λ r. r.0) h))

    meta-Stored :
        (w start : World) {w' : World} {n : ℕ} (c : Result (Unit {0}) × World)
        → ((q : FilePath) → content start q ≡ content w q)
        → write_file fs (with_extension (codes "meta") base_path) meta_json start ≡ c
        → meta_written fs base_path entry.content
            (add64 (length meta_json) (length entry.content))
            c
          ≡ (ok n, w')
        → Stored w n w'
    unfolding meta_written
    meta-Stored w start (ok tt, w₁) dirs e h =
        data-Stored w start w₁
          (write_file fs (with_extension (codes "data") base_path) entry.content w₁) dirs
          (write_file-Wrote (with_extension (codes "meta") base_path) meta_json start e) refl h
    meta-Stored w start (err x, w₁) dirs e h = absurd (cc (ap (λ r. r.0) h))
    meta-Stored w start (panicked, w₁) dirs e h = absurd (cc (ap (λ r. r.0) h))

    dir-Stored :
        (w : World) {w' : World} {n : ℕ} (c : Attempt IoError (Unit {0}) × World)
        → ((q : FilePath) → content c.1 q ≡ content w q)
        → dir_created fs base_path meta_json entry.content c ≡ (ok n, w')
        → Stored w n w'
    unfolding dir_created
    dir-Stored w (done tt, start) dirs h =
        meta-Stored w start
          (write_file fs (with_extension (codes "meta") base_path) meta_json start) dirs refl h
    dir-Stored w (failed x, start) dirs h = absurd (cc (ap (λ r. r.0) h))

    pub write_entry-Stored :
        (w : World) {w' : World} {n : ℕ}
        → write_entry fs base_path entry meta_json w ≡ (ok n, w')
        → Stored w n w'
    unfolding write_entry
    write_entry-Stored w h =
        dir-Stored w (create_dir_all (parent fs base_path) w)
          (fs.content-create_dir_all w (parent fs base_path)) h

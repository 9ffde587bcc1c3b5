-- ===== src/Cache/Disk/Fifo/Refines.antt =====
-- The disk cache refines the queue: each operation that succeeds is one of the queue, and so is each
-- run of operations.
use squiddish.Prelude.{
  ℕ, ◌+◌, ◌≤◌, ◌<◌, ◌≡◌, ◌≢◌, refl, sym, ap, ◌∙◌, Option, some, List, [], ◌∷◌, ◌++◌, length, drop,
  arith, inl, inr,
}
use mathlib.Core.Path.{subst}
use squiddish.Text.{Bytes}
use squiddish.Text.Laws.{bytes_eq_refl}
use squiddish.Error.{Result, ok}
use squiddish.Cache.{CacheEntry}
use squiddish.Cache.Key.{CacheKey, Digests, hash_hex}
use squiddish.Cache.Files.{FileSystem, Faultless, Json, done}
use squiddish.Cache.Disk.State.{DiskCache, metadata_of, remove_files, retain_ne}
use squiddish.Cache.Disk.Places.{IsHash, place, hash_hex-IsHash}
use squiddish.Cache.Disk.Sizes.{
  u64_mod, meta_of, data_of, meta_of-remove_self, meta_of-remove_ne, data_of-remove_ne,
}
use squiddish.Cache.Disk.Tracking.{Tracked, Has, Misses, Has-or-Misses, Distinct, All-append-right}
use squiddish.Cache.Disk.Evict.Room.{Swept}
use squiddish.Cache.Disk.Changes.{bytes_cases, without-Tracked}
use squiddish.Cache.Disk.Write.Entries.{
  meta_of-Stored_self, data_of-Stored_self, meta_of-Stored_ne, data_of-Stored_ne,
}
use squiddish.Cache.Disk.Accounting.{Inserts, put-cases, put-Tracked, remove-without}
use squiddish.Cache.Disk.Read.{get}
use squiddish.Cache.Disk.Read.View.{view, get-view}
use squiddish.Cache.Disk.{put, remove}
use squiddish.Cache.Disk.Fifo.Calls.{
  Call, puts, Performs, put_made, get_made, remove_made, Allows, stores, too_large, finds, deletes,
  Runs, idle, next, Allowed, idly, then_next,
}
use squiddish.Cache.Disk.Fifo.{
  Fifo, hashes, lookup, delete, insert, hashes-append, hashes-delete, lookup-delete_self,
  lookup-delete_ne, lookup-append_none, lookup-snoc_ne, lookup-Misses, hashes-drop, lookup-drop,
}

Misses-append-right :
    (xs ys : List Bytes) (h : Bytes) → Distinct (xs ++ ys) → Has h xs → Misses h ys
Misses-append-right [] ys h d there = absurd there
Misses-append-right (x ∷ xs) ys h (m, d) (inl e) = rw e (All-append-right (λ k. x ≢ k) xs ys m)
Misses-append-right (x ∷ xs) ys h (m, d) (inr there) = Misses-append-right xs ys h d there

module _ (fs : FileSystem) (digests : Digests) (json : Json) where
  -- what the files of a hash are read as
  abbrev seen : DiskCache fs → fs.World → Bytes → Result (Option CacheEntry)
  seen d w h = view fs digests json (meta_of fs d.cache_dir w h) (data_of fs d.cache_dir w h)

  -- The accounts are right, the queue has the hashes of the order, and what is read of a hash is what
  -- the queue has for it.
  pub record Refines (q : Fifo) (d : DiskCache fs) : Type 0 where
    pub tracked : Tracked fs d
    pub within : d.current_size ≤ d.max_size
    pub small : d.max_size + d.max_size < u64_mod
    pub order : hashes q ≡ d.eviction_order
    pub reads : (h : Bytes) → IsHash h → seen d d.world h ≡ ok (lookup h q)

  -- `get` is the lookup of the queue.
  get-lookup :
      (q : Fifo) (d : DiskCache fs) (key : CacheKey)
      → Refines q d
      → length key.hash ≡ 32
      → get fs digests json key d ≡ ok (lookup (hash_hex digests key) q)
  get-lookup q d key r hashed =
      get-view fs digests json key d hashed
      ∙ r.reads (hash_hex digests key) (hash_hex-IsHash digests key hashed)

  module _ (q : Fifo) (d : DiskCache fs) (r : Refines q d) where
    reads-Swept :
        (gone left : List Bytes) (w : fs.World)
        → d.eviction_order ≡ gone ++ left
        → Swept fs d.cache_dir gone d.world w
        → (h : Bytes) → IsHash h
        → seen d w h ≡ ok (lookup h (drop (length gone) q))
    reads-Swept gone left w parts s h v =
        let split = r.order ∙ parts in
        elim (Has-or-Misses h gone) [
          | inl there ↦
              let distinct = rw parts at r.tracked.distinct in
              let absent = Misses-append-right gone left h distinct there in
              let rest = drop (length gone) q in
              let absent' = rw (sym (hashes-drop gone left q split)) at absent in
              rw ((s.emptied h there).0) (ap (λ o. ok o) (sym (lookup-Misses h rest absent')))
          | inr absent ↦
              let (a, b) = s.kept h v absent in
              rw (a, b, lookup-drop h gone left q split absent) (r.reads h v)
        ]

    module _ (key : CacheKey) (hashed : length key.hash ≡ 32) where
      abbrev hash : Bytes
      hash = hash_hex digests key

      is_hash : IsHash hash
      is_hash = hash_hex-IsHash digests key hashed

      Inserts-reads :
          (entry : CacheEntry) (meta_json : Bytes) (d' : DiskCache fs)
          → json.to_vec (metadata_of entry) ≡ done meta_json
          → (ins : Inserts fs digests key hashed entry meta_json d d') → (h : Bytes) → IsHash h
          → seen d ins.files h ≡ ok (lookup h (insert (length ins.room.gone) hash entry q))
      Inserts-reads entry meta_json d' serialized ins h v = elim (bytes_cases hash h) [
        | inl same ↦ rw (sym same) (
            rw
              (
                meta_of-Stored_self fs d.cache_dir is_hash entry meta_json w ins.n ins.files
                    ins.stored,
                data_of-Stored_self fs d.cache_dir is_hash entry meta_json w ins.n ins.files
                    ins.stored,
                json.from_slice-to_vec (metadata_of entry) meta_json serialized,
              )
              (ap (λ o. ok o) (sym newest)))
        | inr ne ↦
            rw
              (
                meta_of-Stored_ne fs d.cache_dir is_hash entry meta_json w ins.n ins.files
                    ins.stored h v ne,
                data_of-Stored_ne fs d.cache_dir is_hash entry meta_json w ins.n ins.files
                    ins.stored h v ne,
                meta_of-remove_ne fs d.cache_dir ins.room.files is_hash v ne,
                data_of-remove_ne fs d.cache_dir ins.room.files is_hash v ne,
                lookup-snoc_ne hash h entry (delete hash rest) ne,
                lookup-delete_ne hash h rest ne,
              )
              (reads-Swept ins.room.gone ins.room.left ins.room.files ins.room.oldest_first
                ins.room.swept h v)
      ]
        where
          rest : Fifo
          rest = drop (length ins.room.gone) q

          w : fs.World
          w = remove_files fs (place d.cache_dir hash) ins.room.files

          newest : lookup hash (delete hash rest ++ (hash, entry) ∷ []) ≡ some entry
          newest =
              lookup-append_none hash (delete hash rest) ((hash, entry) ∷ [])
                (lookup-delete_self hash rest)
              ∙ rw (bytes_eq_refl hash)

      inserted_order :
          (gone left : List Bytes)
          → d.eviction_order ≡ gone ++ left
          → (entry : CacheEntry)
          → hashes (insert (length gone) hash entry q) ≡ retain_ne hash left ++ hash ∷ []
      inserted_order gone left parts entry =
          let rest = drop (length gone) q in
          hashes-append (delete hash rest) ((hash, entry) ∷ [])
          ∙ rw (hashes-delete hash rest, hashes-drop gone left q (r.order ∙ parts)) refl

      put-Refines :
          ⦃faultless : Faultless fs⦄ (entry : CacheEntry) (meta_json : Bytes) (d' : DiskCache fs)
          → json.to_vec (metadata_of entry) ≡ done meta_json
          → length meta_json + length entry.content < u64_mod
          → put fs digests json key entry d ≡ (ok tt, d')
          → (q' : Fifo) × Allows fs digests json d.max_size q (puts key entry) q'
            × Refines q' d'
            × (d'.max_size ≡ d.max_size)
      put-Refines entry meta_json d' serialized bounded h =
          let room : d.current_size + d.max_size < u64_mod = omega (arith, r.within, r.small) in
          let (tracked', bound) =
            put-Tracked fs digests key hashed json entry meta_json serialized bounded d d' r.tracked
              room h in
          elim (put-cases fs digests key hashed json entry meta_json serialized bounded d d'
            r.tracked room h) [
              | inl (large, same) ↦
                  (q, too_large key entry meta_json serialized large, rw same r, rw same refl)
              | inr ins ↦
                  let n = length ins.room.gone in
                  let within' : d'.current_size ≤ d'.max_size = elim bound [
                    | inl same ↦ rw same r.within
                    | inr le ↦ le
                  ] in
                  (
                    insert n hash entry q,
                    stores key entry meta_json n serialized
                        (omega (arith, ins.size_lem, ins.within)),
                    rw ins.result (record {
                      tracked = rw ins.result at tracked';
                      within = rw ins.result at within';
                      small = r.small;
                      order =
                          inserted_order ins.room.gone ins.room.left ins.room.oldest_first entry;
                      reads = λ h v. Inserts-reads entry meta_json d' serialized ins h v;
                    }),
                    rw ins.result refl,
                  )
            ]

      remove-reads :
          ⦃faultless : Faultless fs⦄ (h : Bytes)
          → IsHash h
          → seen d (remove_files fs (place d.cache_dir hash) d.world) h
            ≡ ok (lookup h (delete hash q))
      remove-reads h v = elim (bytes_cases hash h) [
        | inl same ↦ rw (sym same) (
            rw (meta_of-remove_self fs d.cache_dir d.world is_hash)
              (ap (λ o. ok o) (sym (lookup-delete_self hash q))))
        | inr ne ↦
            rw
              (
                meta_of-remove_ne fs d.cache_dir d.world is_hash v ne,
                data_of-remove_ne fs d.cache_dir d.world is_hash v ne,
                lookup-delete_ne hash h q ne,
              )
              (r.reads h v)
      ]

      remove-Refines :
          ⦃faultless : Faultless fs⦄
          → Refines (delete hash q) (remove fs digests key d).1
            × ((remove fs digests key d).1.max_size ≡ d.max_size)
      remove-Refines =
          let room : d.current_size < u64_mod = omega (arith, r.within, r.small) in
          rw (remove-without fs digests key hashed d r.tracked room) (
            record {
              tracked = without-Tracked fs d r.tracked is_hash;
              within = omega (arith, r.within);
              small = r.small;
              order = hashes-delete hash q ∙ ap (retain_ne hash) r.order;
              reads = remove-reads;
            },
            refl,
          )

  Performs-Refines :
      ⦃faultless : Faultless fs⦄ (q : Fifo) {d d' : DiskCache fs} {call : Call}
      → Refines q d
      → Performs fs digests json d call d'
      → (q' : Fifo) × Allows fs digests json d.max_size q call q'
        × Refines q' d'
        × (d'.max_size ≡ d.max_size)
  Performs-Refines q {d} {d'} r (put_made key entry meta_json hashed serialized bounded h) =
      put-Refines q d r key hashed entry meta_json d' serialized bounded h
  Performs-Refines q {d} r (get_made key hashed) =
      (q, rw (get-lookup q d key r hashed) (finds key), r, refl)
  Performs-Refines q {d} r (remove_made key hashed) =
      let (r', same) = remove-Refines q d r key hashed in
      (delete (hash_hex digests key) q, deletes key, r', same)

  with_limit :
      {m n : ℕ} {q q' : Fifo} {calls : List Call}
      → m ≡ n
      → Allowed fs digests json m q calls q'
      → Allowed fs digests json n q calls q'
  with_limit {q = q} {q' = q'} {calls = calls} e a =
      subst (λ limit. Allowed fs digests json limit q calls q') e a

  -- Where files that are there are measured and removed without a fault, a run of calls on a disk
  -- cache that stands for a queue, in which each `put` succeeds, the keys have 32 bytes and the
  -- sizes fit 64 bits, is a run that the queue allows: each `get` returns what the queue has for
  -- the key, each `put` stores its entry as the newest one, unless it is larger than the limit,
  -- and may drop the oldest ones, and each `remove` deletes the entry of its key. The state
  -- behind the run stands for the queue behind it.
  pub Runs-Refines :
      ⦃faultless : Faultless fs⦄ (q : Fifo) {d d' : DiskCache fs} {calls : List Call}
      → Refines q d
      → Runs fs digests json d calls d'
      → (q' : Fifo) × Allowed fs digests json d.max_size q calls q' × Refines q' d'
  Runs-Refines q r idle = (q, idly, r)
  Runs-Refines q r (next p rest) =
      let (q₁, allowed, r₁, same) = Performs-Refines q r p in
      let (q₂, more, r₂) = Runs-Refines q₁ r₁ rest in
      (q₂, then_next allowed (with_limit same more), r₂)

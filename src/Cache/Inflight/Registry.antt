-- ===== src/Cache/Inflight/Registry.antt =====
-- What the operations on one key do to the registered downloads: to those of other keys nothing, and
-- to the value that the waiters of the key see.
use squiddish.Prelude.{
  ◌≡◌, ◌≢◌, refl, sym, ◌∙◌, false, Option, none, some, List, [], ◌∷◌, ◌++◌, Bool-cases, inl, inr,
}
use squiddish.Text.{Bytes, bytes_eq}
use squiddish.Text.Laws.{bytes_eq_sound}
use squiddish.Cache.Inflight.Broadcast.{
  data_chunk, MetaResult, meta_ok, meta_err, ResponseMeta, Channels,
}
use squiddish.Cache.Inflight.{
  joined, DownloadState, InflightDownloads, find, push, without, join_or_start_download,
  set_response_meta, set_response_error, add_chunk, complete_download, join, start, join_or_start,
  meta_sent, chunk_added,
}
use squiddish.Cache.Inflight.Joining.{
  Step, adds, joins, sets_meta, sets_error, Steps, stop, step, find-push,
}

differ : (k j : Bytes) → k ≢ j → bytes_eq k j ≡ false
differ k j ne = elim (Bool-cases (bytes_eq k j)) [
  | inl same ↦ absurd (ne (bytes_eq_sound k j same))
  | inr other ↦ other
]

module _ (lib : Channels) (key : Bytes) where
  find-without :
      (downloads : List (Bytes × DownloadState lib))
      → find lib key (without lib key downloads) ≡ none
  unfolding find without
  find-without [] = refl
  find-without ((k, s) ∷ rest) = elim (Bool-cases (bytes_eq k key)) [
    | inl same ↦ rw same (find-without rest)
    | inr other ↦ rw (other, other) (find-without rest)
  ]

  -- a download that has come to its end is no longer registered
  pub find-complete_download :
      (d : InflightDownloads lib) → find lib key (complete_download lib key d).downloads ≡ none
  unfolding complete_download
  find-complete_download d = find-without d.downloads

  module _ (k : Bytes) (ne : k ≢ key) where
    find_other-without :
        (downloads : List (Bytes × DownloadState lib))
        → find lib k (without lib key downloads) ≡ find lib k downloads
    unfolding find without
    find_other-without [] = refl
    find_other-without ((j, s) ∷ rest) = elim (Bool-cases (bytes_eq j key)) [
      | inl same ↦
          let e : bytes_eq j k ≡ false = differ j k (λ p. ne (sym p ∙ bytes_eq_sound j key same)) in
          rw (same, e) (find_other-without rest)
      | inr other ↦ rw (other, find_other-without rest) refl
    ]

    pub find_other-complete_download :
        (d : InflightDownloads lib)
        → find lib k (complete_download lib key d).downloads ≡ find lib k d.downloads
    unfolding complete_download
    find_other-complete_download d = find_other-without d.downloads

    find_other-push :
        (chunk : Bytes) (downloads : List (Bytes × DownloadState lib))
        → find lib k (push lib key chunk downloads) ≡ find lib k downloads
    unfolding find push
    find_other-push chunk [] = refl
    find_other-push chunk ((j, s) ∷ rest) = elim (Bool-cases (bytes_eq j key)) [
      | inl same ↦
          let e : bytes_eq j k ≡ false = differ j k (λ p. ne (sym p ∙ bytes_eq_sound j key same)) in
          rw (same, e) refl
      | inr other ↦ rw (other, find_other-push chunk rest) refl
    ]

    module _ (d : InflightDownloads lib) where
      add_other :
          (chunk : Bytes) (o : Option (DownloadState lib))
          → find lib k (chunk_added lib key chunk d o).downloads ≡ find lib k d.downloads
      unfolding chunk_added
      add_other chunk none = refl
      add_other chunk (some state) = find_other-push chunk d.downloads

      meta_other :
          (v : MetaResult) (o : Option (DownloadState lib))
          → find lib k (meta_sent lib v d o).downloads ≡ find lib k d.downloads
      unfolding meta_sent
      meta_other v none = refl
      meta_other v (some state) = refl

      join_other :
          (o : Option (DownloadState lib))
          → find lib k (join_or_start lib key d o).1.downloads ≡ find lib k d.downloads
      unfolding join_or_start join start find
      join_other none = rw (differ key k (λ p. ne (sym p))) refl
      join_other (some state) = refl

    pub Step-find_other :
        {d d' : InflightDownloads lib} {cs : List Bytes}
        → Step lib key d cs d'
        → find lib k d'.downloads ≡ find lib k d.downloads
    unfolding add_chunk join_or_start_download set_response_meta set_response_error
    Step-find_other {d} (adds chunk) = add_other d chunk (find lib key d.downloads)
    Step-find_other {d} joins = join_other d (find lib key d.downloads)
    Step-find_other {d} (sets_meta meta) = meta_other d (meta_ok meta) (find lib key d.downloads)
    Step-find_other {d} (sets_error e) = meta_other d (meta_err e) (find lib key d.downloads)

    -- Operations on a key leave the registered downloads of other keys alone.
    pub Steps-find_other :
        {d d' : InflightDownloads lib} {cs : List Bytes}
        → Steps lib key d cs d'
        → find lib k d'.downloads ≡ find lib k d.downloads
    Steps-find_other stop = refl
    Steps-find_other (step s rest) = Steps-find_other rest ∙ Step-find_other s

  -- The watch receiver belongs to the download of the key, and shows the value.
  pub record Shows (r : lib.WatchReceiver) (v : Option MetaResult) (d : InflightDownloads lib)
      : Type 0 where
    pub state : DownloadState lib
    pub found : find lib key d.downloads ≡ some state
    pub same_sender : lib.watch_origin r ≡ state.meta_tx
    pub shown : lib.value r d.world ≡ v

  module _ (r : lib.WatchReceiver) (v : Option MetaResult) (d : InflightDownloads lib)
      (s : Shows r v d) where
    pub add_chunk-Shows : (chunk : Bytes) → Shows r v (add_chunk lib key chunk d)
    unfolding add_chunk chunk_added
    add_chunk-Shows chunk = rw s.found (record {
      state = record (s.state) { accumulated = s.state.accumulated ++ chunk ∷ [] };
      found = find-push lib key chunk d.downloads s.state s.found;
      same_sender = s.same_sender;
      shown = lib.value-send (data_chunk chunk) s.state.sender d.world r ∙ s.shown;
    })

    meta_sent-Shows :
        (m : MetaResult) → Shows r (some m) (meta_sent lib m d (find lib key d.downloads))
    unfolding meta_sent
    meta_sent-Shows m = rw s.found (record {
      state = s.state;
      found = s.found;
      same_sender = s.same_sender;
      shown = rw (sym s.same_sender) (lib.value-watch_send (some m) d.world r);
    })

    pub set_response_meta-Shows :
        (m : ResponseMeta) → Shows r (some (meta_ok m)) (set_response_meta lib key m d)
    unfolding set_response_meta
    set_response_meta-Shows m = meta_sent-Shows (meta_ok m)

    pub set_response_error-Shows :
        (e : Bytes) → Shows r (some (meta_err e)) (set_response_error lib key e d)
    unfolding set_response_error
    set_response_error-Shows e = meta_sent-Shows (meta_err e)

    join_found-Shows :
        (r' : lib.Receiver) (cs : List Bytes) (w' : lib.WatchReceiver)
        → (join_or_start lib key d (find lib key d.downloads)).0 ≡ joined r' cs w'
        → Shows w' v (join_or_start lib key d (find lib key d.downloads)).1
    unfolding join_or_start join
    join_found-Shows r' cs w' h =
        let w₁ = (lib.subscribe s.state.sender d.world).1 in
        let same : (lib.watch_subscribe s.state.meta_tx w₁).0 ≡ w' = cc (rw s.found at h) in
        rw s.found (record {
          state = s.state;
          found = s.found;
          same_sender = rw (sym same) (lib.watch_origin-watch_subscribe s.state.meta_tx w₁);
          shown = rw (sym same) (
              lib.value-watch_subscribe_self s.state.meta_tx w₁ r s.same_sender
              ∙ lib.value-subscribe s.state.sender d.world r
              ∙ s.shown);
        })

    -- the watch receiver of a request that joins shows the same value
    pub join_or_start_download-Shows :
        (r' : lib.Receiver) (cs : List Bytes) (w' : lib.WatchReceiver)
        → (join_or_start_download lib key d).0 ≡ joined r' cs w'
        → Shows w' v (join_or_start_download lib key d).1
    unfolding join_or_start_download
    join_or_start_download-Shows r' cs w' h = join_found-Shows r' cs w' h

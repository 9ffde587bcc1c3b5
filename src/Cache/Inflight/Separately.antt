-- ===== src/Cache/Inflight/Separately.antt =====
-- `join_download` and `start_download` of src/cache/inflight.rs, which the tests call: one step of
-- `join_or_start_download` is the one or the other.
use squiddish.Prelude.{◌≡◌, refl, ap, Option, none, some, List, [], ◌∷◌, Bool-cases, inl, inr}
use squiddish.Text.{Bytes, bytes_eq}
use squiddish.Cache.Inflight.Broadcast.{Channels}
use squiddish.Cache.Inflight.{
  DownloadState, InflightDownloads, DownloadAction, joined, started, find, without, join, start,
  join_or_start, join_or_start_download,
}

module _ (lib : Channels) where
  open lib use {Sender, Receiver, WatchReceiver}

  -- what `join_download` returns
  abbrev pub Joined : Type 0
  Joined = Option (Receiver × List Bytes × WatchReceiver)

  joined_state : InflightDownloads lib → Option (DownloadState lib) → Joined × InflightDownloads lib
  joined_state d none = (none, d)
  joined_state d (some state) =
      let (receiver, w₁) = lib.subscribe state.sender d.world in
      let (meta_rx, w₂) = lib.watch_subscribe state.meta_tx w₁ in
      (some (receiver, state.accumulated, meta_rx), record d { world = w₂ })

  pub join_download : Bytes → InflightDownloads lib → Joined × InflightDownloads lib
  unfolding joined_state find
  join_download key_str d = joined_state d (find lib key_str d.downloads)

  -- a registered download of the key is replaced
  pub start_download :
      Bytes → InflightDownloads lib → (Sender × WatchReceiver) × InflightDownloads lib
  unfolding without
  start_download key_str d =
      let (sender, w₁) = lib.channel d.world in
      let (meta_tx, meta_rx, w₂) = lib.watch_channel w₁ in
      let state : DownloadState lib = record {
        sender = sender;
        accumulated = [];
        meta_tx = meta_tx;
      } in
      (
        (sender, meta_rx),
        record d { downloads = (key_str, state) ∷ without lib key_str d.downloads; world = w₂ },
      )

  -- one call behind the other
  abbrev pub join_then_start :
      Bytes
      → InflightDownloads lib
      → Joined × InflightDownloads lib
      → DownloadAction lib × InflightDownloads lib
  join_then_start key_str d (some (receiver, chunks, meta_rx), d') =
      (joined receiver chunks meta_rx, d')
  join_then_start key_str d (none, d') =
      let (opened, d'') = start_download key_str d' in (started opened.0 opened.1, d'')

  without-none :
      (key : Bytes) (downloads : List (Bytes × DownloadState lib))
      → find lib key downloads ≡ none
      → without lib key downloads ≡ downloads
  unfolding find without
  without-none key [] h = refl
  without-none key ((k, s) ∷ rest) h = elim (Bool-cases (bytes_eq k key)) [
    | inl same ↦ absurd (cc (rw same at h))
    | inr other ↦ rw other (ap (◌∷◌ (k, s)) (without-none key rest (rw other at h)))
  ]

  found_or_not :
      (key : Bytes) (d : InflightDownloads lib) (o : Option (DownloadState lib))
      → find lib key d.downloads ≡ o
      → join_or_start lib key d o ≡ join_then_start key d (joined_state d o)
  unfolding join_or_start join start joined_state start_download
  found_or_not key d (some state) h = refl
  found_or_not key d none h = rw (without-none key d.downloads h) refl

  -- One step of `join_or_start_download` is `join_download` and, where that finds no download,
  -- `start_download` behind it.
  pub join_or_start_download_lem :
      (key : Bytes) (d : InflightDownloads lib)
      → join_or_start_download lib key d ≡ join_then_start key d (join_download key d)
  unfolding join_or_start_download join_download
  join_or_start_download_lem key d = found_or_not key d (find lib key d.downloads) refl

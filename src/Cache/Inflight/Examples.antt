-- ===== src/Cache/Inflight/Examples.antt =====
-- An example of the theorem on joining: one chunk before the join, and one behind it.
use squiddish.Prelude.{◌≡◌, refl, none, some, [], ◌∷◌, arith}
use squiddish.Text.{Bytes, codes, bytes_eq}
use squiddish.Samples.Channels.{channels_lib}
use squiddish.Cache.Inflight.{
  InflightDownloads, DownloadState, find, join_or_start_download, add_chunk,
}
use squiddish.Cache.Inflight.Joining.{adds, stop, step, Joins, join_or_start_download-Joins}

abbrev key : Bytes
key = codes "00ff"

abbrev empty : InflightDownloads channels_lib
empty = record { downloads = []; world = ([], none) }

-- a download with its first chunk
abbrev begun : InflightDownloads channels_lib
begun = add_chunk channels_lib key (codes "ab") (join_or_start_download channels_lib key empty).1

abbrev state : DownloadState channels_lib
state = record { sender = tt; accumulated = codes "ab" ∷ []; meta_tx = tt }

abbrev shared : InflightDownloads channels_lib
shared = (join_or_start_download channels_lib key begun).1

begun-state : find channels_lib key begun.downloads ≡ some state
unfolding find join_or_start_download add_chunk bytes_eq
begun-state = refl

join_or_start_download_example :
    Joins channels_lib key begun
      (add_chunk channels_lib key (codes "cd") shared)
      state
      (codes "cd" ∷ [])
join_or_start_download_example =
    join_or_start_download-Joins channels_lib key begun
      (add_chunk channels_lib key (codes "cd") shared) state (codes "cd" ∷ []) begun-state
      (step (adds (codes "cd")) stop) (omega arith)

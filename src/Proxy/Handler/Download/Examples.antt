-- ===== src/Proxy/Handler/Download/Examples.antt =====
-- Examples of the theorems on downloads: a body of one chunk, and a response with a lifetime of zero.
use squiddish.Prelude.{ℕ, Option, ◌≡◌, ◌↔◌, ◌&&◌, refl, true, false, none, some, [], ◌∷◌, arith}
use squiddish.Text.{codes}
use squiddish.Apt.{is_apt_request}
use squiddish.Config.{default_apt}
use squiddish.Cache.Disk.State.{add64}
use squiddish.Cache.Inflight.{InflightDownloads, add_chunk, join_or_start_download}
use squiddish.Samples.Channels.{channels_lib}
use squiddish.Proxy.Handler.Download.{frame_read, stream_body, entry_ttl}
use squiddish.Proxy.Handler.Download.Bounded.{Streams, stream_body-Streams}
use squiddish.Proxy.Handler.Download.Lifetime.{entry_ttl_iff}

abbrev begun : InflightDownloads channels_lib
begun =
    (join_or_start_download channels_lib (codes "00ff")
      (record { downloads = []; world = ([], none) })).1

stream_body-Streams_example :
    Streams channels_lib
      (codes "00ff")
      10
      true
      (frame_read (some (codes "ab")) ∷ frame_read none ∷ [])
      0
      []
      (codes "ab")
      begun
      (add_chunk channels_lib (codes "00ff") (codes "ab") begun)
unfolding stream_body add64
stream_body-Streams_example =
    stream_body-Streams channels_lib (codes "00ff") 10 true
      (frame_read (some (codes "ab")) ∷ frame_read none ∷ []) 0 [] (codes "ab") begun
      (add_chunk channels_lib (codes "00ff") (codes "ab") begun) (omega arith) (omega arith) refl

abbrev zero_ttl : Option ℕ
zero_ttl = some 0

entry_ttl_iff_example : (entry_ttl default_apt 60 (codes "http://example.org/") zero_ttl ≡ none) ↔ (
    ((default_apt.enabled && is_apt_request (codes "http://example.org/")) ≡ false)
    × (zero_ttl ≡ some 0))
entry_ttl_iff_example = entry_ttl_iff default_apt 60 (codes "http://example.org/") zero_ttl

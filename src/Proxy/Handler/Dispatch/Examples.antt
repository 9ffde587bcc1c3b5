-- ===== src/Proxy/Handler/Dispatch/Examples.antt =====
-- Examples of the theorems on downloads and on the handling of requests: empty caches, and an
-- upstream that answers every request with one chunk.
use squiddish.Prelude.{◌+◌, ◌<◌, ◌≡◌, refl, sym, true, none, some, List, [], ◌∷◌, length, arith}
use squiddish.Text.{codes}
use squiddish.Error.{Result, ok}
use squiddish.Cache.Key.{CacheKey, hash_hex, new, file_path, sharded, slice}
use squiddish.Cache.Disk.Sizes.{u64_mod}
use squiddish.Cache.Inflight.{join_or_start_download}
use squiddish.Cache.Disk.Read.{get as disk_get}
use squiddish.Cache.Inflight.Starting.{Starts, join_or_start_download-Begins}
use squiddish.Cache.Tiered.{get}
use squiddish.Config.{Config, default}
use squiddish.Samples.Headers.{headers_lib}
use squiddish.Samples.Storage.{digests_lib}
use squiddish.Samples.Channels.{channels_lib}
use squiddish.Samples.Process.{platform_lib}
use squiddish.Samples.Bundle.{crates}
use squiddish.Proxy.Http.{Request}
use squiddish.Proxy.Client.{Sent, Upstream, Reply, answered, collect_body}
use squiddish.Proxy.Shared.{Shared}
use squiddish.Proxy.Handler.{create_cache_key}
use squiddish.Proxy.Handler.Download.{Read, frame_read}
use squiddish.Proxy.Handler.Download.Bounded.{chunks, total_length}
use squiddish.Proxy.Handler.Fetch.{fetch_and_stream, download_task}
use squiddish.Proxy.Handler.Fetch.Ending.{Ends, download_task-Ends}
use squiddish.Proxy.Handler.Fetch.{reported}
use squiddish.Proxy.Handler.Download.{stream_body}
use squiddish.Proxy.Handler.Dispatch.Late.{JoinsLate, joining-JoinsLate}
use squiddish.Cache.Disk.State.{add64}
use squiddish.Cache.Inflight.Broadcast.{ResponseMeta, meta_ok}
use squiddish.Cache.Inflight.{InflightDownloads, set_response_meta, add_chunk}
use squiddish.Cache.Inflight.Registry.{Shows, add_chunk-Shows, set_response_meta-Shows}
use squiddish.Text.{Bytes}
use squiddish.Proxy.Handler.Fetch.Passing.{source_of}
use squiddish.Proxy.Handler.Fetch.Storing.{Stores, fetch_and_stream-Stores}
use squiddish.Proxy.Handler.Dispatch.{leading, resumed, handle_cacheable_request}
use squiddish.Proxy.Handler.Dispatch.Serving.{Serves, handle_cacheable_request-Serves}

abbrev config : Config platform_lib
config = default platform_lib

abbrev request : Request headers_lib
request = record {
  method = codes "GET";
  uri = codes "http://a/";
  has_scheme = true;
  uri_host = some (codes "a");
  authority = some (codes "a");
  headers = [];
}

abbrev upstream : Upstream headers_lib (List Read)
upstream = record { status = 200; headers = []; body = frame_read (some (codes "ab")) ∷ [] }

abbrev client : Sent headers_lib → Reply headers_lib (List Read)
client sent = answered upstream

abbrev empty : Shared crates
empty = record {
  cache = record {
    memory = none;
    disk = record {
      cache_dir = codes "cache" ∷ [];
      max_size = 1000;
      current_size = 0;
      eviction_order = [];
      world = λ p. none;
    };
  };
  inflight = record { downloads = []; world = ([], none) };
}

abbrev key : CacheKey
key = create_cache_key headers_lib (crates.digests) request

abbrev begun : Shared crates
begun = (handle_cacheable_request crates 1 2 3 request empty).1

begun-leading : (handle_cacheable_request crates 1 2 3 request empty).0 ≡ leading key tt 0 tt
unfolding handle_cacheable_request get disk_get join_or_start_download create_cache_key new
    file_path sharded slice hash_hex
begun-leading = refl

abbrev ended : Result (Unit {0}) × Shared crates
ended = download_task crates config client key 5 6 tt request [] begun

short :
    (sent : Sent headers_lib) (response : Upstream headers_lib (List Read))
    → client sent ≡ answered response
    → length (chunks response.body) < 1000
short sent response h = let same : upstream ≡ response = cc in rw (sym same) (omega arith)

bounded :
    (sent : Sent headers_lib) (response : Upstream headers_lib (List Read))
    → client sent ≡ answered response
    → config.security.max_body_size + total_length (chunks response.body) < u64_mod
bounded sent response h = let same : upstream ≡ response = cc in rw (sym same) (omega arith)

handle_cacheable_request-Serves_example :
    Serves crates config client key 5 6
      (source_of crates config client key 5 6 request
        (collect_body [] config.security.max_body_size))
      0
      ended.0
      (resumed crates (λ w. ended.1.inflight.world.1) (leading key tt 0 tt))
      ended.1
handle_cacheable_request-Serves_example =
    handle_cacheable_request-Serves crates config client key 5 6 short 1 2 3 request empty begun tt
      0 tt [] ended.0 ended.1 (λ i. (begun-leading i, begun)) refl

fetch_and_stream-Stores_example :
    Stores crates config client key 5 6
      (source_of crates config client key 5 6 request
        (collect_body [] config.security.max_body_size))
      empty
      (fetch_and_stream crates config client key 5 6 request [] empty)
fetch_and_stream-Stores_example =
    fetch_and_stream-Stores crates config client key 5 6 bounded request [] empty

-- a request that has begun the download
begins : Starts channels_lib (hash_hex digests_lib key) tt tt begun.inflight
unfolding handle_cacheable_request get disk_get create_cache_key new file_path sharded slice
    join_or_start_download
begins = join_or_start_download-Begins channels_lib (hash_hex digests_lib key) empty.inflight

download_task-Ends_example :
    Ends crates config client key 5 6
      (source_of crates config client key 5 6 request
        (collect_body [] config.security.max_body_size))
      0
      tt
      ended.0
      ended.1
unfolding begins
download_task-Ends_example =
    download_task-Ends crates config client key 5 6 short tt request [] begun 0 [] tt none refl
      begins.follows begins.shows

-- the download with its headers and its first chunk
abbrev meta : ResponseMeta
meta = record { status = 200; headers = [] }

abbrev with_meta : InflightDownloads channels_lib
with_meta = set_response_meta channels_lib (hash_hex digests_lib key) meta begun.inflight

abbrev under_way : InflightDownloads channels_lib
under_way = add_chunk channels_lib (hash_hex digests_lib key) (codes "ab") with_meta

under_way-Shows : Shows channels_lib (hash_hex digests_lib key) tt (some (meta_ok meta)) under_way
unfolding begins
under_way-Shows =
    add_chunk-Shows channels_lib (hash_hex digests_lib key) tt (some (meta_ok meta)) with_meta
      (set_response_meta-Shows channels_lib (hash_hex digests_lib key) tt none begun.inflight
        begins.shows meta)
      (codes "ab")

abbrev late : Result Bytes × InflightDownloads channels_lib
late =
    stream_body channels_lib (hash_hex digests_lib key) 10 true
      (frame_read (some (codes "cd")) ∷ []) 2 (codes "ab")
      (join_or_start_download channels_lib (hash_hex digests_lib key) under_way).1

late-ok : late.0 ≡ ok (codes "abcd")
unfolding stream_body add64
late-ok = refl

joining-JoinsLate_example :
    JoinsLate crates config client key 5 6 10 true meta under_way-Shows.state
      (frame_read (some (codes "cd")) ∷ [])
      under_way
      (reported crates config client key 5 6 under_way-Shows.state.sender (ok tt) late.1)
joining-JoinsLate_example =
    joining-JoinsLate crates config client key 5 6 10 true meta under_way-Shows.state tt under_way
      (frame_read (some (codes "cd")) ∷ []) 2 (codes "ab") (codes "abcd") late.1 under_way-Shows
      under_way-Shows.found (omega arith) (λ i. (late-ok i, late.1))

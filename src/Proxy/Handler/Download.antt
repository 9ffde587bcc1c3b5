-- ===== src/Proxy/Handler/Download.antt =====
-- The loop of `fetch_and_stream` in src/proxy/handler.rs over the body of the response, and the
-- lifetime that it chooses for the entry.
pub mod Bounded
pub mod Passing
pub mod Lifetime
mod Examples
use squiddish.Prelude.{
  ℕ, Bool, true, ◌&&◌, Option, none, some, List, [], ◌∷◌, ◌++◌, length, ltb, ◌==◌, if◌then◌else◌,
}
use squiddish.Text.{Bytes, codes}
use squiddish.Error.{Result, ok, err, hyper, network, validation_failed}
use squiddish.Apt.{is_apt_request, is_apt_package_file, is_apt_package_list}
use squiddish.Config.{AptConfig}
use squiddish.Cache.Disk.State.{add64}
use squiddish.Cache.Inflight.Broadcast.{Channels}
use squiddish.Cache.Inflight.{InflightDownloads, add_chunk}

-- What reading a frame of a body gives, but for its end: a frame, which has data or is of trailers,
-- an error, or nothing before the timeout. A body is the list of its reads up to the end.
pub data Read : Type 0 where
  frame_read : Option Bytes → Read
  broken : Bytes → Read
  timed_out : Read

module _ (lib : Channels) (key_str : Bytes) (max_body_size : ℕ) (cacheable : Bool) where
  extended : Bytes → Bytes → Bytes
  extended cache_buf bytes = if cacheable then cache_buf ++ bytes else cache_buf

  unfoldable pub stream_body :
      List Read → ℕ → Bytes → InflightDownloads lib → Result Bytes × InflightDownloads lib
  unfolding extended
  stream_body [] total_size cache_buf d = (ok cache_buf, d)
  stream_body (broken e ∷ body) total_size cache_buf d = (err (hyper e), d)
  stream_body (timed_out ∷ body) total_size cache_buf d =
      (err (network (codes "Upstream body read timed out")), d)
  stream_body (frame_read none ∷ body) total_size cache_buf d =
      stream_body body total_size cache_buf d
  stream_body (frame_read (some chunk) ∷ body) total_size cache_buf d =
      let rest =
        stream_body body (add64 total_size (length chunk)) (extended cache_buf chunk)
          (add_chunk lib key_str chunk d) in
      if ltb max_body_size (add64 total_size (length chunk))
      then (err (validation_failed (codes "Response body too large")), d)
      else rest

-- the lifetime of a response whose headers state one, or do not; `none` is not to be cached
stated : ℕ → Option ℕ → Option ℕ
stated default_ttl none = some default_ttl
stated default_ttl (some ttl) = if ttl == 0 then none else some ttl

pub entry_ttl : AptConfig → ℕ → Bytes → Option ℕ → Option ℕ
unfolding stated
entry_ttl apt default_ttl uri header_ttl =
    if apt.enabled && is_apt_request uri
    then if is_apt_package_file uri
      then some (apt.package_ttl_seconds)
      else if is_apt_package_list uri
      then some (apt.list_ttl_seconds)
      else some (apt.other_ttl_seconds)
    else stated default_ttl header_ttl

-- ===== src/Proxy/Handler/Forward.antt =====
-- src/proxy/handler.rs: requests that are passed through, with both bodies collected.
pub mod Whole
mod Examples
use squiddish.Prelude.{ℕ, Option, List}
use squiddish.Text.{Bytes}
use squiddish.Error.{Result, ok, err, panicked, ◌>>=◌}
use squiddish.Cache.Files.{Attempt}
use squiddish.Config.{Config}
use squiddish.Proxy.Http.{Http, Request}
use squiddish.Proxy.Policy.{forward_headers}
use squiddish.Proxy.Client.{Sent, Upstream, Reply, collect_body, fetch_with_timeout}
use squiddish.Proxy.Shared.{Crates}
use squiddish.Proxy.Handler.Fetch.{sent_request}

-- A body is the list of its frames up to the end.
abbrev pub Frames : Type 0
Frames = List (Attempt Bytes (Option Bytes))

module _ (c : Crates) where
  open c use {http, platform}

  pub record ForwardedResponse : Type 0 where
    pub status : ℕ
    pub headers : http.Map
    pub body : Bytes

  module _ (config : Config platform) (client : Sent http → Reply http Frames) where
    -- The builders of the request and of the response take every method, URI and status that came in.
    responded : Upstream http Frames → Result ForwardedResponse
    responded response = collect_body response.body config.security.max_body_size >>= λ body_bytes.
        ok (record {
          status = response.status;
          headers = forward_headers http response.headers;
          body = body_bytes;
        })

    pub forward_request_full : Request http → Frames → Result ForwardedResponse
    unfolding responded
    forward_request_full req body =
        collect_body body config.security.max_body_size >>= λ body_bytes.
        fetch_with_timeout http Frames client (sent_request c req body_bytes) >>= λ response.
        responded response

    pub handle_passthrough_request : Request http → Frames → Result ForwardedResponse
    unfolding forward_request_full
    handle_passthrough_request req body = forward_request_full req body

-- ===== src/Proxy/Handler/Forward/Whole.antt =====
-- What a request that is passed through sends to upstream, and what comes back from there.
use squiddish.Prelude.{◌+◌, ◌≤◌, ◌<◌, ◌≡◌, refl, sym, true, length}
use squiddish.Error.{ok, >>=-eq-ok}
use squiddish.Config.{Config}
use squiddish.Cache.Disk.Sizes.{u64_mod}
use squiddish.Proxy.Http.{Request}
use squiddish.Proxy.Policy.{forward_headers, has_via_loop}
use squiddish.Proxy.Policy.Hops.{has_via_loop-forward_headers}
use squiddish.Proxy.Client.{Sent, Upstream, Reply, answered, collect_body, fetch_with_timeout}
use squiddish.Proxy.Client.Bodies.{body_bytes, collect_body_lem}
use squiddish.Proxy.Client.Replies.{fetch_with_timeout-answered}
use squiddish.Proxy.Shared.{Crates}
use squiddish.Proxy.Handler.Fetch.{sent_request}
use squiddish.Proxy.Handler.Forward.{
  Frames, ForwardedResponse, responded, forward_request_full, handle_passthrough_request,
}

module _ (c : Crates) (config : Config c.platform)
    (client : Sent c.http → Reply c.http Frames) where
  open c use {http}

  -- The request went to upstream with its whole body, and the response of upstream came back with
  -- its whole body. Both went through the filter of headers and name the proxy.
  pub record Forwards (req : Request http) (body : Frames) (r : ForwardedResponse c) : Type 0 where
    pub response : Upstream http Frames
    pub asked :
        client (record {
          method = req.method;
          uri = req.uri;
          uri_host = req.uri_host;
          headers = forward_headers http req.headers;
          body = body_bytes body;
        })
        ≡ answered response
    pub short : length (body_bytes body) ≤ config.security.max_body_size
    pub same_status : r.status ≡ response.status
    pub whole : r.body ≡ body_bytes response.body
    pub within : length r.body ≤ config.security.max_body_size
    pub filtered : r.headers ≡ forward_headers http response.headers
    pub named : has_via_loop http r.headers ≡ true

  -- If a request is passed through without an error, then upstream was sent its method, its URI, its
  -- filtered headers with the name of the proxy, and its whole body, and what
  -- comes back is the status of upstream, its whole body, and its filtered headers with the name of
  -- the proxy. Both bodies are within the limit. The sizes of the bodies do not pass 64 bits.
  pub handle_passthrough_request-Forwards :
      ((sent : Sent http) (response : Upstream http Frames)
        → client sent ≡ answered response
        → config.security.max_body_size + length (body_bytes response.body) < u64_mod)
      → (req : Request http) (body : Frames) (r : ForwardedResponse c)
      → config.security.max_body_size + length (body_bytes body) < u64_mod
      → handle_passthrough_request c config client req body ≡ ok r
      → Forwards req body r
  unfolding handle_passthrough_request forward_request_full responded sent_request
  handle_passthrough_request-Forwards bounded req body r small h =
      let max = config.security.max_body_size in
      let (sent_body, collected, h₁) = >>=-eq-ok (collect_body body max) _ h in
      let (whole_sent, short) = collect_body_lem max body sent_body small collected in
      let sent = sent_request c req sent_body in
      let (response, fetched, h₂) = >>=-eq-ok (fetch_with_timeout http Frames client sent) _ h₁ in
      let asked = fetch_with_timeout-answered http Frames client sent response fetched in
      let (out, kept, h₃) = >>=-eq-ok (collect_body response.body max) _ h₂ in
      let (whole, within) =
        collect_body_lem max response.body out (bounded sent response asked) kept in
      let made : ForwardedResponse c = record {
        status = response.status;
        headers = forward_headers http response.headers;
        body = out;
      } in
      let same : made ≡ r = cc in
      rw (sym same) (record {
        response = response;
        asked = rw (sym whole_sent) asked;
        short = rw (sym whole_sent) short;
        same_status = refl;
        whole = whole;
        within = within;
        filtered = refl;
        named = has_via_loop-forward_headers http response.headers;
      })

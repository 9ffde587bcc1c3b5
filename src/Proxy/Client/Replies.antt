-- ===== src/Proxy/Client/Replies.antt =====
-- A response that `fetch_with_timeout` returns is one that upstream gave.
use squiddish.Prelude.{◌≡◌, Bool-cases, inl, inr}
use squiddish.Text.{Bytes}
use squiddish.Error.{ok}
use squiddish.Proxy.Http.{Http}
use squiddish.Proxy.Client.{
  Sent, Upstream, Reply, no_answer, refused, answered, is_dns_error, reply_result, host_or_unknown,
  fetch_with_timeout,
}

module _ (lib : Http) (Body : Type 0) where
  reply-answered :
      (host : Bytes) (reply : Reply lib Body) (response : Upstream lib Body)
      → reply_result lib Body host reply ≡ ok response
      → reply ≡ answered response
  unfolding reply_result
  reply-answered host no_answer response h = cc
  reply-answered host (refused chain message) response h = elim (Bool-cases (is_dns_error chain)) [
    | inl e ↦ absurd (cc (rw e at h))
    | inr e ↦ absurd (cc (rw e at h))
  ]
  reply-answered host (answered r) response h = cc

  pub fetch_with_timeout-answered :
      (client : Sent lib → Reply lib Body) (req : Sent lib) (response : Upstream lib Body)
      → fetch_with_timeout lib Body client req ≡ ok response
      → client req ≡ answered response
  unfolding fetch_with_timeout
  fetch_with_timeout-answered client req response h =
      reply-answered (host_or_unknown req.uri_host) (client req) response h

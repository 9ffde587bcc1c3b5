-- ===== src/Proxy/Client.antt =====
-- src/proxy/client.rs: the body of a message as a whole, and which errors are those of DNS.
pub mod Bodies
pub mod Replies
mod Examples
use squiddish.Prelude.{
  Bool, true, false, Option, none, some, List, [], ◌∷◌, ◌++◌, ℕ, any, length, ltb, if◌then◌else◌,
}
use squiddish.Text.{Bytes, codes, contains}
use squiddish.Error.{
  Result, ok, err, hyper, hyper_util, io, dns_error, validation_failed, IoError, ErrorKind, other,
  timed_out,
}
use squiddish.Proxy.Http.{Http}
use squiddish.Cache.Disk.State.{add64}
use squiddish.Cache.Files.{Attempt, done, failed}

-- A body is the list of its frames up to the end; a frame has data or is of trailers.
collected_from : ℕ → List (Attempt Bytes (Option Bytes)) → Bytes → Result Bytes
collected_from max_size [] collected = ok collected
collected_from max_size (failed e ∷ body) collected = err (hyper e)
collected_from max_size (done none ∷ body) collected = collected_from max_size body collected
collected_from max_size (done (some chunk) ∷ body) collected =
    let rest = collected_from max_size body (collected ++ chunk) in
    if ltb max_size (add64 (length collected) (length chunk))
    then err (validation_failed (codes "Body too large"))
    else rest

unfoldable pub collect_body : List (Attempt Bytes (Option Bytes)) → ℕ → Result Bytes
unfolding collected_from
collect_body body max_size = collected_from max_size body []

abbrev dns_words : List Bytes
dns_words =
    codes "dns"
    ∷ codes "resolve"
    ∷ codes "Name or service not known"
    ∷ codes "nodename nor servname provided"
    ∷ codes "No address associated with hostname"
    ∷ []

dns_kind : Bytes → ErrorKind → Bool
dns_kind msg other = any (λ word. contains word msg) dns_words
dns_kind msg _ = false

-- The argument is the chain of the sources of an error, each of them an `io::Error` or not.
pub is_dns_error : List (Option IoError) → Bool
unfolding dns_kind
is_dns_error [] = false
is_dns_error (none ∷ chain) = is_dns_error chain
is_dns_error (some e ∷ chain) =
    let rest = is_dns_error chain in if dns_kind e.message e.kind then true else rest

-- a request as it is sent, and the response that comes back, whose body is yet to be read
pub record Sent (lib : Http) : Type 0 where
  pub method : Bytes
  pub uri : Bytes
  pub uri_host : Option Bytes
  pub headers : lib.Map
  pub body : Bytes

pub record Upstream (lib : Http) (Body : Type 0) : Type 0 where
  pub status : ℕ
  pub headers : lib.Map
  pub body : Body

-- what `client.request` gives within the timeout: an error comes with the chain of its sources
pub data Reply (lib : Http) (Body : Type 0) : Type 0 where
  no_answer : Reply lib Body
  refused : List (Option IoError) → Bytes → Reply lib Body
  answered : Upstream lib Body → Reply lib Body

abbrev host_or_unknown : Option Bytes → Bytes
host_or_unknown none = codes "unknown"
host_or_unknown (some host) = host

module _ (lib : Http) (Body : Type 0) where
  reply_result : Bytes → Reply lib Body → Result (Upstream lib Body)
  reply_result host no_answer =
      err (
        io
          (record { kind = timed_out; message = codes "Request timed out connecting to " ++ host }))
  reply_result host (refused chain message) =
      if is_dns_error chain
      then err (dns_error (codes "Failed to resolve hostname: " ++ host))
      else err (hyper_util message)
  reply_result host (answered response) = ok response

  -- `client` is `client.request` under the timeout
  unfoldable pub fetch_with_timeout :
      (Sent lib → Reply lib Body) → Sent lib → Result (Upstream lib Body)
  unfolding reply_result
  fetch_with_timeout client req = reply_result (host_or_unknown req.uri_host) (client req)

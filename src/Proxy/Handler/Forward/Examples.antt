-- ===== src/Proxy/Handler/Forward/Examples.antt =====
-- An example of the theorem on requests that are passed through: a body of two frames.
use squiddish.Prelude.{◌+◌, ◌<◌, ◌≡◌, refl, sym, true, none, some, [], ◌∷◌, length, arith}
use squiddish.Text.{codes}
use squiddish.Cache.Files.{done}
use squiddish.Cache.Disk.Sizes.{u64_mod}
use squiddish.Cache.Disk.State.{add64}
use squiddish.Config.{Config, default}
use squiddish.Samples.Headers.{headers_lib}
use squiddish.Samples.Process.{platform_lib}
use squiddish.Samples.Bundle.{crates}
use squiddish.Proxy.Http.{Request}
use squiddish.Proxy.Policy.{forward_headers}
use squiddish.Proxy.Client.{Sent, Upstream, Reply, answered, collect_body, fetch_with_timeout}
use squiddish.Proxy.Client.Bodies.{body_bytes}
use squiddish.Proxy.Handler.Forward.{Frames, ForwardedResponse, handle_passthrough_request}
use squiddish.Proxy.Handler.Forward.Whole.{Forwards, handle_passthrough_request-Forwards}

abbrev config : Config platform_lib
config = default platform_lib

abbrev request : Request headers_lib
request = record {
  method = codes "POST";
  uri = codes "http://a/";
  has_scheme = true;
  uri_host = some (codes "a");
  authority = some (codes "a");
  headers = [];
}

abbrev body : Frames
body = done (some (codes "ab")) ∷ done (some (codes "cd")) ∷ []

abbrev upstream : Upstream headers_lib Frames
upstream = record { status = 201; headers = []; body = done (some (codes "ef")) ∷ done none ∷ [] }

abbrev client : Sent headers_lib → Reply headers_lib Frames
client sent = answered upstream

abbrev response : ForwardedResponse crates
response = record { status = 201; headers = forward_headers headers_lib []; body = codes "ef" }

bounded :
    (sent : Sent headers_lib) (r : Upstream headers_lib Frames)
    → client sent ≡ answered r
    → config.security.max_body_size + length (body_bytes r.body) < u64_mod
bounded sent r h = let same : upstream ≡ r = cc in rw (sym same) (omega arith)

handle_passthrough_request-Forwards_example : Forwards crates config client request body response
unfolding handle_passthrough_request collect_body fetch_with_timeout add64
handle_passthrough_request-Forwards_example =
    handle_passthrough_request-Forwards crates config client bounded request body response
      (omega arith) refl

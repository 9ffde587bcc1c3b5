-- ===== src/Proxy/Server/Examples.antt =====
-- Examples of the theorems on the server: a limit of two, one connection, and a tunnel that it opens.
use squiddish.Prelude.{◌<◌, ◌≡◌, ◌↔◌, refl, true, some, [], ◌∷◌}
use squiddish.Text.{Bytes, codes, strip_prefix, rsplit_once, parse_uint}
use squiddish.Config.{SecurityConfig, default_security}
use squiddish.Samples.Headers.{headers_lib}
use squiddish.Samples.Counter.{counter_lib}
use squiddish.Proxy.Http.{Request}
use squiddish.Proxy.Host.{parse_connect_uri}
use squiddish.Error.{ok}
use squiddish.Proxy.Policy.{has_via_loop}
use squiddish.Proxy.Handler.{validate_request}
use squiddish.Proxy.Tunnel.{Dialled, connected, handle_connect}
use squiddish.Proxy.Tunnel.Opening.{Decided, MayOpen, handle_connect-Decided}
use squiddish.Proxy.Server.{
  ProxyServer, serve, accepted, tunnel_asked, Reachable, starts, goes_on, accepts, opens_tunnel,
}
use squiddish.Proxy.Server.Limit.{Balanced, used, Reachable-Balanced, accepted_iff}

abbrev security : SecurityConfig
security = record default_security { max_connections = 2 }

abbrev connect_request : Request headers_lib
connect_request = record {
  method = codes "CONNECT";
  uri = codes "debian.org:443";
  has_scheme = true;
  uri_host = some (codes "debian.org");
  authority = some (codes "debian.org:443");
  headers = [];
}

abbrev dial : Bytes → Dialled
dial addr = connected

abbrev begun : ProxyServer headers_lib counter_lib security
begun = record { semaphore = 2; connections = []; tunnels = []; listening = true }

abbrev one : ProxyServer headers_lib counter_lib security
one = accepted headers_lib counter_lib security (some (codes "10.0.0.1")) begun

abbrev tunnelling : ProxyServer headers_lib counter_lib security
tunnelling = tunnel_asked headers_lib counter_lib security dial connect_request one

begun-lem : serve headers_lib counter_lib security ≡ some begun
unfolding serve
begun-lem = refl

one-connections : one.connections ≡ codes "10.0.0.1" ∷ []
unfolding accepted
one-connections = refl

valid : validate_request headers_lib security connect_request ≡ ok tt
unfolding validate_request has_via_loop
valid = refl

tunnelling-Reachable : Reachable headers_lib counter_lib security tunnelling
tunnelling-Reachable =
    goes_on (goes_on (starts begun-lem) (accepts (some (codes "10.0.0.1")) refl))
      (opens_tunnel dial connect_request [] [] (codes "10.0.0.1") one-connections valid refl)

tunnelling_lem : (tunnelling.connections ≡ codes "10.0.0.1" ∷ []) × (tunnelling.semaphore ≡ 0)
unfolding tunnel_asked accepted handle_connect parse_connect_uri strip_prefix rsplit_once parse_uint
tunnelling_lem = (refl, refl)

Reachable-Balanced_example : Balanced headers_lib counter_lib security tunnelling
Reachable-Balanced_example =
    Reachable-Balanced headers_lib counter_lib security tunnelling-Reachable

accepted_iff_example :
    ((accepted headers_lib counter_lib security (some (codes "10.0.0.2")) tunnelling).connections
      ≡ codes "10.0.0.2" ∷ tunnelling.connections)
    ↔ (used headers_lib counter_lib security tunnelling < 2)
accepted_iff_example =
    accepted_iff headers_lib counter_lib security tunnelling (codes "10.0.0.2") tunnelling-Reachable

handle_connect-Decided_example :
    Decided headers_lib counter_lib
      (MayOpen headers_lib counter_lib true dial 1 (parse_connect_uri connect_request.authority))
      1
      (handle_connect headers_lib counter_lib security dial connect_request 1)
handle_connect-Decided_example =
    handle_connect-Decided headers_lib counter_lib security dial connect_request 1

-- ===== src/Proxy/Handler/Examples.antt =====
-- Examples of the theorems on the validation of requests and on the escaping of texts.
use squiddish.Prelude.{◌≡◌, ◌↔◌, true, some, [], ◌∷◌}
use squiddish.Text.{codes}
use squiddish.Error.{ok}
use squiddish.Config.{SecurityConfig, default_security}
use squiddish.Samples.Headers.{headers_lib}
use squiddish.Proxy.Http.{Request}
use squiddish.Proxy.Handler.{validate_request, html_escape}
use squiddish.Proxy.Handler.Validation.{Passes, validate_request_iff}
use squiddish.Proxy.Handler.Escape.{escape_each, html_escape-escape_each}

abbrev security : SecurityConfig
security = record default_security {
  allowed_hosts = codes "debian.org" ∷ [];
  blocked_hosts = codes "old.debian.org" ∷ [];
}

abbrev request : Request headers_lib
request = record {
  method = codes "GET";
  uri = codes "http://deb.debian.org/";
  has_scheme = true;
  uri_host = some (codes "deb.debian.org");
  authority = some (codes "deb.debian.org");
  headers = (codes "host", codes "deb.debian.org") ∷ [];
}

validate_request_iff_example :
    (validate_request headers_lib security request ≡ ok tt) ↔ Passes headers_lib security request
validate_request_iff_example = validate_request_iff headers_lib security request

html_escape-escape_each_example :
    html_escape (codes "<a href='&'>") ≡ escape_each (codes "<a href='&'>")
html_escape-escape_each_example = html_escape-escape_each (codes "<a href='&'>")

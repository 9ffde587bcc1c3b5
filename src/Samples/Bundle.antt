-- ===== src/Samples/Bundle.antt =====
-- The crates of the other files together.
use squiddish.Prelude.{Bool, not, none, is_empty}
use squiddish.Text.{Bytes, codes}
use squiddish.Samples.Storage.{files_lib, digests_lib, json_lib}
use squiddish.Samples.Memory.{memory_lib}
use squiddish.Samples.Channels.{channels_lib}
use squiddish.Samples.Headers.{headers_lib}
use squiddish.Samples.Process.{platform_lib}
use squiddish.Proxy.Streaming.{closed}
use squiddish.Proxy.Shared.{Crates}

-- a builder that refuses empty names
abbrev pub named : Bytes → Bytes → Bool
named name value = not (is_empty name)

abbrev pub crates : Crates
crates = record {
  fs = files_lib;
  digests = digests_lib;
  json = json_lib;
  moka = memory_lib;
  channels = channels_lib;
  http = headers_lib;
  platform = platform_lib;
  parse_http_date = λ s. none;
  valid = named;
  refusal = codes "invalid HTTP header";
  poll_next = λ r. (closed, r);
}

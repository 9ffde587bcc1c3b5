-- ===== src/Proxy/Host.antt =====
-- src/proxy/handler.rs: hosts, their patterns, and the target of a CONNECT request.
pub mod Patterns
pub mod Targets
use squiddish.Prelude.{
  ℕ, zero, suc, ◌+◌, ◌-◌, Bool, true, false, ◌&&◌, ◌||◌, Option, none, some, List, [], ◌∷◌, ◌++◌,
  length, drop, get_elem?, ltb, ◌==◌, if◌then◌else◌,
}
use squiddish.Text.{
  Bytes, codes, eq_ignore_ascii_case, strip_prefix, split_once, rsplit_once, parse_uint,
}
use squiddish.Text.Decimal.{print_uint}
use squiddish.Error.{Result, ok, err, invalid_uri, ◌>>=◌}

-- `bytes().filter(|&b| b == c).count()`
pub count_byte : ℕ → Bytes → ℕ
count_byte c [] = 0
count_byte c (b ∷ s) = let n = count_byte c s in if b == c then suc n else n

abbrev left_or : Bytes → Option (Bytes × Bytes) → Bytes
left_or d none = d
left_or d (some (a, b)) = a

abbrev strip_plain_port : Bytes → Bytes
strip_plain_port host =
    if ltb 1 (count_byte b':' host) then host else left_or host (rsplit_once b':' host)

strip_port_of : Bytes → Option Bytes → Bytes
strip_port_of host (some rest) = left_or rest (split_once b']' rest)
strip_port_of host none = strip_plain_port host

pub strip_host_port : Bytes → Bytes
unfolding strip_port_of
strip_host_port host = strip_port_of host (strip_prefix (codes "[") host)

abbrev is_dot : Option ℕ → Bool
is_dot none = false
is_dot (some b) = b == b'.'

-- `host.as_bytes()[i] == b'.'`; the test before it keeps `i` in range
abbrev is_dot_at : Bytes → ℕ → Bool
is_dot_at host i = is_dot (get_elem? host i)

abbrev pub stripped_matches : Bytes → Bytes → Bool
stripped_matches host pattern =
    eq_ignore_ascii_case host pattern
    || (ltb (length pattern) (length host)
        && eq_ignore_ascii_case (drop (length host - length pattern) host) pattern
        && is_dot_at host (length host - length pattern - 1))

pub host_matches : Bytes → Bytes → Bool
host_matches host pattern = stripped_matches (strip_host_port host) pattern

-- `u16::MAX`
abbrev pub u16_max : ℕ
u16_max = 65535

abbrev pub or_invalid {ℓ} : {A : Type ℓ} → Option A → Bytes → Result A
or_invalid none e = err (invalid_uri e)
or_invalid (some a) e = ok a

parse_port : Bytes → Result ℕ
parse_port s = or_invalid (parse_uint u16_max s) (codes "Invalid port")

-- the port behind `]`
bracket_port : Option Bytes → Result ℕ
bracket_port (some port_str) = parse_port port_str
bracket_port none = ok 443

parse_bracketed : Option (Bytes × Bytes) → Result (Bytes × ℕ)
unfolding bracket_port
parse_bracketed none = err (invalid_uri (codes "Malformed IPv6 address"))
parse_bracketed (some (ipv6, after_bracket)) = do
  port ← bracket_port (strip_prefix (codes ":") after_bracket)
  ok (codes "[" ++ ipv6 ++ codes "]", port)

parse_plain : Bytes → Option (Bytes × Bytes) → Result (Bytes × ℕ)
unfolding parse_port
parse_plain host_port none = ok (host_port, 443)
parse_plain host_port (some (host, port_str)) = do port ← parse_port port_str; ok (host, port)

parse_host_port : Bytes → Option Bytes → Result (Bytes × ℕ)
parse_host_port host_port (some rest) = parse_bracketed (split_once b']' rest)
parse_host_port host_port none = parse_plain host_port (rsplit_once b':' host_port)

-- the argument is `uri.authority()`
unfoldable pub parse_connect_uri : Option Bytes → Result (Bytes × ℕ)
unfolding parse_host_port parse_plain parse_bracketed
parse_connect_uri authority = do
  host_port ← or_invalid authority (codes "Missing authority in CONNECT")
  parse_host_port host_port (strip_prefix (codes "[") host_port)

-- `format!("{}:{}", host, port)`
pub target_addr : Bytes → ℕ → Bytes
target_addr host port = host ++ codes ":" ++ print_uint port

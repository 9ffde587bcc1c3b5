-- ===== src/Config.antt =====
-- src/config.rs: the configuration, and how it is read from variables of the environment.
pub mod Quantity
pub mod Valid
mod Examples
use squiddish.Prelude.{
  ℕ, ◌*◌, ◌≡◌, Bool, true, Option, none, some, List, [], ◌∷◌, ◌++◌, ◌==◌, is_empty, leb,
  if◌then◌else◌,
}
use squiddish.Text.{Bytes, codes, trim, split}
use squiddish.Cache.Files.{Attempt, done, failed}
use Quantity.{Floats, parse_size, parse_duration}

-- The parsers of Rust's standard library for types other than the unsigned numbers, the address
-- that they read from the text "127.0.0.1:3128", and the size of the address space.
pub record Platform : Type 1 where
  pub SocketAddr : Type 0
  pub floats : Floats
  pub parse_addr : Bytes → Attempt Bytes SocketAddr
  pub parse_bool : Bytes → Attempt Bytes Bool
  pub parse_usize : Bytes → Attempt Bytes ℕ
  pub usize_max : ℕ
  pub default_addr : SocketAddr
  pub parse-default_addr : parse_addr (codes "127.0.0.1:3128") ≡ done default_addr

pub record CacheConfig : Type 0 where
  pub memory_size : ℕ
  pub disk_size : ℕ
  pub cache_dir : Bytes
  pub ttl_seconds : ℕ

pub record AptConfig : Type 0 where
  pub enabled : Bool
  pub list_ttl_seconds : ℕ
  pub package_ttl_seconds : ℕ
  pub other_ttl_seconds : ℕ

pub record SecurityConfig : Type 0 where
  pub max_body_size : ℕ
  pub max_connections : ℕ
  pub timeout_seconds : ℕ
  pub strict_https : Bool
  pub allowed_hosts : List Bytes
  pub blocked_hosts : List Bytes

pub record Config (platform : Platform) : Type 0 where
  pub bind_addr : platform.SocketAddr
  pub cache : CacheConfig
  pub apt : AptConfig
  pub security : SecurityConfig

-- the four `Default::default`
abbrev pub default_cache : CacheConfig
default_cache = record {
  memory_size = 1024 * 1024 * 1024;
  disk_size = 100 * 1024 * 1024 * 1024;
  cache_dir = codes "./cache";
  ttl_seconds = 7 * 24 * 60 * 60;
}

abbrev pub default_apt : AptConfig
default_apt = record {
  enabled = true;
  list_ttl_seconds = 60 * 60;
  package_ttl_seconds = 30 * 24 * 60 * 60;
  other_ttl_seconds = 24 * 60 * 60;
}

abbrev pub default_security : SecurityConfig
default_security = record {
  max_body_size = 10 * 1024 * 1024 * 1024;
  max_connections = 1000;
  timeout_seconds = 300;
  strict_https = true;
  allowed_hosts = [];
  blocked_hosts = [];
}

abbrev pub default : (platform : Platform) → Config platform
default platform = record {
  bind_addr = platform.default_addr;
  cache = default_cache;
  apt = default_apt;
  security = default_security;
}

infixl 5 ◌>>=◌
abbrev pub ◌>>=◌ : {T U : Type 0} → Attempt Bytes T → (T → Attempt Bytes U) → Attempt Bytes U
failed fault >>= next = failed fault
done x >>= next = next x

-- `if let Some(value) = get_var(name) { field = read(value)?; }`
abbrev pub set : {T : Type 0} → T → (Bytes → Attempt Bytes T) → Option Bytes → Attempt Bytes T
set old read none = done old
set old read (some value) = read value

-- `format!("Invalid {} '{}': {}", name, value, reason)`
invalid : Bytes → Bytes → Bytes → Bytes
invalid name value reason = codes "Invalid " ++ name ++ codes " '" ++ value ++ codes "': " ++ reason

or_failed : {T : Type 0} → Bytes → Option T → Attempt Bytes T
or_failed e none = failed e
or_failed e (some x) = done x

or_invalid : {T : Type 0} → Bytes → Bytes → Attempt Bytes T → Attempt Bytes T
or_invalid name value (failed e) = failed (invalid name value e)
or_invalid name value (done x) = done x

pub read_duration : Bytes → Bytes → Attempt Bytes ℕ
unfolding or_failed
read_duration name value =
    or_failed (invalid name value (codes "expected number with optional unit (s, m, h, d)"))
      (parse_duration value)

nonempty : List Bytes → List Bytes
nonempty [] = []
nonempty (s ∷ hosts) = if is_empty (trim s) then nonempty hosts else trim s ∷ nonempty hosts

pub read_hosts : Bytes → Attempt Bytes (List Bytes)
read_hosts value = done (nonempty (split b',' value))

module _ (platform : Platform) where
  open platform use {floats, parse_addr, parse_bool, parse_usize, usize_max}

  pub read_size : Bytes → Bytes → Attempt Bytes ℕ
  unfolding or_failed
  read_size name value =
      or_failed (invalid name value (codes "expected number with optional unit (KB, MB, GB, TB)"))
        (parse_size floats value)

  -- `usize::try_from`
  fits_usize : Bytes → ℕ → Attempt Bytes ℕ
  fits_usize value bytes =
      if leb bytes usize_max
      then done bytes
      else failed
          (codes "SQUIDDISH_MEMORY_SIZE '" ++ value ++ codes "' exceeds platform address space")

  pub read_memory_size : Bytes → Attempt Bytes ℕ
  read_memory_size value =
      read_size (codes "SQUIDDISH_MEMORY_SIZE") value >>= λ bytes. fits_usize value bytes

  pub read_addr : Bytes → Attempt Bytes platform.SocketAddr
  read_addr addr = or_invalid (codes "SQUIDDISH_BIND_ADDR") addr (parse_addr addr)

  pub read_bool : Bytes → Bytes → Attempt Bytes Bool
  read_bool name value = or_invalid name value (parse_bool value)

  pub read_connections : Bytes → Attempt Bytes ℕ
  read_connections conns = or_invalid (codes "SQUIDDISH_MAX_CONNECTIONS") conns (parse_usize conns)

  -- the checks at the end
  pub checked : Config platform → Attempt Bytes (Config platform)
  checked config =
      if config.cache.memory_size == 0
      then failed (codes "SQUIDDISH_MEMORY_SIZE must be greater than 0")
      else if config.cache.disk_size == 0
      then failed (codes "SQUIDDISH_DISK_SIZE must be greater than 0")
      else if config.security.max_body_size == 0
      then failed (codes "SQUIDDISH_MAX_BODY_SIZE must be greater than 0")
      else if config.security.max_connections == 0
      then failed (codes "SQUIDDISH_MAX_CONNECTIONS must be greater than 0")
      else if config.security.timeout_seconds == 0
      then failed (codes "SQUIDDISH_TIMEOUT must be greater than 0")
      else done config

  module _ (get_var : Bytes → Option Bytes) where
    -- the sections of `from_vars`
    read_cache : Attempt Bytes CacheConfig
    read_cache = do
      memory_size ←
          set default_cache.memory_size read_memory_size (get_var (codes "SQUIDDISH_MEMORY_SIZE"))
      disk_size ←
          set default_cache.disk_size (read_size (codes "SQUIDDISH_DISK_SIZE"))
            (get_var (codes "SQUIDDISH_DISK_SIZE"))
      cache_dir ←
          set default_cache.cache_dir (λ dir. done dir) (get_var (codes "SQUIDDISH_CACHE_DIR"))
      ttl_seconds ←
          set default_cache.ttl_seconds (read_duration (codes "SQUIDDISH_TTL"))
            (get_var (codes "SQUIDDISH_TTL"))
      done (record {
        memory_size = memory_size;
        disk_size = disk_size;
        cache_dir = cache_dir;
        ttl_seconds = ttl_seconds;
      })

    read_apt : Attempt Bytes AptConfig
    read_apt = do
      enabled ←
          set default_apt.enabled (read_bool (codes "SQUIDDISH_APT_ENABLED"))
            (get_var (codes "SQUIDDISH_APT_ENABLED"))
      list_ttl ←
          set default_apt.list_ttl_seconds (read_duration (codes "SQUIDDISH_APT_LIST_TTL"))
            (get_var (codes "SQUIDDISH_APT_LIST_TTL"))
      package_ttl ←
          set default_apt.package_ttl_seconds (read_duration (codes "SQUIDDISH_APT_PACKAGE_TTL"))
            (get_var (codes "SQUIDDISH_APT_PACKAGE_TTL"))
      other_ttl ←
          set default_apt.other_ttl_seconds (read_duration (codes "SQUIDDISH_APT_OTHER_TTL"))
            (get_var (codes "SQUIDDISH_APT_OTHER_TTL"))
      done (record {
        enabled = enabled;
        list_ttl_seconds = list_ttl;
        package_ttl_seconds = package_ttl;
        other_ttl_seconds = other_ttl;
      })

    read_security : Attempt Bytes SecurityConfig
    read_security = do
      max_body_size ←
          set default_security.max_body_size (read_size (codes "SQUIDDISH_MAX_BODY_SIZE"))
            (get_var (codes "SQUIDDISH_MAX_BODY_SIZE"))
      max_connections ←
          set default_security.max_connections read_connections
            (get_var (codes "SQUIDDISH_MAX_CONNECTIONS"))
      timeout_seconds ←
          set default_security.timeout_seconds (read_duration (codes "SQUIDDISH_TIMEOUT"))
            (get_var (codes "SQUIDDISH_TIMEOUT"))
      strict_https ←
          set default_security.strict_https (read_bool (codes "SQUIDDISH_STRICT_HTTPS"))
            (get_var (codes "SQUIDDISH_STRICT_HTTPS"))
      allowed_hosts ←
          set default_security.allowed_hosts read_hosts (get_var (codes "SQUIDDISH_ALLOWED_HOSTS"))
      blocked_hosts ←
          set default_security.blocked_hosts read_hosts (get_var (codes "SQUIDDISH_BLOCKED_HOSTS"))
      done (record {
        max_body_size = max_body_size;
        max_connections = max_connections;
        timeout_seconds = timeout_seconds;
        strict_https = strict_https;
        allowed_hosts = allowed_hosts;
        blocked_hosts = blocked_hosts;
      })

    pub from_vars : Attempt Bytes (Config platform)
    unfolding read_cache read_apt read_security checked read_size
    from_vars = do
      bind_addr ← set (default platform).bind_addr read_addr (get_var (codes "SQUIDDISH_BIND_ADDR"))
      cache ← read_cache
      apt ← read_apt
      security ← read_security
      checked (record { bind_addr = bind_addr; cache = cache; apt = apt; security = security })

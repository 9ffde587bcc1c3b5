-- ===== src/Proxy/Responses.antt =====
-- src/proxy/handler.rs: the response for an entry of the cache.
pub mod Cached
pub mod Streamed
pub mod ErrorPage
mod Examples
use squiddish.Prelude.{
  ℕ, ◌-◌, Bool, true, false, Option, none, some, List, [], ◌∷◌, ◌++◌, leb, if◌then◌else◌,
}
use squiddish.Text.{Bytes, codes}
use squiddish.Text.Decimal.{print_uint}
use squiddish.Cache.{CacheEntry, as_secs}
use squiddish.Proxy.Http.{Http}
use squiddish.Proxy.Policy.{pseudonym}

pub record Response : Type 0 where
  pub status : ℕ
  pub headers : List (Bytes × Bytes)
  pub body : Bytes

-- `valid` tells the names and values that `http::response::Builder::header` takes. Once it has been
-- given others, `body` fails: that builder is `none`.
module _ (lib : Http) (valid : Bytes → Bytes → Bool) where
  pub status_or_ok : Option ℕ → ℕ
  status_or_ok none = 200
  status_or_ok (some status) = status

  pub header : Bytes → Bytes → Option (List (Bytes × Bytes)) → Option (List (Bytes × Bytes))
  header name value none = none
  header name value (some hs) = if valid name value then some (hs ++ (name, value) ∷ []) else none

  pub add_headers :
      List (Bytes × Bytes) → Option (List (Bytes × Bytes)) → Option (List (Bytes × Bytes))
  unfolding header
  add_headers [] builder = builder
  add_headers ((name, value) ∷ rest) builder = add_headers rest (header name value builder)

  built : ℕ → Bytes → Option (List (Bytes × Bytes)) → Response
  built status body (some hs) = record { status = status; headers = hs; body = body }
  built status body none = record { status = 200; headers = []; body = [] }

  -- `now` is the time that `elapsed` reads; without it, as the clock stands behind, there is no age
  add_ttl : ℕ → CacheEntry → Option (List (Bytes × Bytes)) → Option (List (Bytes × Bytes))
  unfolding header
  add_ttl now entry builder =
      if leb entry.timestamp now
      then header (codes "x-cache-ttl")
          (print_uint (entry.ttl_seconds - as_secs (now - entry.timestamp))) builder
      else builder

  pub build_response_from_cache : ℕ → CacheEntry → Response
  unfolding status_or_ok add_headers built add_ttl
  build_response_from_cache now entry =
      built (status_or_ok (lib.from_u16 entry.status)) entry.content (
        add_ttl now entry (
          header (codes "via") pseudonym
            (header (codes "x-cache") (codes "HIT") (add_headers entry.headers (some [])))))

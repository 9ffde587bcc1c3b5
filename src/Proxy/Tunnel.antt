-- ===== src/Proxy/Tunnel.antt =====
-- `handle_connect` of src/proxy/handler.rs, and the semaphore of tokio as an interface.
pub mod Opening
use squiddish.Prelude.{
  ℕ, suc, ◌+◌, ◌≤◌, ◌<◌, ◌≡◌, Bool, not, ◌&&◌, Option, none, some, [], ◌++◌, ◌==◌, if◌then◌else◌,
}
use squiddish.Text.{Bytes, codes}
use squiddish.Text.Decimal.{print_uint}
use squiddish.Error.{Result, ok, err, panicked, tunnel}
use squiddish.Config.{SecurityConfig}
use squiddish.Proxy.Host.{parse_connect_uri, target_addr}
use squiddish.Proxy.Http.{Http, Request}
use squiddish.Proxy.Responses.{Response}

-- `tokio::sync::Semaphore`: `new` panics above `max_permits`, `try_acquire` takes a permit where
-- one is available, and the drop of a permit is `release`.
pub record Permits : Type 1 where
  pub Semaphore : Type 0
  pub max_permits : ℕ
  pub new : ℕ → Option Semaphore
  pub try_acquire : Semaphore → Option Semaphore
  pub release : Semaphore → Semaphore
  pub available : Semaphore → ℕ
  pub new-le : (n : ℕ) → n ≤ max_permits → (s : Semaphore) × (new n ≡ some s) × (available s ≡ n)
  pub new-lt : (n : ℕ) → max_permits < n → new n ≡ none
  pub try_acquire-none : (s : Semaphore) → available s ≡ 0 → try_acquire s ≡ none
  pub try_acquire-some :
      (s : Semaphore)
      → 0 < available s
      → (t : Semaphore) × (try_acquire s ≡ some t) × (suc (available t) ≡ available s)
  pub available-release : (s : Semaphore) → available (release s) ≡ suc (available s)

-- what `TcpStream::connect` gives within the timeout
pub data Dialled : Type 0 where
  connected timed_out : Dialled
  refused : Bytes → Dialled

-- the response 200 without a body, behind which the tunnel begins
abbrev pub established : Response
established = record { status = 200; headers = []; body = [] }

module _ (lib : Http) (permits : Permits) where
  open permits use {Semaphore, try_acquire}

  -- Behind `ok` the task of the tunnel holds the permit that was taken.
  permitted : Semaphore → Option Semaphore → Result Response × Semaphore
  permitted s none = (err (tunnel (codes "Max connections reached")), s)
  permitted s (some t) = (ok established, t)

  dialled : Bytes → Semaphore → Dialled → Result Response × Semaphore
  unfolding permitted
  dialled addr s timed_out =
      (err (tunnel (codes "Connection to " ++ addr ++ codes " timed out")), s)
  dialled addr s (refused e) =
      (err (tunnel (codes "Failed to connect to " ++ addr ++ codes ": " ++ e)), s)
  dialled addr s connected = permitted s (try_acquire s)

  targeted : Bool → (Bytes → Dialled) → Semaphore → Result (Bytes × ℕ) → Result Response × Semaphore
  unfolding dialled
  targeted strict_https dial s (ok (host, port)) =
      if strict_https && not (port == 443)
      then (err (tunnel (codes "Only port 443 allowed for CONNECT, got " ++ print_uint port)), s)
      else dialled (target_addr host port) s (dial (target_addr host port))
  targeted strict_https dial s (err e) = (err e, s)
  targeted strict_https dial s panicked = (panicked, s)

  -- `dial` connects to an address.
  unfoldable pub handle_connect :
      SecurityConfig → (Bytes → Dialled) → Request lib → Semaphore → Result Response × Semaphore
  unfolding targeted
  handle_connect security dial req s =
      targeted security.strict_https dial s (parse_connect_uri req.authority)

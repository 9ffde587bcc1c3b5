-- ===== src/Proxy/Server.antt =====
-- src/proxy/mod.rs: the server's connections, with the tunnels that the handler opens, as a system of
-- steps. Each has a permit of one semaphore for as long as it lives.
pub mod Limit
mod Examples
use squiddish.Prelude.{ℕ, ◌≡◌, Bool, true, false, Option, none, some, List, [], ◌∷◌, ◌++◌}
use squiddish.Text.{Bytes, codes}
use squiddish.Error.{Result, ok, err, panicked}
use squiddish.Config.{SecurityConfig}
use squiddish.Proxy.Http.{Http, Request}
use squiddish.Proxy.Responses.{Response}
use squiddish.Proxy.Handler.{validate_request}
use squiddish.Proxy.Tunnel.{Permits, Dialled, handle_connect}

module _ (lib : Http) (permits : Permits) (security : SecurityConfig) where
  open permits use {Semaphore, try_acquire, release}

  -- A connection is named by the address of its peer, a tunnel by the request that asked for it.
  pub record ProxyServer : Type 0 where
    pub semaphore : Semaphore
    pub connections : List Bytes
    pub tunnels : List (Request lib)
    pub listening : Bool

  serving : Option Semaphore → Option ProxyServer
  serving none = none
  serving (some s) =
      some (record { semaphore = s; connections = []; tunnels = []; listening = true })

  -- `none` for a panic of `Semaphore::new`
  pub serve : Option ProxyServer
  unfolding serving
  serve = serving (permits.new security.max_connections)

  admitted : Bytes → ProxyServer → Option Semaphore → ProxyServer
  admitted peer_addr this none = this
  admitted peer_addr this (some s) = record this {
    semaphore = s;
    connections = peer_addr ∷ this.connections;
  }

  -- what `listener.accept` gives: an error is only logged
  pub accepted : Option Bytes → ProxyServer → ProxyServer
  unfolding admitted
  accepted none this = this
  accepted (some peer_addr) this = admitted peer_addr this (try_acquire this.semaphore)

  -- the end of the task of one of the connections, or of a tunnel
  pub connection_ended : List Bytes → List Bytes → ProxyServer → ProxyServer
  connection_ended before behind this = record this {
    semaphore = release this.semaphore;
    connections = before ++ behind;
  }

  pub tunnel_ended : List (Request lib) → List (Request lib) → ProxyServer → ProxyServer
  tunnel_ended before behind this = record this {
    semaphore = release this.semaphore;
    tunnels = before ++ behind;
  }

  tunnelled : Request lib → ProxyServer → Result Response × Semaphore → ProxyServer
  tunnelled req this (ok response, s) = record this { semaphore = s; tunnels = req ∷ this.tunnels }
  tunnelled req this (err e, s) = record this { semaphore = s }
  tunnelled req this (panicked, s) = record this { semaphore = s }

  -- a CONNECT request of some connection
  pub tunnel_asked : (Bytes → Dialled) → Request lib → ProxyServer → ProxyServer
  unfolding tunnelled
  tunnel_asked dial req this =
      tunnelled req this (handle_connect lib permits security dial req this.semaphore)

  pub data Step : ProxyServer → ProxyServer → Type 0 where
    accepts :
        {this : ProxyServer} (result : Option Bytes)
        → this.listening ≡ true
        → Step this (accepted result this)
    ends_connection :
        {this : ProxyServer} (before behind : List Bytes) (peer_addr : Bytes)
        → this.connections ≡ before ++ peer_addr ∷ behind
        → Step this (connection_ended before behind this)
    opens_tunnel :
        {this : ProxyServer} (dial : Bytes → Dialled) (req : Request lib)
        (before behind : List Bytes) (peer_addr : Bytes)
        → this.connections ≡ before ++ peer_addr ∷ behind
        → validate_request lib security req ≡ ok tt
        → req.method ≡ codes "CONNECT"
        → Step this (tunnel_asked dial req this)
    ends_tunnel :
        {this : ProxyServer} (before behind : List (Request lib)) (req : Request lib)
        → this.tunnels ≡ before ++ req ∷ behind
        → Step this (tunnel_ended before behind this)
    shuts_down : {this : ProxyServer} → Step this (record this { listening = false })

  -- the states that the server comes to
  pub data Reachable : ProxyServer → Type 0 where
    starts : {this : ProxyServer} → serve ≡ some this → Reachable this
    goes_on : {this next : ProxyServer} → Reachable this → Step this next → Reachable next

-- ===== src/Proxy/Server/Limit.antt =====
-- The limit on connections holds for connections and tunnels together, and no permit is lost.
use squiddish.Prelude.{
  ℕ, suc, ◌+◌, ◌≤◌, ◌<◌, ◌≡◌, ◌↔◌, refl, sym, ap, true, Option, none, some, List, [], ◌∷◌, ◌++◌,
  length, length-append, arith, ◌⊎◌, inl, inr, leb, leb→le, leb-false→lt, Bool-cases,
}
use squiddish.Text.{Bytes}
use squiddish.Error.{Result, ok, err, panicked}
use squiddish.Config.{SecurityConfig}
use squiddish.Proxy.Http.{Http, Request}
use squiddish.Proxy.Responses.{Response}
use squiddish.Proxy.Tunnel.{Permits, established, handle_connect}
use squiddish.Proxy.Tunnel.Opening.{Decided, handle_connect-Decided, zero_or_pos}
use squiddish.Proxy.Server.{
  ProxyServer, serving, serve, admitted, accepted, connection_ended, tunnel_ended, tunnelled,
  tunnel_asked, Step, accepts, ends_connection, opens_tunnel, ends_tunnel, shuts_down, Reachable,
  starts, goes_on,
}

split : (m n : ℕ) → (n ≤ m) ⊎ (m < n)
split m n = elim (Bool-cases (leb n m)) [
  | inl h ↦ inl (leb→le n m h)
  | inr h ↦ inr (leb-false→lt n m h)
]

module _ (lib : Http) (permits : Permits) (security : SecurityConfig) where
  open permits use {Semaphore, try_acquire, available}

  abbrev Server : Type 0
  Server = ProxyServer lib permits security

  -- the permits in use
  abbrev pub used : Server → ℕ
  used this = length this.connections + length this.tunnels

  -- A permit is available or belongs to a connection or a tunnel.
  abbrev pub Balanced : Server → Type 0
  Balanced this = available this.semaphore + used this ≡ security.max_connections

  length-removed :
      {A : Type 0} (xs : List A) (x : A) (ys before : List A)
      → xs ≡ before ++ x ∷ ys
      → length xs ≡ suc (length (before ++ ys))
  length-removed xs x ys before e =
      rw e (omega (arith, length-append before (x ∷ ys), length-append before ys))

  serving-Balanced :
      (o : Option Semaphore) (this : Server)
      → ((s : Semaphore) → o ≡ some s → available s ≡ security.max_connections)
      → serving lib permits security o ≡ some this
      → Balanced this
  unfolding serving
  serving-Balanced none this exact h = cc
  serving-Balanced (some s) this exact h =
      let begun : ProxyServer lib permits security = record {
        semaphore = s;
        connections = [];
        tunnels = [];
        listening = true;
      } in
      let same : begun ≡ this = cc in rw (sym same) (omega (arith, exact s refl))

  admitted-Balanced :
      (peer_addr : Bytes) (this : Server)
      → Balanced this
      → Balanced (admitted lib permits security peer_addr this (try_acquire this.semaphore))
  unfolding admitted
  admitted-Balanced peer_addr this b = elim (zero_or_pos (available this.semaphore)) [
    | inl e ↦ rw (permits.try_acquire-none this.semaphore e) b
    | inr h ↦
        let (t, taken, fewer) = permits.try_acquire-some this.semaphore h in
        rw taken (omega (arith, b, fewer))
  ]

  unanswered :
      {Opens : Type 0} (req : Request lib) (this : Server) (r : Result Response) (s : Semaphore)
      → Decided lib permits Opens this.semaphore (r, s)
      → Balanced this
      → ((response : Response) → r ≡ ok response → ⊥)
      → Balanced (record this { semaphore = s })
  unanswered req this r s d b never = elim d.outcome [
    | inl (o, e, fewer) ↦ absurd (never established e)
    | inr (n, h, same) ↦ rw same b
  ]

  tunnelled-Balanced :
      {Opens : Type 0} (req : Request lib) (this : Server) (r : Result Response × Semaphore)
      → Decided lib permits Opens this.semaphore r
      → Balanced this
      → Balanced (tunnelled lib permits security req this r)
  unfolding tunnelled
  tunnelled-Balanced req this (ok response, s) d b = elim d.outcome [
    | inl (o, e, fewer) ↦ omega (arith, b, fewer)
    | inr (n, never, same) ↦ absurd (never response refl)
  ]
  tunnelled-Balanced req this (err e, s) d b = unanswered req this (err e) s d b (λ response h. cc)
  tunnelled-Balanced req this (panicked, s) d b =
      unanswered req this panicked s d b (λ response h. cc)

  Step-Balanced :
      {this next : Server} → Step lib permits security this next → Balanced this → Balanced next
  unfolding accepted connection_ended tunnel_ended tunnel_asked
  Step-Balanced {this} (accepts none listens) b = b
  Step-Balanced {this} (accepts (some peer_addr) listens) b = admitted-Balanced peer_addr this b
  Step-Balanced {this} (ends_connection before behind peer_addr e) b = omega (
    arith,
    b,
    permits.available-release this.semaphore,
    length-removed this.connections peer_addr behind before e,
  )
  Step-Balanced {this} (ends_tunnel before behind req e) b = omega (
    arith,
    b,
    permits.available-release this.semaphore,
    length-removed this.tunnels req behind before e,
  )
  Step-Balanced {this} (opens_tunnel dial req before behind peer_addr e valid method) b =
      tunnelled-Balanced req this (handle_connect lib permits security dial req this.semaphore)
        (handle_connect-Decided lib permits security dial req this.semaphore) b
  Step-Balanced {this} shuts_down b = b

  new-available :
      (s : Semaphore)
      → permits.new security.max_connections ≡ some s
      → available s ≡ security.max_connections
  new-available s h = elim (split (permits.max_permits) security.max_connections) [
    | inl small ↦
        let (t, made, exact) = permits.new-le security.max_connections small in
        let same : t ≡ s = cc in rw (sym same) exact
    | inr large ↦ let none_made = permits.new-lt security.max_connections large in absurd cc
  ]

  -- In every state that the server comes to, the permits that are left, the connections and the
  -- tunnels together are as many as the configured limit. So connections and tunnels never pass
  -- it, and no permit is lost.
  pub Reachable-Balanced : {this : Server} → Reachable lib permits security this → Balanced this
  unfolding serve
  Reachable-Balanced (starts h) =
      serving-Balanced (permits.new security.max_connections) _ new-available h
  Reachable-Balanced (goes_on before s) = Step-Balanced s (Reachable-Balanced before)

  not_longer : {A : Type 0} (x : A) (xs : List A) → xs ≡ x ∷ xs → ⊥
  not_longer x xs e = omega (arith, ap length e)

  admitted_iff :
      (peer_addr : Bytes) (this : Server)
      → ((admitted lib permits security peer_addr this (try_acquire this.semaphore)).connections
          ≡ peer_addr ∷ this.connections)
        ↔ (0 < available this.semaphore)
  unfolding admitted
  admitted_iff peer_addr this = elim (zero_or_pos (available this.semaphore)) [
    | inl e ↦
        rw (permits.try_acquire-none this.semaphore e)
          (λ h. absurd (not_longer peer_addr this.connections h), λ h. absurd (omega (arith, e)))
    | inr h ↦
        let (t, taken, fewer) = permits.try_acquire-some this.semaphore h in
        rw taken (λ e. h, λ e. refl)
  ]

  -- In every state that the server comes to, a connection that it accepts is served just if fewer
  -- connections and tunnels are under way than the limit.
  pub accepted_iff :
      (this : Server) (peer_addr : Bytes)
      → Reachable lib permits security this
      → ((accepted lib permits security (some peer_addr) this).connections
          ≡ peer_addr ∷ this.connections)
        ↔ (used this < security.max_connections)
  unfolding accepted
  accepted_iff this peer_addr reached =
      let b = Reachable-Balanced reached in
      let (f, g) = admitted_iff peer_addr this in
      (λ h. omega (arith, b, f h), λ h. g (omega (arith, b)))

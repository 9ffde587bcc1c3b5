-- ===== src/Proxy/Tunnel/Opening.antt =====
-- When a tunnel is opened, and that a permit is taken just then.
use squiddish.Prelude.{
  ℕ, zero, suc, ◌<◌, ◌≡◌, refl, ap, Bool, false, not, ◌&&◌, ◌==◌, ◌⊎◌, inl, inr, Bool-cases, arith,
}
use squiddish.Text.{Bytes}
use squiddish.Error.{Result, ok, err, panicked}
use squiddish.Config.{SecurityConfig}
use squiddish.Proxy.Host.{parse_connect_uri, target_addr}
use squiddish.Proxy.Http.{Http, Request}
use squiddish.Proxy.Responses.{Response}
use squiddish.Proxy.Tunnel.{
  Permits, Dialled, connected, timed_out, refused, established, permitted, dialled, targeted,
  handle_connect,
}

pub zero_or_pos : (n : ℕ) → (n ≡ 0) ⊎ (0 < n)
zero_or_pos zero = inl refl
zero_or_pos (suc n) = inr (omega arith)

module _ (lib : Http) (permits : Permits) where
  open permits use {Semaphore, try_acquire, available}

  -- A tunnel was opened, with a permit, or there is no response and the permits are as before.
  pub record Decided (Opens : Type 0) (s : Semaphore) (r : Result Response × Semaphore)
      : Type 0 where
    pub outcome :
        (Opens × (r.0 ≡ ok established) × (suc (available r.1) ≡ available s))
        ⊎ ((Opens → ⊥) × ((response : Response) → r.0 ≡ ok response → ⊥) × (r.1 ≡ s))

  permitted-Decided :
      (s : Semaphore) → Decided (0 < available s) s (permitted lib permits s (try_acquire s))
  unfolding permitted
  permitted-Decided s = elim (zero_or_pos (available s)) [
    | inl e ↦
        rw (permits.try_acquire-none s e)
          (record { outcome = inr (λ h. omega (arith, e), λ response h. cc, refl) })
    | inr h ↦
        let (t, taken, fewer) = permits.try_acquire-some s h in
        rw taken (record { outcome = inl (h, refl, fewer) })
  ]

  -- the same for a condition that comes to the same
  equivalent :
      {P Q : Type 0} {s : Semaphore} {r : Result Response × Semaphore}
      → Decided P s r
      → (P → Q)
      → (Q → P)
      → Decided Q s r
  equivalent d f g = elim d.outcome [
    | inl (p, a, b) ↦ record { outcome = inl (f p, a, b) }
    | inr (n, a, b) ↦ record { outcome = inr (λ q. n (g q), a, b) }
  ]

  fails :
      {P : Type 0} (s : Semaphore) (r : Result Response)
      → (P → ⊥)
      → ((response : Response) → r ≡ ok response → ⊥)
      → Decided P s (r, s)
  fails s r n other = record { outcome = inr (n, other, refl) }

  dialled-Decided :
      (addr : Bytes) (s : Semaphore) (d : Dialled)
      → Decided ((d ≡ connected) × (0 < available s)) s (dialled lib permits addr s d)
  unfolding dialled
  dialled-Decided addr s timed_out = fails s _ (λ (e, h). cc) (λ response h. cc)
  dialled-Decided addr s (refused e) = fails s _ (λ (e, h). cc) (λ response h. cc)
  dialled-Decided addr s connected = equivalent (permitted-Decided s) (λ h. (refl, h)) (λ (e, h). h)

  -- The conditions for a tunnel: the target can be read, its port is 443 where that is asked for, it
  -- can be reached, and a permit is left.
  pub record MayOpen (strict_https : Bool) (dial : Bytes → Dialled) (s : Semaphore)
      (target : Result (Bytes × ℕ)) : Type 0 where
    pub host : Bytes
    pub port : ℕ
    pub read : target ≡ ok (host, port)
    pub secure : (strict_https && not (port == 443)) ≡ false
    pub reached : dial (target_addr host port) ≡ connected
    pub left : 0 < available s

  of_target :
      (strict_https : Bool) (dial : Bytes → Dialled) (s : Semaphore) (host : Bytes) (port : ℕ)
      → MayOpen strict_https dial s (ok (host, port))
      → ((strict_https && not (port == 443)) ≡ false)
        × (dial (target_addr host port) ≡ connected)
        × (0 < available s)
  of_target strict_https dial s host port m =
      let h = m.read in
      let target : Path (Bytes × ℕ) (host, port) (m.host, m.port) = cc in
      rw (ap (λ t. t.0) target, ap (λ t. t.1) target) (m.secure, m.reached, m.left)

  targeted-Decided :
      (strict_https : Bool) (dial : Bytes → Dialled) (s : Semaphore) (target : Result (Bytes × ℕ))
      → Decided
          (MayOpen strict_https dial s target)
          s
          (targeted lib permits strict_https dial s target)
  unfolding targeted
  targeted-Decided strict_https dial s (err e) =
      fails s _ (λ m. let h = m.read in cc) (λ response h. cc)
  targeted-Decided strict_https dial s panicked =
      fails s _ (λ m. let h = m.read in cc) (λ response h. cc)
  targeted-Decided strict_https dial s (ok (host, port)) =
      elim (Bool-cases (strict_https && not (port == 443))) [
        | inl bad ↦ rw bad (
            fails s _ (λ m. let (good, d, l) = of_target strict_https dial s host port m in cc)
              (λ response h. cc))
        | inr good ↦ rw good (
            equivalent (dialled-Decided (target_addr host port) s (dial (target_addr host port)))
              (λ (e, h). record {
                host = host;
                port = port;
                read = refl;
                secure = good;
                reached = e;
                left = h;
              })
              (λ m. let (g, d, l) = of_target strict_https dial s host port m in (d, l)))
      ]

  -- A CONNECT request is answered with 200, and a permit is taken for its tunnel, if its target
  -- can be read, has port 443 where the configuration asks for it, can be reached, and a permit
  -- is left. In any other case there is no response, and no permit is taken.
  pub handle_connect-Decided :
      (security : SecurityConfig) (dial : Bytes → Dialled) (req : Request lib) (s : Semaphore)
      → Decided
          (MayOpen security.strict_https dial s (parse_connect_uri req.authority))
          s
          (handle_connect lib permits security dial req s)
  unfolding handle_connect
  handle_connect-Decided security dial req s =
      targeted-Decided security.strict_https dial s (parse_connect_uri req.authority)

-- ===== src/Proxy/Handler/Download/Lifetime.antt =====
-- When a response that may be cached is dropped for its lifetime.
use squiddish.Prelude.{ℕ, ◌≡◌, ◌↔◌, false, ◌&&◌, Option, none, some, arith, Bool-cases, inl, inr}
use squiddish.Text.{Bytes}
use squiddish.Apt.{is_apt_request}
use squiddish.Config.{AptConfig}
use squiddish.Proxy.Handler.Download.{stated, entry_ttl}

stated_iff : (default_ttl : ℕ) (o : Option ℕ) → (stated default_ttl o ≡ none) ↔ (o ≡ some 0)
unfolding stated
stated_iff default_ttl none = (λ h. absurd cc, λ h. absurd cc)
stated_iff default_ttl (some ttl) = (λ h. ground arith, λ h. ground arith)

-- A response is dropped exactly when its headers state a lifetime of zero and it is not treated as
-- an APT file, which it is if that is enabled and its URI is that of an APT request.
pub entry_ttl_iff :
    (apt : AptConfig) (default_ttl : ℕ) (uri : Bytes) (header_ttl : Option ℕ)
    → (entry_ttl apt default_ttl uri header_ttl ≡ none)
      ↔ (((apt.enabled && is_apt_request uri) ≡ false) × (header_ttl ≡ some 0))
unfolding entry_ttl
entry_ttl_iff apt default_ttl uri header_ttl =
    elim (Bool-cases (apt.enabled && is_apt_request uri)) [
      | inl e ↦ (λ h. absurd (ground arith), λ h. absurd (ground arith))
      | inr e ↦ (
        λ h. (e, (stated_iff default_ttl header_ttl).0 (rw e at h)),
        λ h. rw e ((stated_iff default_ttl header_ttl).1 h.1),
      )
    ]

-- ===== src/Proxy/Responses/Cached.antt =====
-- What the response for an entry of the cache holds.
use squiddish.Prelude.{
  append_assoc, append-nil, ℕ, ◌-◌, ◌≡◌, refl, sym, ap, Bool, true, false, ◌&&◌, none, some, List,
  [], ◌∷◌, ◌++◌, leb, if◌then◌else◌, Bool-cases, inl, inr,
}
use squiddish.Text.{Bytes, codes}
use squiddish.Text.Decimal.{print_uint}
use squiddish.Cache.{CacheEntry, as_secs}
use squiddish.Proxy.Http.{Http}
use squiddish.Proxy.Policy.{pseudonym}
use squiddish.Proxy.Responses.{status_or_ok, add_headers, add_ttl, build_response_from_cache}

module _ (lib : Http) (valid : Bytes → Bytes → Bool) where
  abbrev pub all_valid : List (Bytes × Bytes) → Bool
  all_valid [] = true
  all_valid ((name, value) ∷ rest) = valid name value && all_valid rest

  add_headers-none : (hs : List (Bytes × Bytes)) → add_headers lib valid hs none ≡ none
  unfolding add_headers
  add_headers-none [] = refl
  add_headers-none (h ∷ hs) = add_headers-none hs

  pub add_headers-some :
      (hs start : List (Bytes × Bytes))
      → add_headers lib valid hs (some start) ≡ (if all_valid hs then some (start ++ hs) else none)
  unfolding add_headers
  add_headers-some [] start = ap some (sym (append-nil start))
  add_headers-some ((name, value) ∷ hs) start = elim (Bool-cases (valid name value)) [
    | inl good ↦
        rw
          (
            good,
            add_headers-some hs (start ++ (name, value) ∷ []),
            append_assoc start ((name, value) ∷ []) hs,
          )
          refl
    | inr bad ↦ rw (bad, add_headers-none hs) refl
  ]

  -- the header of the time that is left, where the entry is not ahead of the clock
  abbrev pub ttl_header : ℕ → CacheEntry → List (Bytes × Bytes)
  ttl_header now entry =
      if leb entry.timestamp now
      then (codes "x-cache-ttl", print_uint (entry.ttl_seconds - as_secs (now - entry.timestamp)))
        ∷ []
      else []

  pub status_lem :
      (b : Bool) (s : ℕ)
      → status_or_ok lib valid (if b then some s else none) ≡ (if b then s else 200)
  unfolding status_or_ok
  status_lem true s = refl
  status_lem false s = refl

  add_ttl-none : (now : ℕ) (entry : CacheEntry) → add_ttl lib valid now entry none ≡ none
  unfolding add_ttl
  add_ttl-none now entry = elim (Bool-cases (leb entry.timestamp now)) [
    | inl e ↦ rw e
    | inr e ↦ rw e
  ]

  module _ (hit : valid (codes "x-cache") (codes "HIT") ≡ true)
      (via : valid (codes "via") pseudonym ≡ true)
      (numbers : (n : ℕ) → valid (codes "x-cache-ttl") (print_uint n) ≡ true) where
    add_ttl_lem :
        (now : ℕ) (entry : CacheEntry) (hs : List (Bytes × Bytes))
        → add_ttl lib valid now entry (some hs) ≡ some (hs ++ ttl_header now entry)
    unfolding add_ttl
    add_ttl_lem now entry hs = elim (Bool-cases (leb entry.timestamp now)) [
      | inl e ↦ rw (e, numbers (entry.ttl_seconds - as_secs (now - entry.timestamp))) refl
      | inr e ↦ rw (e, append-nil hs) refl
    ]

    -- If the builder takes the proxy's own headers, then the response for an entry whose headers it
    -- takes too has the body of the entry, its headers with those of the proxy behind them, and its
    -- status, or 200 where that is no status. If it refuses a header of the entry, the response is
    -- an empty one with status 200.
    pub build_response_from_cache_lem :
        (now : ℕ) (entry : CacheEntry)
        → build_response_from_cache lib valid now entry ≡ (
            if all_valid entry.headers
            then record {
              status = if leb 100 entry.status && leb entry.status 999 then entry.status else 200;
              headers =
                  ((entry.headers ++ (codes "x-cache", codes "HIT") ∷ [])
                    ++ (codes "via", pseudonym) ∷ [])
                  ++ ttl_header now entry;
              body = entry.content;
            }
            else record { status = 200; headers = []; body = [] })
    unfolding build_response_from_cache
    build_response_from_cache_lem now entry = elim (Bool-cases (all_valid entry.headers)) [
      | inl good ↦
          rw
            (
              add_headers-some entry.headers [],
              good,
              hit,
              via,
              add_ttl_lem now entry (
                  (entry.headers ++ (codes "x-cache", codes "HIT") ∷ [])
                  ++ (codes "via", pseudonym) ∷ []),
              lib.from_u16_lem entry.status,
              status_lem (leb 100 entry.status && leb entry.status 999) entry.status,
            )
            refl
      | inr bad ↦ rw (add_headers-some entry.headers [], bad, add_ttl-none now entry) refl
    ]

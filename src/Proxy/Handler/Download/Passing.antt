-- ===== src/Proxy/Handler/Download/Passing.antt =====
-- What the loop over the body does to the downloads, also where it ends in an error: it only adds
-- chunks, those of the body, in order.
use squiddish.Prelude.{
  ℕ, ◌≤◌, ◌≡◌, refl, Bool, some, none, List, [], ◌∷◌, length, ltb, arith, Bool-cases, inl, inr, ap,
}
use squiddish.Text.{Bytes}
use squiddish.Error.{Result, ok}
use squiddish.Cache.Disk.State.{add64}
use squiddish.Cache.Inflight.Broadcast.{Channels}
use squiddish.Cache.Inflight.{InflightDownloads, add_chunk}
use squiddish.Cache.Inflight.Joining.{Steps, stop, step, adds}
use squiddish.Proxy.Handler.Download.{Read, frame_read, broken, timed_out, stream_body, extended}
use squiddish.Proxy.Handler.Download.Bounded.{chunks}

module _ (lib : Channels) (key_str : Bytes) (max_body_size : ℕ) (cacheable : Bool) where
  -- what each chunk keeps, the loop keeps
  pub stream_body-keeps {ℓ} :
      (P : InflightDownloads lib → Type ℓ)
      → ((chunk : Bytes) (d : InflightDownloads lib) → P d → P (add_chunk lib key_str chunk d))
      → (body : List Read) (total_size : ℕ) (cache_buf : Bytes) (d : InflightDownloads lib) → P d
      → P (stream_body lib key_str max_body_size cacheable body total_size cache_buf d).1
  unfolding stream_body
  stream_body-keeps P keep [] total_size cache_buf d p = p
  stream_body-keeps P keep (broken e ∷ body) total_size cache_buf d p = p
  stream_body-keeps P keep (timed_out ∷ body) total_size cache_buf d p = p
  stream_body-keeps P keep (frame_read none ∷ body) total_size cache_buf d p =
      stream_body-keeps P keep body total_size cache_buf d p
  stream_body-keeps P keep (frame_read (some chunk) ∷ body) total_size cache_buf d p =
      let total = add64 total_size (length chunk) in
      let rest =
        stream_body-keeps P keep body total
          (extended lib key_str max_body_size cacheable cache_buf chunk)
          (add_chunk lib key_str chunk d) (keep chunk d p) in
      elim (Bool-cases (ltb max_body_size total)) [
        | inl large ↦ rw large p
        | inr fits ↦ rw fits rest
      ]

  -- chunks were added one by one, and all of the body's if there was no error
  pub record Passes (body : List Read) (d : InflightDownloads lib)
      (r : Result Bytes × InflightDownloads lib) : Type 0 where
    pub added : List Bytes
    pub steps : Steps lib key_str d added r.1
    pub few : length added ≤ length (chunks body)
    pub whole : (out : Bytes) → r.0 ≡ ok out → added ≡ chunks body

  nothing_added :
      (body : List Read) (d : InflightDownloads lib) (r : Result Bytes × InflightDownloads lib)
      → r.1 ≡ d
      → ((out : Bytes) → r.0 ≡ ok out → ⊥)
      → Passes body d r
  nothing_added body d r same bad = record {
    added = [];
    steps = rw same stop;
    few = omega arith;
    whole = λ out e. absurd (bad out e);
  }

  pub stream_body-Passes :
      (body : List Read) (total_size : ℕ) (cache_buf : Bytes) (d : InflightDownloads lib)
      → Passes body d (stream_body lib key_str max_body_size cacheable body total_size cache_buf d)
  unfolding stream_body
  stream_body-Passes [] total_size cache_buf d = record {
    added = [];
    steps = stop;
    few = omega arith;
    whole = λ out e. refl;
  }
  stream_body-Passes (broken e ∷ body) total_size cache_buf d =
      nothing_added (broken e ∷ body) d _ refl (λ out h. cc)
  stream_body-Passes (timed_out ∷ body) total_size cache_buf d =
      nothing_added (timed_out ∷ body) d _ refl (λ out h. cc)
  stream_body-Passes (frame_read none ∷ body) total_size cache_buf d =
      let p = stream_body-Passes body total_size cache_buf d in
      record { added = p.added; steps = p.steps; few = p.few; whole = p.whole }
  stream_body-Passes (frame_read (some chunk) ∷ body) total_size cache_buf d =
      let total = add64 total_size (length chunk) in
      let p =
        stream_body-Passes body total (extended lib key_str max_body_size cacheable cache_buf chunk)
          (add_chunk lib key_str chunk d) in
      elim (Bool-cases (ltb max_body_size total)) [
        | inl large ↦
            rw large (nothing_added (frame_read (some chunk) ∷ body) d _ refl (λ out h. cc))
        | inr fits ↦ rw fits (record {
          added = chunk ∷ p.added;
          steps = step (adds chunk) p.steps;
          few = omega (arith, p.few);
          whole = λ out e. ap (◌∷◌ chunk) (p.whole out e);
        })
      ]

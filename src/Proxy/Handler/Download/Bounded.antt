-- ===== src/Proxy/Handler/Download/Bounded.antt =====
-- A body that is streamed to its end is within the limit, is kept whole, and has reached the
-- requests that follow the download.
use squiddish.Prelude.{
  append_assoc, append-nil, ℕ, ◌+◌, ◌≤◌, ◌<◌, ◌≡◌, sym, ap, ◌∙◌, Bool, none, some, List, [], ◌∷◌,
  ◌++◌, length, ltb, ltb-false→le, arith, Bool-cases, inl, inr, if◌then◌else◌,
}
use squiddish.Text.{Bytes}
use squiddish.Error.{Result, ok}
use squiddish.Cache.Disk.Sizes.{u64_mod, add64_lem}
use squiddish.Cache.Inflight.Broadcast.{Channels}
use squiddish.Cache.Inflight.{InflightDownloads, add_chunk}
use squiddish.Cache.Inflight.Joining.{Steps, stop, step, adds}
use squiddish.Proxy.Handler.Download.{Read, frame_read, broken, timed_out, stream_body, extended}

-- the chunks of a body, its bytes, and their number
abbrev pub chunks : List Read → List Bytes
chunks [] = []
chunks (frame_read (some chunk) ∷ body) = chunk ∷ chunks body
chunks (_ ∷ body) = chunks body

abbrev pub joined_bytes : List Bytes → Bytes
joined_bytes [] = []
joined_bytes (c ∷ cs) = c ++ joined_bytes cs

abbrev pub total_length : List Bytes → ℕ
total_length [] = 0
total_length (c ∷ cs) = length c + total_length cs

module _ (lib : Channels) (key_str : Bytes) (max_body_size : ℕ) (cacheable : Bool) where
  pub record Streams (body : List Read) (total_size : ℕ) (cache_buf out : Bytes)
      (d d' : InflightDownloads lib) : Type 0 where
    pub within : total_size + total_length (chunks body) ≤ max_body_size
    pub whole : out ≡ (if cacheable then cache_buf ++ joined_bytes (chunks body) else cache_buf)
    pub passed_on : Steps lib key_str d (chunks body) d'

  joined_on :
      (cache_buf chunk rest : Bytes)
      → (if cacheable
          then extended lib key_str max_body_size cacheable cache_buf chunk ++ rest
          else extended lib key_str max_body_size cacheable cache_buf chunk)
        ≡ (if cacheable then cache_buf ++ (chunk ++ rest) else cache_buf)
  unfolding extended
  joined_on cache_buf chunk rest = elim (Bool-cases cacheable) [
    | inl e ↦ rw e (append_assoc cache_buf chunk rest)
    | inr e ↦ rw e
  ]

  nothing_more :
      (cache_buf : Bytes) → cache_buf ≡ (if cacheable then cache_buf ++ [] else cache_buf)
  nothing_more cache_buf = elim (Bool-cases cacheable) [
    | inl e ↦ rw e (sym (append-nil cache_buf))
    | inr e ↦ rw e
  ]

  result_buf :
      {b out : Bytes} {d d' : InflightDownloads lib}
      → Path (Result Bytes × InflightDownloads lib) (ok b, d) (ok out, d')
      → b ≡ out
  result_buf h = cc (ap (λ r. r.0) h)

  -- A body that is streamed without an error, starting within the limit and with sizes that do not
  -- pass 64 bits, is within the limit. What is kept for the cache is all of its bytes, or nothing
  -- where it is not to be cached, and each of its chunks was added to the download, in order.
  pub stream_body-Streams :
      (body : List Read) (total_size : ℕ) (cache_buf out : Bytes) (d d' : InflightDownloads lib)
      → total_size ≤ max_body_size
      → max_body_size + total_length (chunks body) < u64_mod
      → stream_body lib key_str max_body_size cacheable body total_size cache_buf d ≡ (ok out, d')
      → Streams body total_size cache_buf out d d'
  unfolding stream_body
  stream_body-Streams [] total_size cache_buf out d d' start small h = record {
    within = omega arith;
    whole = sym (result_buf h) ∙ nothing_more cache_buf;
    passed_on = rw (sym (ap (λ r. r.1) h)) stop;
  }
  stream_body-Streams (broken e ∷ body) total_size cache_buf out d d' start small h =
      absurd (cc (ap (λ r. r.0) h))
  stream_body-Streams (timed_out ∷ body) total_size cache_buf out d d' start small h =
      absurd (cc (ap (λ r. r.0) h))
  stream_body-Streams (frame_read none ∷ body) total_size cache_buf out d d' start small h =
      let s = stream_body-Streams body total_size cache_buf out d d' start small h in
      record { within = s.within; whole = s.whole; passed_on = s.passed_on }
  stream_body-Streams (frame_read (some chunk) ∷ body) total_size cache_buf out d d' start small h =
      let sum = add64_lem total_size (length chunk) (omega arith) in
      elim (Bool-cases (ltb max_body_size (total_size + length chunk))) [
        | inl large ↦ absurd (cc (ap (λ r. r.0) (rw (sum, large) at h)))
        | inr fits ↦
            let s =
              stream_body-Streams body (total_size + length chunk)
                (extended lib key_str max_body_size cacheable cache_buf chunk) out
                (add_chunk lib key_str chunk d) d'
                (ltb-false→le max_body_size (total_size + length chunk) fits) (omega arith)
                (rw (sum, fits) at h) in
            record {
              within = omega (arith, s.within);
              whole = s.whole ∙ joined_on cache_buf chunk (joined_bytes (chunks body));
              passed_on = step (adds chunk) s.passed_on;
            }
      ]

-- ===== src/Proxy/Client/Bodies.antt =====
-- A body that is collected is whole, and within the limit.
use squiddish.Prelude.{
  append_assoc, append-nil, ℕ, ◌+◌, ◌≤◌, ◌<◌, ◌≡◌, sym, ◌∙◌, Option, none, some, List, [], ◌∷◌,
  ◌++◌, length, length-append, ltb, ltb-false→le, arith, Bool-cases, inl, inr,
}
use squiddish.Text.{Bytes}
use squiddish.Error.{ok}
use squiddish.Cache.Files.{Attempt, done, failed}
use squiddish.Cache.Disk.Sizes.{u64_mod, add64_lem}
use squiddish.Proxy.Client.{collected_from, collect_body}

-- the bytes of the frames that have data
abbrev pub body_bytes : List (Attempt Bytes (Option Bytes)) → Bytes
body_bytes [] = []
body_bytes (done (some chunk) ∷ body) = chunk ++ body_bytes body
body_bytes (_ ∷ body) = body_bytes body

module _ (max_size : ℕ) where
  collected_from_lem :
      (body : List (Attempt Bytes (Option Bytes))) (collected out : Bytes)
      → length collected ≤ max_size
      → max_size + length (body_bytes body) < u64_mod
      → collected_from max_size body collected ≡ ok out
      → (out ≡ collected ++ body_bytes body) × (length out ≤ max_size)
  unfolding collected_from
  collected_from_lem [] collected out start small h =
      let same : collected ≡ out = cc in
      (rw (sym same) (sym (append-nil collected)), rw (sym same) start)
  collected_from_lem (failed e ∷ body) collected out start small h = absurd cc
  collected_from_lem (done none ∷ body) collected out start small h =
      collected_from_lem body collected out start small h
  collected_from_lem (done (some chunk) ∷ body) collected out start small h =
      let split = length-append chunk (body_bytes body) in
      let sum = add64_lem (length collected) (length chunk) (omega (arith, split)) in
      elim (Bool-cases (ltb max_size (length collected + length chunk))) [
        | inl large ↦ absurd (cc (rw (sum, large) at h))
        | inr fits ↦
            let more = length-append collected chunk in
            let within = ltb-false→le max_size (length collected + length chunk) fits in
            let (whole, bound) =
              collected_from_lem body (collected ++ chunk) out (omega (arith, more, within))
                (omega (arith, split)) (rw (sum, fits) at h) in
            (whole ∙ append_assoc collected chunk (body_bytes body), bound)
      ]

  -- A body that is collected without an error, with sizes that do not pass 64 bits, is all of the
  -- data of its frames, in order, and is no longer than the limit.
  pub collect_body_lem :
      (body : List (Attempt Bytes (Option Bytes))) (out : Bytes)
      → max_size + length (body_bytes body) < u64_mod
      → collect_body body max_size ≡ ok out
      → (out ≡ body_bytes body) × (length out ≤ max_size)
  unfolding collect_body
  collect_body_lem body out small h = collected_from_lem body [] out (omega arith) small h

-- ===== src/Config/Quantity/Durations.antt =====
-- Durations: a printed number, alone or before a unit, is read as that many seconds.
use squiddish.Prelude.{
  ℕ, ◌+◌, ◌*◌, ◌-◌, ◌%◌, ◌^◌, ◌≤◌, ◌≡◌, ◌≢◌, refl, ap, ◌∙◌, some, none, [], ◌∷◌, ◌++◌, arith, All,
  inl, inr, ◌⊎◌, All-map,
}
use squiddish.Text.{
  Bytes, codes, trim, trim_start, trim_end, lowercase, strip_suffix, bytes_eq, scan_digits,
  parse_uint,
}
use squiddish.Text.Decimal.{print_uint, IsDigit, print_uint-IsDigit, parse_uint-print_uint}
use squiddish.Cache.Disk.Tracking.{All-append}
use squiddish.Proxy.Policy.{u64_max}
use squiddish.Config.Quantity.{with_unit, duration_units, scale, duration_of, parse_duration}

-- a digit or a small letter
abbrev IsPlain : ℕ → Type 0
IsPlain c = ((b'0' ≤ c) × (c ≤ b'9')) ⊎ ((b'a' ≤ c) × (c ≤ b'z'))

trim_end-IsPlain : (s : Bytes) → All IsPlain s → trim_end s ≡ s
unfolding trim_end
trim_end-IsPlain [] a = refl
trim_end-IsPlain (c ∷ s) (inl p, a) = ground (arith, trim_end-IsPlain s a)
trim_end-IsPlain (c ∷ s) (inr p, a) = ground (arith, trim_end-IsPlain s a)

trim-IsPlain : (s : Bytes) → All IsPlain s → trim s ≡ s
unfolding trim trim_start
trim-IsPlain [] a = trim_end-IsPlain [] tt
trim-IsPlain (c ∷ s) (inl p, a) = ground (arith, trim_end-IsPlain (c ∷ s) (inl p, a))
trim-IsPlain (c ∷ s) (inr p, a) = ground (arith, trim_end-IsPlain (c ∷ s) (inr p, a))

lowercase-IsPlain : (s : Bytes) → All IsPlain s → lowercase s ≡ s
unfolding lowercase
lowercase-IsPlain [] a = refl
lowercase-IsPlain (c ∷ s) (inl p, a) = ground (arith, lowercase-IsPlain s a)
lowercase-IsPlain (c ∷ s) (inr p, a) = ground (arith, lowercase-IsPlain s a)

scan_digits-letter :
    (limit n : ℕ) (s : Bytes) (u : ℕ)
    → All IsDigit s
    → b'a' ≤ u
    → scan_digits limit n (s ++ u ∷ []) ≡ none
unfolding scan_digits
scan_digits-letter limit n [] u a h = ground arith
scan_digits-letter limit n (c ∷ s) u (d, a) h =
    ground (arith, scan_digits-letter limit (n * 10 + (c - b'0')) s u a h)

parse_uint-letter :
    (limit : ℕ) (s : Bytes) (u : ℕ)
    → All IsDigit s
    → b'a' ≤ u
    → parse_uint limit (s ++ u ∷ []) ≡ none
unfolding parse_uint scan_digits
parse_uint-letter limit [] u a h = ground arith
parse_uint-letter limit (c ∷ []) u a h = ground (arith, scan_digits-letter limit 0 (c ∷ []) u a h)
parse_uint-letter limit (c ∷ d ∷ s) u a h =
    ground (arith, scan_digits-letter limit 0 (c ∷ d ∷ s) u a h)

strip_suffix_self : (s : Bytes) (u : ℕ) → strip_suffix (u ∷ []) (s ++ u ∷ []) ≡ some s
unfolding strip_suffix bytes_eq
strip_suffix_self [] u = ground arith
strip_suffix_self (c ∷ []) u = ground (arith, strip_suffix_self [] u)
strip_suffix_self (c ∷ d ∷ s) u = ground (arith, strip_suffix_self (d ∷ s) u)

strip_suffix_ne : (s : Bytes) (v u : ℕ) → v ≢ u → strip_suffix (v ∷ []) (s ++ u ∷ []) ≡ none
unfolding strip_suffix bytes_eq
strip_suffix_ne [] v u ne = ground arith
strip_suffix_ne (c ∷ []) v u ne = ground (arith, strip_suffix_ne [] v u ne)
strip_suffix_ne (c ∷ d ∷ s) v u ne = ground (arith, strip_suffix_ne (d ∷ s) v u ne)

module _ (k : ℕ) (fits : k ≤ u64_max) where
  abbrev digits : Bytes
  digits = print_uint k

  digits-IsPlain : All IsPlain digits
  digits-IsPlain = All-map digits (λ c d. inl d) (print_uint-IsDigit k)

  unchanged : (s : Bytes) → All IsPlain s → lowercase (trim s) ≡ s
  unchanged s a = rw (trim-IsPlain s a, lowercase-IsPlain s a) refl

  parse_duration-plain : parse_duration digits ≡ some k
  unfolding parse_duration
  parse_duration-plain =
      rw (unchanged digits digits-IsPlain, parse_uint-print_uint u64_max k fits) refl

  parse_duration-unit :
      (u factor : ℕ)
      → (b'a' ≤ u) × (u ≤ b'z')
      → with_unit (digits ++ u ∷ []) duration_units ≡ some (digits, factor)
      → parse_duration (digits ++ u ∷ []) ≡ some ((k * factor) % 2 ^ 64)
  unfolding parse_duration duration_of scale
  parse_duration-unit u factor letter e =
      rw
        (
          unchanged (digits ++ u ∷ [])
              (All-append IsPlain digits (u ∷ []) digits-IsPlain (inr letter, tt)),
          parse_uint-letter u64_max digits u (print_uint-IsDigit k) letter.0,
          e,
          trim-IsPlain digits digits-IsPlain,
          parse_uint-print_uint u64_max k fits,
        )
        refl

  -- A number of 64 bits that is printed is read as that many seconds, and with the letter `s`,
  -- `m`, `h` or `d` behind it as that many seconds, minutes, hours or days, in seconds modulo 2 ^
  -- 64.
  pub parse_duration-print_uint :
      (parse_duration (print_uint k) ≡ some k)
      × (parse_duration (print_uint k ++ codes "s") ≡ some k)
      × (parse_duration (print_uint k ++ codes "m") ≡ some ((k * 60) % 2 ^ 64))
      × (parse_duration (print_uint k ++ codes "h") ≡ some ((k * 3600) % 2 ^ 64))
      × (parse_duration (print_uint k ++ codes "d") ≡ some ((k * 86400) % 2 ^ 64))
  unfolding with_unit
  parse_duration-print_uint = (
    parse_duration-plain,
    parse_duration-unit b's' 1 (omega arith, omega arith)
          (rw (
            strip_suffix_ne digits b'd' b's' (omega arith),
            strip_suffix_ne digits b'h' b's' (omega arith),
            strip_suffix_ne digits b'm' b's' (omega arith),
            strip_suffix_self digits b's',
          ))
        ∙ ap some (omega arith),
    parse_duration-unit b'm' 60 (omega arith, omega arith)
        (rw (
          strip_suffix_ne digits b'd' b'm' (omega arith),
          strip_suffix_ne digits b'h' b'm' (omega arith),
          strip_suffix_self digits b'm',
        )),
    parse_duration-unit b'h' 3600 (omega arith, omega arith)
        (rw (strip_suffix_ne digits b'd' b'h' (omega arith), strip_suffix_self digits b'h')),
    parse_duration-unit b'd' 86400 (omega arith, omega arith) (rw (strip_suffix_self digits b'd')),
  )

-- ===== src/Text/Decimal.antt =====
-- Decimal numbers: what `parse_uint` accepts, and the print of a number.
use squiddish.Prelude.{
  ℕ, zero, suc, ◌+◌, ◌-◌, ◌*◌, ◌/◌, ◌%◌, ◌≤◌, ◌<◌, ◌≡◌, ◌≢◌, refl, some, [], ◌∷◌, arith, ltb, ◌==◌,
  if◌then◌else◌, Bool-cases, inl, inr, All,
}
use squiddish.Text.{Bytes, scan_digits, parse_uint}

digits : ℕ → ℕ → Bytes → Bytes
digits zero n out = out
digits (suc f) n out =
    let more = digits f (n / 10) ((b'0' + n % 10) ∷ out) in
    if ltb n 10 then (b'0' + n) ∷ out else more

-- `n.to_string()` and `{}` of an unsigned number. A number has fewer than `n + 1` digits, so the
-- fuel does not run out.
unfoldable pub print_uint : ℕ → Bytes
unfolding digits
print_uint n = digits (suc n) n []

scan-digits :
    (limit f n : ℕ) (out : Bytes)
    → n < f
    → n ≤ limit
    → scan_digits limit 0 (digits f n out) ≡ scan_digits limit n out
unfolding scan_digits digits
scan-digits limit zero n out h fits = absurd (omega arith)
scan-digits limit (suc f) n out h fits = elim (Bool-cases (ltb n 10)) [
  | inl small ↦ rw small (ground arith)
  | inr big ↦ ground (arith, scan-digits limit f (n / 10) ((b'0' + n % 10) ∷ out))
]

-- The print of a number is digits, and there is at least one.
abbrev pub IsDigit : ℕ → Type 0
IsDigit c = (b'0' ≤ c) × (c ≤ b'9')

digits-IsDigit : (f n : ℕ) (out : Bytes) → All IsDigit out → All IsDigit (digits f n out)
unfolding digits
digits-IsDigit zero n out h = h
digits-IsDigit (suc f) n out h = elim (Bool-cases (ltb n 10)) [
  | inl small ↦ rw small (ground arith, h)
  | inr big ↦ rw big (digits-IsDigit f (n / 10) ((b'0' + n % 10) ∷ out) (omega arith, h))
]

pub print_uint-IsDigit : (n : ℕ) → All IsDigit (print_uint n)
unfolding print_uint
print_uint-IsDigit n = digits-IsDigit (suc n) n [] tt

digits-cons : (f n d : ℕ) (out : Bytes) → digits f n (d ∷ out) ≢ []
unfolding digits
digits-cons zero n d out = λ e. cc
digits-cons (suc f) n d out = ground (arith, digits-cons f (n / 10) (b'0' + n % 10) (d ∷ out))

print_uint-ne-nil : (n : ℕ) → print_uint n ≢ []
unfolding print_uint
print_uint-ne-nil n = ground (arith, digits-cons n (n / 10) (b'0' + n % 10) [])

parse_uint-scan :
    (limit : ℕ) (s : Bytes) → s ≢ [] → All IsDigit s → parse_uint limit s ≡ scan_digits limit 0 s
unfolding parse_uint
parse_uint-scan limit [] h _ = absurd (h refl)
parse_uint-scan limit (c ∷ []) h _ = refl
parse_uint-scan limit (c ∷ d ∷ s) h (hc, _) = ground arith

pub parse_uint-print_uint : (limit n : ℕ) → n ≤ limit → parse_uint limit (print_uint n) ≡ some n
unfolding print_uint scan_digits
parse_uint-print_uint limit n h =
    rw (parse_uint-scan limit (print_uint n) (print_uint-ne-nil n) (print_uint-IsDigit n))
      (scan-digits limit (suc n) n [] (omega arith) h)

scan_digits-le :
    (limit n : ℕ) (s : Bytes) {r : ℕ} → n ≤ limit → scan_digits limit n s ≡ some r → r ≤ limit
unfolding scan_digits
scan_digits-le limit n [] {r} fits h = ground arith
scan_digits-le limit n (c ∷ s) {r} fits h =
    ground (arith, scan_digits-le limit (n * 10 + (c - b'0')) s {r = r})

pub parse_uint-le : (limit : ℕ) (s : Bytes) {r : ℕ} → parse_uint limit s ≡ some r → r ≤ limit
unfolding parse_uint
parse_uint-le limit [] {r} h = cc
parse_uint-le limit (c ∷ []) {r} h = scan_digits-le limit 0 (c ∷ []) (omega arith) h
parse_uint-le limit (c ∷ d ∷ s) {r} h = elim (Bool-cases (c == b'+')) [
  | inl plus ↦ scan_digits-le limit 0 (d ∷ s) (omega arith) (ground arith)
  | inr digit ↦ scan_digits-le limit 0 (c ∷ d ∷ s) (omega arith) (ground arith)
]

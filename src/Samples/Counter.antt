-- ===== src/Samples/Counter.antt =====
-- A semaphore that is the number of its permits, and at most ten of them.
use squiddish.Prelude.{
  ℕ, zero, suc, ◌≤◌, ◌<◌, ◌≡◌, refl, Option, none, some, leb, if◌then◌else◌, le→leb, arith,
}
use squiddish.Proxy.Tunnel.{Permits}

abbrev pub made : ℕ → Option ℕ
made n = if leb n 10 then some n else none

abbrev pub fewer : ℕ → Option ℕ
fewer zero = none
fewer (suc n) = some n

pub made-le : (n : ℕ) → n ≤ 10 → (s : ℕ) × (made n ≡ some s) × (s ≡ n)
made-le n h = (n, rw (le→leb n 10 h), refl)

pub made-lt : (n : ℕ) → 10 < n → made n ≡ none
made-lt n h = ground arith

pub fewer-none : (s : ℕ) → s ≡ 0 → fewer s ≡ none
fewer-none zero h = refl
fewer-none (suc s) h = absurd (omega arith)

pub fewer-some : (s : ℕ) → 0 < s → (t : ℕ) × (fewer s ≡ some t) × (suc t ≡ s)
fewer-some zero h = absurd (omega arith)
fewer-some (suc s) h = (s, refl, refl)

abbrev pub counter_lib : Permits
counter_lib = record {
  Semaphore = ℕ;
  max_permits = 10;
  new = made;
  try_acquire = fewer;
  release = suc;
  available = λ s. s;
  new-le = made-le;
  new-lt = made-lt;
  try_acquire-none = fewer-none;
  try_acquire-some = fewer-some;
  available-release = λ s. refl;
}

-- ===== src/Config/Quantity.antt =====
-- `parse_size` and `parse_duration` of src/config.rs.
pub mod Durations
use squiddish.Prelude.{
  ℕ, ◌*◌, ◌%◌, ◌^◌, ◌≤◌, Bool, ◌&&◌, Option, none, some, List, [], ◌∷◌, if◌then◌else◌,
}
use squiddish.Text.{Bytes, codes, trim, lowercase, uppercase, strip_suffix, parse_uint}
use squiddish.Proxy.Policy.{u64_max}

-- `f64`: the parser, the tests, and `(num * unit as f64) as u64`
pub record Floats : Type 1 where
  pub F64 : Type 0
  pub parse_f64 : Bytes → Option F64
  pub is_nonneg : F64 → Bool
  pub is_finite : F64 → Bool
  pub scaled : F64 → ℕ → ℕ
  pub scaled-le : (num : F64) (unit : ℕ) → scaled num unit ≤ u64_max

-- the first unit of the list that the text ends in, with what stands before it
pub with_unit : Bytes → List (Bytes × ℕ) → Option (Bytes × ℕ)
with_unit s [] = none
with_unit s ((unit, n) ∷ units) = first_of n (strip_suffix unit s) (with_unit s units)
  where
    first_of : ℕ → Option Bytes → Option (Bytes × ℕ) → Option (Bytes × ℕ)
    first_of n none rest = rest
    first_of n (some num_str) rest = some (num_str, n)

abbrev pub size_units : List (Bytes × ℕ)
size_units =
    (codes "TB", 1024 * 1024 * 1024 * 1024)
    ∷ (codes "GB", 1024 * 1024 * 1024)
    ∷ (codes "MB", 1024 * 1024)
    ∷ (codes "KB", 1024)
    ∷ (codes "B", 1)
    ∷ []

abbrev pub duration_units : List (Bytes × ℕ)
duration_units = (codes "d", 86400) ∷ (codes "h", 3600) ∷ (codes "m", 60) ∷ (codes "s", 1) ∷ []

-- the direct parse, or else the text with its unit
abbrev plain_or : Option ℕ → Option ℕ → Option ℕ
plain_or none with = with
plain_or (some num) with = some num

module _ (floats : Floats) where
  open floats use {F64, parse_f64, is_nonneg, is_finite, scaled}

  sized : ℕ → Option F64 → Option ℕ
  sized unit none = none
  sized unit (some num) = if is_nonneg num && is_finite num then some (scaled num unit) else none

  size_of : Option (Bytes × ℕ) → Option ℕ
  unfolding sized
  size_of none = none
  size_of (some (num_str, unit)) = sized unit (parse_f64 (trim num_str))

  unfoldable pub parse_size : Bytes → Option ℕ
  unfolding size_of with_unit
  parse_size s =
      let s = uppercase (trim s) in
      plain_or (parse_uint u64_max s) (size_of (with_unit s size_units))

-- `num * multiplier` on `u64`, which wraps in a release build
pub scale : ℕ → Option ℕ → Option ℕ
scale multiplier none = none
scale multiplier (some num) = some ((num * multiplier) % 2 ^ 64)

pub duration_of : Option (Bytes × ℕ) → Option ℕ
unfolding scale
duration_of none = none
duration_of (some (num_str, multiplier)) = scale multiplier (parse_uint u64_max (trim num_str))

unfoldable pub parse_duration : Bytes → Option ℕ
unfolding duration_of with_unit
parse_duration s =
    let s = lowercase (trim s) in
    plain_or (parse_uint u64_max s) (duration_of (with_unit s duration_units))

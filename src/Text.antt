-- ===== src/Text.antt =====
-- The functions on `str` that the program takes from Rust's standard library. A text is the list
-- of its bytes and all texts are ASCII.
pub mod Laws
pub mod Cuts
pub mod Decimal
use Prim.Native.Char.{code}
use squiddish.Prelude.{
  ℕ, ◌+◌, ◌-◌, String, Bool, true, false, ◌&&◌, ◌||◌, Option, none, some, List, [], ◌∷◌, map, leb,
  ltb, ◌==◌, is_empty, if◌then◌else◌,
}

abbrev pub Bytes : Type 0
Bytes = List ℕ

-- the bytes of a literal
abbrev pub codes : String → Bytes
codes String.[] = []
codes (String.◌∷◌ c s) = code c ∷ codes s

abbrev pub to_lower : ℕ → ℕ
to_lower c = if leb b'A' c && leb c b'Z' then c + 32 else c

abbrev pub to_upper : ℕ → ℕ
to_upper c = if leb b'a' c && leb c b'z' then c - 32 else c

-- `to_lowercase`, `to_ascii_lowercase`
unfoldable pub lowercase : Bytes → Bytes
lowercase s = map to_lower s

unfoldable pub uppercase : Bytes → Bytes
uppercase s = map to_upper s

-- `a == b`
unfoldable pub bytes_eq : Bytes → Bytes → Bool
bytes_eq [] [] = true
bytes_eq (a ∷ s) (b ∷ t) = a == b && bytes_eq s t
bytes_eq _ _ = false

unfoldable pub eq_ignore_ascii_case : Bytes → Bytes → Bool
unfolding lowercase bytes_eq
eq_ignore_ascii_case s t = bytes_eq (lowercase s) (lowercase t)

abbrev pub is_space : ℕ → Bool
is_space c = c == 32 || leb 9 c && leb c 13

unfoldable pub trim_start : Bytes → Bytes
trim_start [] = []
trim_start (c ∷ s) = if is_space c then trim_start s else c ∷ s

-- the byte stays if a byte behind it stays, or if it is no space
abbrev keep_end : ℕ → Bytes → Bytes
keep_end c r = if is_empty r && is_space c then [] else c ∷ r

unfoldable pub trim_end : Bytes → Bytes
trim_end [] = []
trim_end (c ∷ s) = keep_end c (trim_end s)

unfoldable pub trim : Bytes → Bytes
unfolding trim_start trim_end
trim s = trim_end (trim_start s)

abbrev cons_head : ℕ → List Bytes → List Bytes
cons_head c [] = (c ∷ []) ∷ []
cons_head c (p ∷ ps) = (c ∷ p) ∷ ps

-- `s.split(sep)`
unfoldable pub split : ℕ → Bytes → List Bytes
split sep [] = [] ∷ []
split sep (c ∷ s) = let rest = split sep s in if c == sep then [] ∷ rest else cons_head c rest

unfoldable pub strip_prefix : Bytes → Bytes → Option Bytes
strip_prefix [] s = some s
strip_prefix (p ∷ ps) [] = none
strip_prefix (p ∷ ps) (c ∷ s) = if p == c then strip_prefix ps s else none

abbrev pub is_some {ℓ} : {A : Type ℓ} → Option A → Bool
is_some none = false
is_some (some a) = true

unfoldable pub starts_with : Bytes → Bytes → Bool
unfolding strip_prefix
starts_with p s = is_some (strip_prefix p s)

-- `s.contains(needle)`, with the needle first
unfoldable pub contains : Bytes → Bytes → Bool
unfolding starts_with
contains needle [] = starts_with needle []
contains needle (c ∷ s) = starts_with needle (c ∷ s) || contains needle s

-- `s.ends_with(suffix)`, with the suffix first
unfoldable pub ends_with : Bytes → Bytes → Bool
unfolding bytes_eq
ends_with suffix [] = bytes_eq suffix []
ends_with suffix (c ∷ s) = bytes_eq suffix (c ∷ s) || ends_with suffix s

abbrev cons_left : ℕ → Option (Bytes × Bytes) → Option (Bytes × Bytes)
cons_left c none = none
cons_left c (some (a, b)) = some (c ∷ a, b)

-- at the first separator
unfoldable pub split_once : ℕ → Bytes → Option (Bytes × Bytes)
split_once sep [] = none
split_once sep (c ∷ s) =
    let rest = split_once sep s in if c == sep then some ([], s) else cons_left c rest

abbrev or_here : ℕ → ℕ → Bytes → Option (Bytes × Bytes) → Option (Bytes × Bytes)
or_here sep c s none = if c == sep then some ([], s) else none
or_here sep c s (some (a, b)) = some (c ∷ a, b)

-- at the last separator
unfoldable pub rsplit_once : ℕ → Bytes → Option (Bytes × Bytes)
rsplit_once sep [] = none
rsplit_once sep (c ∷ s) = or_here sep c s (rsplit_once sep s)

abbrev snoc_left : ℕ → Option Bytes → Option Bytes
snoc_left c none = none
snoc_left c (some r) = some (c ∷ r)

-- `s.strip_suffix(suffix)`, with the suffix first
unfoldable pub strip_suffix : Bytes → Bytes → Option Bytes
unfolding bytes_eq
strip_suffix suffix [] = if bytes_eq suffix [] then some [] else none
strip_suffix suffix (c ∷ s) =
    let rest = snoc_left c (strip_suffix suffix s) in
    if bytes_eq suffix (c ∷ s) then some [] else rest

abbrev pub is_digit : ℕ → Bool
is_digit c = leb b'0' c && leb c b'9'

unfoldable pub scan_digits : ℕ → ℕ → Bytes → Option ℕ
scan_digits limit n [] = some n
scan_digits limit n (c ∷ s) =
    let m = Prim.Native.Nat.◌*◌ n 10 + (c - b'0') in
    let rest = scan_digits limit m s in if is_digit c && leb m limit then rest else none

abbrev skip_plus : Bytes → Bytes
skip_plus [] = []
skip_plus (c ∷ []) = c ∷ []
skip_plus (c ∷ d ∷ s) = if c == b'+' then d ∷ s else c ∷ d ∷ s

-- `s.parse::<u64>()` and the like: a sign `+` is allowed, and a value past the limit is an error
unfoldable pub parse_uint : ℕ → Bytes → Option ℕ
unfolding scan_digits
parse_uint limit s = if is_empty s then none else scan_digits limit 0 (skip_plus s)

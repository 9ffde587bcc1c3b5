-- ===== src/Proxy/Http.antt =====
-- What the handler uses of the crates `http` and `hyper`, as an interface with the documented
-- laws: header maps and status codes. A request is the values that its accessors return.
use squiddish.Prelude.{
  ℕ, ◌≤◌, ◌≡◌, ◌↔◌, Bool, true, Option, none, some, List, [], ◌∷◌, ◌++◌, if◌then◌else◌, All, leb,
  ◌&&◌,
}
use squiddish.Text.{Bytes, eq_ignore_ascii_case}

module _ {ℓ} {V : Type ℓ} where
  -- the values that a list of headers has for a name, in order
  abbrev pub values_of : Bytes → List (Bytes × V) → List V
  values_of name [] = []
  values_of name ((k, v) ∷ rest) =
      if eq_ignore_ascii_case k name then v ∷ values_of name rest else values_of name rest

  abbrev pub first : List V → Option V
  first [] = none
  first (v ∷ vs) = some v

-- what `HeaderValue::to_str` accepts
abbrev pub IsVisible : ℕ → Type 0
IsVisible c = (32 ≤ c) × (c ≤ 126)

-- `HeaderMap`, whose names are compared without regard to case, `HeaderValue` and `StatusCode`
pub record Http : Type 1 where
  pub Map : Type 0
  pub Value : Type 0
  pub get_all : Map → Bytes → List Value
  pub get : Map → Bytes → Option Value
  pub iter : Map → List (Bytes × Value)
  pub remove : Bytes → Map → Map
  pub append : Bytes → Value → Map → Map
  pub to_str : Value → Option Bytes
  pub from_static : Bytes → Value
  pub is_success : ℕ → Bool
  pub from_u16 : ℕ → Option ℕ
  pub get_lem : (h : Map) (m : Bytes) → get h m ≡ first (get_all h m)
  pub get_all-remove :
      (n m : Bytes) (h : Map)
      → get_all (remove n h) m ≡ (if eq_ignore_ascii_case n m then [] else get_all h m)
  pub get_all-append :
      (n m : Bytes) (v : Value) (h : Map)
      → get_all (append n v h) m
        ≡ (if eq_ignore_ascii_case n m then get_all h m ++ v ∷ [] else get_all h m)
  pub get_all-iter : (h : Map) (m : Bytes) → get_all h m ≡ values_of m (iter h)
  pub to_str-from_static : (s : Bytes) → All IsVisible s → to_str (from_static s) ≡ some s
  pub is_success_iff : (s : ℕ) → (is_success s ≡ true) ↔ ((200 ≤ s) × (s ≤ 299))
  pub from_u16_lem : (s : ℕ) → from_u16 s ≡ (if leb 100 s && leb s 999 then some s else none)

-- `Request<Incoming>`: `method().as_str()`, `uri().to_string()`, `uri().scheme().is_some()`,
-- `uri().host()`, `uri().authority()` and `headers()`
pub record Request (lib : Http) : Type 0 where
  pub method : Bytes
  pub uri : Bytes
  pub has_scheme : Bool
  pub uri_host : Option Bytes
  pub authority : Option Bytes
  pub headers : lib.Map

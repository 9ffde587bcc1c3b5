-- ===== src/Samples/Headers.antt =====
-- Header maps as lists of names and values.
use squiddish.Prelude.{
  ℕ, ◌≤◌, ◌≡◌, ◌↔◌, refl, sym, Bool, true, false, Option, none, some, List, [], ◌∷◌, ◌++◌, ◌&&◌,
  arith, All, leb, leb→le, le→leb, Bool-cases, inl, inr, if◌then◌else◌, and-true, ap,
}
use squiddish.Text.{Bytes, bytes_eq, eq_ignore_ascii_case, lowercase}
use squiddish.Text.Laws.{bytes_eq_sound}
use squiddish.Proxy.Http.{Http, values_of, first, IsVisible}

-- names with their values
abbrev pub Headers : Type 0
Headers = List (Bytes × Bytes)

abbrev pub without : Bytes → Headers → Headers
without name [] = []
without name ((k, v) ∷ rest) =
    let rest' = without name rest in if eq_ignore_ascii_case k name then rest' else (k, v) ∷ rest'

abbrev pub is_success : ℕ → Bool
is_success s = leb 200 s && leb s 299

abbrev pub visible : ℕ → Bool
visible c = leb 32 c && leb c 126

abbrev pub all_visible : Bytes → Bool
all_visible [] = true
all_visible (c ∷ s) = visible c && all_visible s

abbrev pub to_str : Bytes → Option Bytes
to_str s = if all_visible s then some s else none

pub all_visible_complete : (s : Bytes) → All IsVisible s → all_visible s ≡ true
all_visible_complete [] h = refl
all_visible_complete (c ∷ s) ((a, b), h) =
    rw (le→leb 32 c a, le→leb c 126 b, all_visible_complete s h)

pub values_of-append :
    (n m v : Bytes) (h : Headers)
    → values_of m (h ++ (n, v) ∷ [])
      ≡ (if eq_ignore_ascii_case n m then values_of m h ++ v ∷ [] else values_of m h)
values_of-append n m v [] = ground arith
values_of-append n m v ((k, x) ∷ h) = ground (arith, values_of-append n m v h)

alike :
    (k n m : Bytes)
    → eq_ignore_ascii_case k n ≡ true
    → eq_ignore_ascii_case k m ≡ eq_ignore_ascii_case n m
unfolding eq_ignore_ascii_case
alike k n m e = ap (λ s. bytes_eq s (lowercase m)) (bytes_eq_sound (lowercase k) (lowercase n) e)

unlike :
    (k n m : Bytes)
    → eq_ignore_ascii_case k n ≡ false
    → eq_ignore_ascii_case n m ≡ true
    → eq_ignore_ascii_case k m ≡ false
unfolding eq_ignore_ascii_case
unlike k n m other same = rw (sym (bytes_eq_sound (lowercase n) (lowercase m) same)) other

kept :
    (n m k x : Bytes) (h : Headers)
    → eq_ignore_ascii_case k n ≡ false
    → values_of m (without n h) ≡ (if eq_ignore_ascii_case n m then [] else values_of m h)
    → values_of m ((k, x) ∷ without n h)
      ≡ (if eq_ignore_ascii_case n m then [] else values_of m ((k, x) ∷ h))
kept n m k x h other rest = elim (Bool-cases (eq_ignore_ascii_case n m)) [
  | inl same ↦ rw (unlike k n m other same, same) (rw same at rest)
  | inr differ ↦ ground arith
]

pub values_of-without :
    (n m : Bytes) (h : Headers)
    → values_of m (without n h) ≡ (if eq_ignore_ascii_case n m then [] else values_of m h)
values_of-without n m [] = ground arith
values_of-without n m ((k, x) ∷ h) = elim (Bool-cases (eq_ignore_ascii_case k n)) [
  | inl same ↦ rw (same, alike k n m same, values_of-without n m h) (ground arith)
  | inr other ↦ rw other (kept n m k x h other (values_of-without n m h))
]

pub is_success_iff : (s : ℕ) → (is_success s ≡ true) ↔ ((200 ≤ s) × (s ≤ 299))
is_success_iff s = (
  λ e. let (a, b) = and-true _ _ e in (leb→le 200 s a, leb→le s 299 b),
  λ (a, b). rw (le→leb 200 s a, le→leb s 299 b),
)

abbrev pub headers_lib : Http
headers_lib = record {
  Map = Headers;
  Value = Bytes;
  get_all = λ h m. values_of m h;
  get = λ h m. first (values_of m h);
  iter = λ h. h;
  remove = without;
  append = λ n v h. h ++ (n, v) ∷ [];
  to_str = to_str;
  from_static = λ s. s;
  is_success = is_success;
  from_u16 = λ s. if leb 100 s && leb s 999 then some s else none;
  get_lem = λ h m. refl;
  get_all-remove = values_of-without;
  get_all-append = values_of-append;
  get_all-iter = λ h m. refl;
  to_str-from_static = λ s v. rw (all_visible_complete s v);
  is_success_iff = is_success_iff;
  from_u16_lem = λ s. refl;
}

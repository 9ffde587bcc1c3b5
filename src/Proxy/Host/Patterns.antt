-- ===== src/Proxy/Host/Patterns.antt =====
-- What `host_matches` decides: a host matches itself and its subdomains.
use squiddish.Prelude.{
  ℕ, zero, suc, ◌+◌, ◌-◌, ◌<◌, ◌≡◌, ◌↔◌, ◌⊎◌, inl, inr, refl, ap, ◌∙◌, true, some, [], ◌∷◌, ◌++◌,
  arith, ltb, length, drop, take, get_elem?, Option-cases, or-true, length-append, ltb→lt, lt→ltb,
}
use squiddish.Text.{Bytes, to_lower, lowercase, eq_ignore_ascii_case}
use squiddish.Text.Laws.{eq_ignore_iff}
use squiddish.Proxy.Host.{is_dot_at, stripped_matches, strip_host_port, host_matches}

-- The host is the pattern, or something, a dot and the pattern; the case of letters is ignored.
abbrev pub IsSelfOrSubdomain : Bytes → Bytes → Type 0
IsSelfOrSubdomain host pattern =
    (lowercase host ≡ lowercase pattern)
    ⊎ ((sub : Bytes) × (lowercase host ≡ sub ++ b'.' ∷ lowercase pattern))

to_lower_dot : (c : ℕ) → to_lower c ≡ b'.' → c ≡ b'.'
to_lower_dot c h = ground arith

-- a list is cut before and behind a position that it has
cut_at : (s : Bytes) (i c : ℕ) → get_elem? s i ≡ some c → s ≡ take i s ++ c ∷ drop (suc i) s
cut_at [] i c h = cc
cut_at (b ∷ s) zero c h = ground arith
cut_at (b ∷ s) (suc i) c h = ap (◌∷◌ b) (cut_at s i c h)

lowercase-append : (s t : Bytes) → lowercase (s ++ t) ≡ lowercase s ++ lowercase t
unfolding lowercase
lowercase-append [] t = refl
lowercase-append (c ∷ s) t = ap (◌∷◌ (to_lower c)) (lowercase-append s t)

length-lowercase : (s : Bytes) → length (lowercase s) ≡ length s
unfolding lowercase
length-lowercase [] = refl
length-lowercase (c ∷ s) = ap suc (length-lowercase s)

-- a text whose lower case ends in a dot and more is cut at that dot
uncut :
    (s sub t : Bytes)
    → lowercase s ≡ sub ++ b'.' ∷ t
    → (get_elem? s (length sub) ≡ some b'.') × (lowercase (drop (suc (length sub)) s) ≡ t)
unfolding lowercase
uncut [] [] t h = cc
uncut [] (d ∷ sub) t h = cc
uncut (c ∷ s) [] t h = (ap some (to_lower_dot c (ground arith)), ground arith)
uncut (c ∷ s) (d ∷ sub) t h = uncut s sub t (ground arith)

dotted_sound :
    (host pattern : Bytes)
    → length pattern < length host
    → eq_ignore_ascii_case (drop (length host - length pattern) host) pattern ≡ true
    → get_elem? host (length host - length pattern - 1) ≡ some b'.'
    → IsSelfOrSubdomain host pattern
unfolding lowercase
dotted_sound host pattern h suffix dot = inr (
  lowercase (take i host),
  ap lowercase (cut_at host i b'.' dot)
      ∙ lowercase-append (take i host) (b'.' ∷ drop (suc i) host)
      ∙ ap (λ t. lowercase (take i host) ++ t) tail_eq,
)
  where
    i : ℕ
    i = length host - length pattern - 1

    step : suc i ≡ length host - length pattern
    step = omega arith

    tail_eq : lowercase (b'.' ∷ drop (suc i) host) ≡ b'.' ∷ lowercase pattern
    tail_eq = ap (◌∷◌ b'.') (
        ap (λ n. lowercase (drop n host)) step
        ∙ (eq_ignore_iff (drop (length host - length pattern) host) pattern).0 suffix)

is_dot_sound : (host : Bytes) (i : ℕ) → is_dot_at host i ≡ true → get_elem? host i ≡ some b'.'
is_dot_sound host i h = elim (Option-cases (get_elem? host i)) [
  | inl e ↦ absurd (ground arith)
  | inr (b, e) ↦ ground arith
]

stripped_sound :
    (host pattern : Bytes) → stripped_matches host pattern ≡ true → IsSelfOrSubdomain host pattern
stripped_sound host pattern h = elim (or-true _ _ h) [
  | inl same ↦ inl ((eq_ignore_iff host pattern).0 same)
  | inr more ↦
      let short : ltb (length pattern) (length host) ≡ true = ground arith in
      let suffix : eq_ignore_ascii_case (drop (length host - length pattern) host) pattern ≡ true =
        ground arith in
      let dot : is_dot_at host (length host - length pattern - 1) ≡ true = ground arith in
      dotted_sound host pattern (ltb→lt _ _ short) suffix
        (is_dot_sound host (length host - length pattern - 1) dot)
]

stripped_complete :
    (host pattern : Bytes) → IsSelfOrSubdomain host pattern → stripped_matches host pattern ≡ true
stripped_complete host pattern (inl same) = rw ((eq_ignore_iff host pattern).1 same)
stripped_complete host pattern (inr (sub, e)) =
    let (dot, suffix) = uncut host sub (lowercase pattern) e in
    let total : length host ≡ suc (length sub) + length pattern = omega (
      arith,
      ap length e,
      length-append sub (b'.' ∷ lowercase pattern),
      length-lowercase host,
      length-lowercase pattern,
    ) in
    let at_suffix : length host - length pattern ≡ suc (length sub) = omega arith in
    let at_dot : length host - length pattern - 1 ≡ length sub = omega arith in
    let drops : eq_ignore_ascii_case (drop (length host - length pattern) host) pattern ≡ true =
      (eq_ignore_iff _ pattern).1 (ap (λ n. lowercase (drop n host)) at_suffix ∙ suffix) in
    let dots : is_dot_at host (length host - length pattern - 1) ≡ true =
      ap (is_dot_at host) at_dot ∙ rw dot in
    let short : ltb (length pattern) (length host) ≡ true =
      lt→ltb (length pattern) (length host) (omega arith) in
    ground (arith, short, drops, dots)

-- A host matches a pattern exactly when the host without its port is the pattern or ends in a dot
-- and the pattern, where upper and lower case are not told apart.
pub host_matches_iff :
    (host pattern : Bytes)
    → (host_matches host pattern ≡ true) ↔ IsSelfOrSubdomain (strip_host_port host) pattern
unfolding host_matches
host_matches_iff host pattern = (
  stripped_sound (strip_host_port host) pattern,
  stripped_complete (strip_host_port host) pattern,
)

-- ===== src/Proxy/Host/Targets.antt =====
-- The target of a CONNECT request is printed for the connection as it would be read.
use squiddish.Prelude.{
  ℕ, ◌≤◌, ◌≡◌, refl, Option, none, some, [], ◌∷◌, ◌++◌, arith, All, Option-cases, inl, inr,
  append_assoc,
}
use squiddish.Text.{Bytes, codes, strip_prefix, split_once, rsplit_once, parse_uint}
use squiddish.Text.Cuts.{
  Lacks, split_once-append, split_once_sound, rsplit_once-append, rsplit_once_sound,
}
use squiddish.Text.Decimal.{
  print_uint, IsDigit, print_uint-IsDigit, parse_uint-print_uint, parse_uint-le,
}
use squiddish.Error.{ok, >>=-eq-ok}
use squiddish.Proxy.Host.{
  u16_max, parse_port, bracket_port, parse_bracketed, parse_plain, parse_connect_uri, target_addr,
}

digits-Lacks : (c : ℕ) (s : Bytes) → (IsDigit c → ⊥) → All IsDigit s → Lacks c s
digits-Lacks c [] h _ = tt
digits-Lacks c (d ∷ s) h (hd, hs) = (λ e. h (ground arith), digits-Lacks c s h hs)

print_uint-Lacks : (n : ℕ) → Lacks b':' (print_uint n)
print_uint-Lacks n = digits-Lacks b':' (print_uint n) (λ d. omega arith) (print_uint-IsDigit n)

parse_port-print_uint : (p : ℕ) → p ≤ u16_max → parse_port (print_uint p) ≡ ok p
unfolding parse_port
parse_port-print_uint p h = rw (parse_uint-print_uint u16_max p h)

parse_port-le : (s : Bytes) {p : ℕ} → parse_port s ≡ ok p → p ≤ u16_max
unfolding parse_port
parse_port-le s {p} h = elim (Option-cases (parse_uint u16_max s)) [
  | inl e ↦ absurd (ground arith)
  | inr (v, e) ↦ parse_uint-le u16_max s (ground (arith, e))
]

-- a plain host, printed with a port, is read as that host and port
read_plain :
    (host : Bytes) (p : ℕ)
    → strip_prefix (codes "[") (target_addr host p) ≡ none
    → p ≤ u16_max
    → parse_connect_uri (some (target_addr host p)) ≡ ok (host, p)
unfolding parse_connect_uri
read_plain host p bare h = rw bare (
    unfold target_addr parse_plain in
    rw (
      append_assoc host (b':' ∷ []) (print_uint p),
      rsplit_once-append b':' host (print_uint p) (print_uint-Lacks p),
      parse_port-print_uint p h,
    ))

read_bracketed :
    (ipv6 : Bytes) (p : ℕ)
    → Lacks b']' ipv6
    → p ≤ u16_max
    → parse_connect_uri (some (target_addr (codes "[" ++ ipv6 ++ codes "]") p))
      ≡ ok (codes "[" ++ ipv6 ++ codes "]", p)
unfolding parse_connect_uri target_addr strip_prefix parse_bracketed bracket_port
read_bracketed ipv6 p h fits = rw (
  append_assoc (ipv6 ++ b']' ∷ []) (b':' ∷ []) (print_uint p),
  append_assoc ipv6 (b']' ∷ []) (b':' ∷ print_uint p),
  split_once-append b']' ipv6 (b':' ∷ print_uint p) h,
  parse_port-print_uint p fits,
)

-- What is read of an authority: the port is a `u16`, and the host can be read again.
abbrev Rereads : Bytes → ℕ → Type 0
Rereads host p = (p ≤ u16_max) × (parse_connect_uri (some (target_addr host p)) ≡ ok (host, p))

bare-append :
    (s u : Bytes)
    → strip_prefix (codes "[") s ≡ none
    → strip_prefix (codes "[") (s ++ b':' ∷ u) ≡ none
unfolding strip_prefix
bare-append [] u h = refl
bare-append (c ∷ s) u h = ground arith

bare-left :
    (a b : Bytes)
    → strip_prefix (codes "[") (a ++ b':' ∷ b) ≡ none
    → strip_prefix (codes "[") a ≡ none
unfolding strip_prefix
bare-left [] b h = refl
bare-left (c ∷ a) b h = ground arith

bare-Rereads :
    (host : Bytes) (p : ℕ) → strip_prefix (codes "[") host ≡ none → p ≤ u16_max → Rereads host p
bare-Rereads host p bare fits = (fits, read_plain host p bare_print fits)
  where
    bare_print : strip_prefix (codes "[") (target_addr host p) ≡ none
    bare_print =
        unfold target_addr in
        rw (append_assoc host (codes ":") (print_uint p)) (bare-append host (print_uint p) bare)

bracket_port-le : (o : Option Bytes) {p : ℕ} → bracket_port o ≡ ok p → p ≤ u16_max
unfolding bracket_port
bracket_port-le none {p} h = ground arith
bracket_port-le (some s) {p} h = parse_port-le s h

bracketed-Rereads :
    (s : Option (Bytes × Bytes)) (rest : Bytes) {host : Bytes} {p : ℕ}
    → split_once b']' rest ≡ s
    → parse_bracketed s ≡ ok (host, p)
    → Rereads host p
unfolding parse_bracketed
bracketed-Rereads none rest e h = absurd (cc)
bracketed-Rereads (some (ipv6, after)) rest {host} {p} e h =
    let (q, read, eq) = >>=-eq-ok (bracket_port (strip_prefix (codes ":") after)) _ h in
    let fits : q ≤ u16_max = bracket_port-le (strip_prefix (codes ":") after) read in
    let eh : host ≡ codes "[" ++ ipv6 ++ codes "]" = ground arith in
    let ep : p ≡ q = ground arith in
    rw (eh, ep) (fits, read_bracketed ipv6 q (split_once_sound b']' rest ipv6 after e).1 fits)

plain-Rereads :
    (s : Option (Bytes × Bytes)) (host_port : Bytes) {host : Bytes} {p : ℕ}
    → strip_prefix (codes "[") host_port ≡ none
    → rsplit_once b':' host_port ≡ s
    → parse_plain host_port s ≡ ok (host, p)
    → Rereads host p
unfolding parse_plain
plain-Rereads none host_port {host} {p} bare e h =
    let eh : host ≡ host_port = ground arith in
    let ep : p ≡ 443 = ground arith in rw (eh, ep) (bare-Rereads host_port 443 bare (omega arith))
plain-Rereads (some (a, b)) host_port {host} {p} bare e h =
    let (q, read, eq) = >>=-eq-ok (parse_port b) _ h in
    let eh : host ≡ a = ground arith in
    let ep : p ≡ q = ground arith in
    let whole : strip_prefix (codes "[") (a ++ b':' ∷ b) ≡ none =
      rw ((rsplit_once_sound b':' host_port a b e).0) at bare in
    rw (eh, ep) (bare-Rereads a q (bare-left a b whole) (parse_port-le b read))

-- If the authority of a CONNECT request is read as a host and a port, then the port fits a `u16`,
-- and the address that is printed for the connection is read as that host and that port again.
pub parse_connect_uri-target_addr :
    (authority : Option Bytes) (host : Bytes) (p : ℕ)
    → parse_connect_uri authority ≡ ok (host, p)
    → (p ≤ u16_max) × (parse_connect_uri (some (target_addr host p)) ≡ ok (host, p))
parse_connect_uri-target_addr none host p h = absurd (unfold parse_connect_uri in cc)
parse_connect_uri-target_addr (some s) host p h = elim (Option-cases (strip_prefix (codes "[") s)) [
  | inl bare ↦
      plain-Rereads (rsplit_once b':' s) s bare refl (unfold parse_connect_uri in rw bare at h)
  | inr (rest, e) ↦
      bracketed-Rereads (split_once b']' rest) rest refl (unfold parse_connect_uri in rw e at h)
]

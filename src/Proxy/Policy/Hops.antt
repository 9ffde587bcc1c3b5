-- ===== src/Proxy/Policy/Hops.antt =====
-- What `filter_headers` takes out and what it leaves, and how a request that comes back is known.
use squiddish.Prelude.{
  ◌≡◌, refl, ap, ◌∙◌, Bool, true, ◌||◌, Option, none, some, List, [], ◌∷◌, ◌++◌, any, arith,
  if◌then◌else◌,
}
use squiddish.Text.{Bytes, codes, eq_ignore_ascii_case, lowercase, trim, split}
use squiddish.Text.Laws.{lowercase_idem}
use squiddish.Proxy.Http.{Http}
use squiddish.Proxy.Policy.{
  any_part, any_directive, has_via_loop, pseudonym, listed_parts, listed_names, extra_hop_by_hop,
  hop_by_hop, remove_names, filter_headers, forward_headers,
}
use squiddish.Proxy.Policy.Tokens.{any-append, parts_of, all_parts}

-- the name is one of those listed
abbrev pub is_listed : List Bytes → Bytes → Bool
is_listed names m = any (λ n. eq_ignore_ascii_case n m) names

-- the hop-by-hop headers of RFC 7230
abbrev pub standard_names : List Bytes
standard_names =
    codes "connection"
    ∷ codes "keep-alive"
    ∷ codes "proxy-authenticate"
    ∷ codes "proxy-authorization"
    ∷ codes "te"
    ∷ codes "trailers"
    ∷ codes "transfer-encoding"
    ∷ codes "upgrade"
    ∷ []

eq_ignore-lowercase :
    (s t : Bytes) → eq_ignore_ascii_case (lowercase s) t ≡ eq_ignore_ascii_case s t
unfolding eq_ignore_ascii_case
eq_ignore-lowercase s t = rw (lowercase_idem s)

module _ (lib : Http) where
  open lib use {Map, Value, get_all, get_all-remove, get_all-append}

  get_all-remove_names :
      (names : List Bytes) (h : Map) (m : Bytes)
      → get_all (remove_names lib names h) m ≡ (if is_listed names m then [] else get_all h m)
  unfolding remove_names
  get_all-remove_names [] h m = refl
  get_all-remove_names (n ∷ ns) h m =
      get_all-remove_names ns (lib.remove n h) m ∙ rw (get_all-remove n m h) (ground arith)

  -- The name is, with the case of letters ignored, one that the standard lists, or a part between
  -- the commas of a readable value of Connection, without the spaces around it.
  abbrev pub is_dropped : Map → Bytes → Bool
  is_dropped h m =
      is_listed standard_names m
      || any (λ part. eq_ignore_ascii_case (trim part) m)
          (all_parts lib (get_all h (codes "connection")))

  listed_parts-is_listed :
      (m : Bytes) (parts : List Bytes)
      → is_listed (listed_parts lib parts) m
        ≡ any (λ part. eq_ignore_ascii_case (trim part) m) parts
  unfolding listed_parts
  listed_parts-is_listed m [] = refl
  listed_parts-is_listed m (p ∷ ps) =
      rw (eq_ignore-lowercase (trim p) m, listed_parts-is_listed m ps) refl

  parts-is_listed :
      (m : Bytes) (o : Option Bytes)
      → is_listed (listed_names lib o) m
        ≡ any (λ part. eq_ignore_ascii_case (trim part) m) (parts_of o)
  unfolding listed_names
  parts-is_listed m none = refl
  parts-is_listed m (some value) = listed_parts-is_listed m (split b',' value)

  extra-is_listed :
      (m : Bytes) (vs : List Value)
      → is_listed (extra_hop_by_hop lib vs) m
        ≡ any (λ part. eq_ignore_ascii_case (trim part) m) (all_parts lib vs)
  unfolding extra_hop_by_hop
  extra-is_listed m [] = refl
  extra-is_listed m (v ∷ vs) = rw (
    any-append (λ n. eq_ignore_ascii_case n m) (listed_names lib (lib.to_str v))
        (extra_hop_by_hop lib vs),
    any-append (λ part. eq_ignore_ascii_case (trim part) m) (parts_of (lib.to_str v))
        (all_parts lib vs),
    parts-is_listed m (lib.to_str v),
    extra-is_listed m vs,
  )

  -- A filtered header map has no value for `connection`, `keep-alive`, `proxy-authenticate`,
  -- `proxy-authorization`, `te`, `trailers`, `transfer-encoding` and `upgrade`, and none for a
  -- name that stands, without the spaces around it, between the commas of any readable Connection
  -- value of the unfiltered map, all with the case of letters ignored. For every other name it
  -- has the values of the unfiltered map, in their order.
  pub get_all-filter_headers :
      (h : Map) (m : Bytes)
      → get_all (filter_headers lib h) m ≡ (if is_dropped h m then [] else get_all h m)
  unfolding filter_headers
  get_all-filter_headers h m =
      let extra = extra_hop_by_hop lib (get_all h (codes "connection")) in
      get_all-remove_names hop_by_hop (remove_names lib extra h) m
      ∙ rw (get_all-remove_names extra h m, extra-is_listed m (get_all h (codes "connection")))
          (ground arith)

  ends_in_loop :
      (vs : List Value)
      → any_directive lib
          (λ entry. eq_ignore_ascii_case (trim entry) pseudonym)
          (vs ++ lib.from_static pseudonym ∷ [])
        ≡ true
  unfolding any_directive any_part eq_ignore_ascii_case trim split
  ends_in_loop [] = rw (lib.to_str-from_static pseudonym (omega arith))
  ends_in_loop (v ∷ vs) = ground (arith, ends_in_loop vs)

  Via-append :
      (v : Value) (h : Map)
      → get_all (lib.append (codes "via") v h) (codes "via") ≡ get_all h (codes "via") ++ v ∷ []
  unfolding eq_ignore_ascii_case
  Via-append v h = get_all-append (codes "via") (codes "via") v h

  -- A request that the proxy has forwarded, with its headers filtered and its own Via value added,
  -- is known as a loop when it reaches the proxy again.
  pub has_via_loop-forward_headers : (h : Map) → has_via_loop lib (forward_headers lib h) ≡ true
  unfolding has_via_loop forward_headers
  has_via_loop-forward_headers h =
      ap (any_directive lib (λ entry. eq_ignore_ascii_case (trim entry) pseudonym))
        (Via-append (lib.from_static pseudonym) (filter_headers lib h))
      ∙ ends_in_loop (get_all (filter_headers lib h) (codes "via"))

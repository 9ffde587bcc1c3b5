-- ===== src/Proxy/Handler/Escape.antt =====
-- The five replacements of `html_escape` are one pass.
use squiddish.Prelude.{
  append_assoc, ℕ, ◌≡◌, refl, sym, ◌∙◌, [], ◌∷◌, ◌++◌, ◌==◌, if◌then◌else◌, arith, Bool-cases, inl,
  inr,
}
use squiddish.Text.{Bytes, codes}
use squiddish.Proxy.Handler.{replace, html_escape}

-- the text that stands for a byte
abbrev pub escaped : ℕ → Bytes
escaped c =
    if c == 38
    then codes "&amp;"
    else if c == 60
    then codes "&lt;"
    else if c == 62
    then codes "&gt;"
    else if c == 34
    then codes "&quot;"
    else if c == 39
    then codes "&#x27;"
    else c ∷ []

abbrev pub escape_each : Bytes → Bytes
escape_each [] = []
escape_each (c ∷ s) = escaped c ++ escape_each s

replace-append : (c : ℕ) (by s t : Bytes) → replace c by (s ++ t) ≡ replace c by s ++ replace c by t
unfolding replace
replace-append c by [] t = refl
replace-append c by (x ∷ s) t = elim (Bool-cases (x == c)) [
  | inl same ↦
      rw (same, replace-append c by s t) (sym (append_assoc by (replace c by s) (replace c by t)))
  | inr other ↦ rw (other, replace-append c by s t) refl
]

html_escape-append : (s t : Bytes) → html_escape (s ++ t) ≡ html_escape s ++ html_escape t
unfolding html_escape
html_escape-append s t =
    rw (replace-append, replace-append, replace-append, replace-append, replace-append) refl

html_escape-byte : (c : ℕ) → html_escape (c ∷ []) ≡ escaped c
unfolding html_escape replace
html_escape-byte c = ground arith

-- The escaped text is the text with each byte replaced on its own, so no replacement is replaced
-- again.
pub html_escape-escape_each : (s : Bytes) → html_escape s ≡ escape_each s
html_escape-escape_each [] = unfold html_escape replace in refl
html_escape-escape_each (c ∷ s) =
    html_escape-append (c ∷ []) s ∙ rw (html_escape-byte c, html_escape-escape_each s) refl

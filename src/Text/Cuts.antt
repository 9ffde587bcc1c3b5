-- ===== src/Text/Cuts.antt =====
-- Laws of `split_once`, `rsplit_once`, and `split`.
use squiddish.Prelude.{
  ℕ, ◌≡◌, ◌≢◌, refl, none, some, [], ◌∷◌, ◌++◌, arith, All, Option-cases, inl, inr,
}
use squiddish.Text.{Bytes, split_once, rsplit_once}

abbrev pub Lacks : ℕ → Bytes → Type 0
Lacks c = All (λ d. d ≢ c)

pub split_once-append :
    (sep : ℕ) (a b : Bytes) → Lacks sep a → split_once sep (a ++ sep ∷ b) ≡ some (a, b)
unfolding split_once
split_once-append sep [] b h = ground arith
split_once-append sep (c ∷ a) b (hc, h) = ground (arith, split_once-append sep a b h)

pub split_once-none : (sep : ℕ) (s : Bytes) → Lacks sep s → split_once sep s ≡ none
unfolding split_once
split_once-none sep [] h = refl
split_once-none sep (c ∷ s) (hc, h) = ground (arith, split_once-none sep s h)

pub split_once_sound :
    (sep : ℕ) (s a b : Bytes) → split_once sep s ≡ some (a, b) → (s ≡ a ++ sep ∷ b) × Lacks sep a
unfolding split_once
split_once_sound sep [] a b h = cc
split_once_sound sep (c ∷ s) [] b h = elim (Option-cases (split_once sep s)) [
  | inl e ↦ ground arith
  | inr (v, e) ↦ ground arith
]
split_once_sound sep (c ∷ s) (d ∷ a) b h = elim (Option-cases (split_once sep s)) [
  | inl e ↦ absurd (ground arith)
  | inr ((a', b'), e) ↦ ground (arith, split_once_sound sep s a' b' e, split_once_sound sep s a b)
]

pub rsplit_once-none : (sep : ℕ) (s : Bytes) → Lacks sep s → rsplit_once sep s ≡ none
unfolding rsplit_once
rsplit_once-none sep [] h = refl
rsplit_once-none sep (c ∷ s) (hc, h) = ground (arith, rsplit_once-none sep s h)

pub Lacks-rsplit_once : (sep : ℕ) (s : Bytes) → rsplit_once sep s ≡ none → Lacks sep s
unfolding rsplit_once
Lacks-rsplit_once sep [] h = tt
Lacks-rsplit_once sep (c ∷ s) h = elim (Option-cases (rsplit_once sep s)) [
  | inl e ↦ (ground arith, Lacks-rsplit_once sep s e)
  | inr (v, e) ↦ absurd (ground arith)
]

pub rsplit_once-append :
    (sep : ℕ) (a b : Bytes) → Lacks sep b → rsplit_once sep (a ++ sep ∷ b) ≡ some (a, b)
unfolding rsplit_once
rsplit_once-append sep [] b h = ground (arith, rsplit_once-none sep b h)
rsplit_once-append sep (c ∷ a) b h = ground (arith, rsplit_once-append sep a b h)

pub rsplit_once_sound :
    (sep : ℕ) (s a b : Bytes) → rsplit_once sep s ≡ some (a, b) → (s ≡ a ++ sep ∷ b) × Lacks sep b
unfolding rsplit_once
rsplit_once_sound sep [] a b h = cc
rsplit_once_sound sep (c ∷ s) a b h = elim (Option-cases (rsplit_once sep s)) [
  | inl e ↦ ground (arith, Lacks-rsplit_once sep s e)
  | inr ((a', b'), e) ↦ ground (arith, rsplit_once_sound sep s a' b' e)
]

-- ===== src/Cache/Disk/Fifo.antt =====
-- What the disk cache promises: a queue of entries with different hashes, oldest first. `put` may
-- drop the oldest ones and stores its entry as the newest.
pub mod Calls
pub mod Refines
use squiddish.Prelude.{
  ℕ, zero, suc, ◌≡◌, ◌≢◌, refl, sym, ap, ◌∙◌, true, false, Option, none, some, List, [], ◌∷◌, ◌++◌,
  map, length, drop, Bool-cases, inl, inr, if◌then◌else◌,
}
use squiddish.Text.{Bytes, bytes_eq}
use squiddish.Text.Laws.{bytes_eq_sound, bytes_eq_refl}
use squiddish.Cache.{CacheEntry}
use squiddish.Cache.Disk.State.{retain_ne}
use squiddish.Cache.Disk.Tracking.{Misses}

abbrev pub Fifo : Type 0
Fifo = List (Bytes × CacheEntry)

abbrev pub hashes : Fifo → List Bytes
hashes [] = []
hashes ((k, e) ∷ q) = k ∷ hashes q

abbrev pub lookup : Bytes → Fifo → Option CacheEntry
lookup h [] = none
lookup h ((k, e) ∷ q) = if bytes_eq k h then some e else lookup h q

abbrev pub delete : Bytes → Fifo → Fifo
delete h [] = []
delete h ((k, e) ∷ q) = if bytes_eq k h then delete h q else (k, e) ∷ delete h q

-- the queue behind a `put` that has dropped the `n` oldest entries
abbrev pub insert : ℕ → Bytes → CacheEntry → Fifo → Fifo
insert n h entry q = delete h (drop n q) ++ (h, entry) ∷ []

differ : (k j : Bytes) → k ≢ j → bytes_eq k j ≡ false
differ k j ne = elim (Bool-cases (bytes_eq k j)) [
  | inl same ↦ absurd (ne (bytes_eq_sound k j same))
  | inr other ↦ other
]

pub hashes-append : (q p : Fifo) → hashes (q ++ p) ≡ hashes q ++ hashes p
hashes-append [] p = refl
hashes-append ((k, e) ∷ q) p = ap (◌∷◌ k) (hashes-append q p)

pub hashes-delete : (h : Bytes) (q : Fifo) → hashes (delete h q) ≡ retain_ne h (hashes q)
unfolding retain_ne
hashes-delete h [] = refl
hashes-delete h ((k, e) ∷ q) = elim (Bool-cases (bytes_eq k h)) [
  | inl same ↦ rw same (hashes-delete h q)
  | inr other ↦ rw other (ap (◌∷◌ k) (hashes-delete h q))
]

pub lookup-delete_self : (h : Bytes) (q : Fifo) → lookup h (delete h q) ≡ none
lookup-delete_self h [] = refl
lookup-delete_self h ((k, e) ∷ q) = elim (Bool-cases (bytes_eq k h)) [
  | inl same ↦ rw same (lookup-delete_self h q)
  | inr other ↦ rw (other, other) (lookup-delete_self h q)
]

pub lookup-delete_ne : (h k : Bytes) (q : Fifo) → h ≢ k → lookup k (delete h q) ≡ lookup k q
lookup-delete_ne h k [] ne = refl
lookup-delete_ne h k ((j, e) ∷ q) ne = elim (Bool-cases (bytes_eq j h)) [
  | inl same ↦
      let other : bytes_eq j k ≡ false = differ j k (λ p. ne (sym (bytes_eq_sound j h same) ∙ p)) in
      rw (same, other) (lookup-delete_ne h k q ne)
  | inr other ↦ rw (other, lookup-delete_ne h k q ne) refl
]

pub lookup-append_none :
    (h : Bytes) (q p : Fifo) → lookup h q ≡ none → lookup h (q ++ p) ≡ lookup h p
lookup-append_none h [] p m = refl
lookup-append_none h ((k, e) ∷ q) p m = elim (Bool-cases (bytes_eq k h)) [
  | inl same ↦ absurd (cc (rw same at m))
  | inr other ↦ rw other (lookup-append_none h q p (rw other at m))
]

pub lookup-snoc_ne :
    (h k : Bytes) (entry : CacheEntry) (q : Fifo)
    → h ≢ k
    → lookup k (q ++ (h, entry) ∷ []) ≡ lookup k q
lookup-snoc_ne h k entry [] ne = rw (differ h k ne)
lookup-snoc_ne h k entry ((j, e) ∷ q) ne = rw (lookup-snoc_ne h k entry q ne) refl

pub lookup-Misses : (h : Bytes) (q : Fifo) → Misses h (hashes q) → lookup h q ≡ none
lookup-Misses h [] m = refl
lookup-Misses h ((k, e) ∷ q) (ne, m) = rw (differ k h (λ p. ne (sym p))) (lookup-Misses h q m)

-- where the queue is that of two parts of an order, the second part is what a drop leaves
pub hashes-drop :
    (gone left : List Bytes) (q : Fifo)
    → hashes q ≡ gone ++ left
    → hashes (drop (length gone) q) ≡ left
hashes-drop [] left q h = h
hashes-drop (g ∷ gone) left [] h = absurd cc
hashes-drop (g ∷ gone) left ((k, e) ∷ q) h = hashes-drop gone left q (cc h)

pub lookup-drop :
    (h : Bytes) (gone left : List Bytes) (q : Fifo)
    → hashes q ≡ gone ++ left
    → Misses h gone
    → lookup h (drop (length gone) q) ≡ lookup h q
lookup-drop h [] left q e m = refl
lookup-drop h (g ∷ gone) left [] e m = absurd cc
lookup-drop h (g ∷ gone) left ((k, x) ∷ q) e (ne, m) =
    let same : k ≡ g = cc in
    let tails : hashes q ≡ gone ++ left = cc in
    rw (differ k h (λ p. ne (sym p ∙ same))) (lookup-drop h gone left q tails m)

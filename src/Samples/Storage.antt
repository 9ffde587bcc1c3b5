-- ===== src/Samples/Storage.antt =====
-- A file system that is a function from paths to contents, and digests and JSON of few bytes.
use squiddish.Prelude.{
  ℕ, zero, suc, ◌+◌, ◌*◌, ◌/◌, ◌%◌, ◌<◌, ◌≡◌, ◌≢◌, refl, sym, ap, ◌∙◌, Bool, true, false, Option,
  none, some, List, [], ◌∷◌, ◌&&◌, arith, All, Bool-cases, inl, inr, if◌then◌else◌, and-true,
  length,
}
use squiddish.Text.{Bytes, codes, bytes_eq}
use squiddish.Text.Laws.{bytes_eq_sound, bytes_eq_refl}
use squiddish.Error.{IoError, not_found, other}
use squiddish.Cache.Key.{FilePath, IsHex, Digests}
use squiddish.Cache.Files.{
  Attempt, done, failed, FileSystem, Faultless, len?, DiskCacheMetadata, Json,
}

abbrev pub path_eq : FilePath → FilePath → Bool
path_eq [] [] = true
path_eq (a ∷ p) (b ∷ q) = bytes_eq a b && path_eq p q
path_eq _ _ = false

path_eq_refl : (p : FilePath) → path_eq p p ≡ true
path_eq_refl [] = refl
path_eq_refl (a ∷ p) = rw (bytes_eq_refl a, path_eq_refl p)

path_eq_sound : (p q : FilePath) → path_eq p q ≡ true → p ≡ q
path_eq_sound [] [] e = refl
path_eq_sound [] (b ∷ q) e = cc
path_eq_sound (a ∷ p) [] e = cc
path_eq_sound (a ∷ p) (b ∷ q) e =
    let (x, y) = and-true _ _ e in λ i. bytes_eq_sound a b x i ∷ path_eq_sound p q y i

path_eq-false : (p q : FilePath) → p ≢ q → path_eq p q ≡ false
path_eq-false p q ne = elim (Bool-cases (path_eq p q)) [
  | inl same ↦ absurd (ne (path_eq_sound p q same))
  | inr differ ↦ differ
]

abbrev pub Disk : Type 0
Disk = FilePath → Option Bytes

abbrev pub set : FilePath → Option Bytes → Disk → Disk
set p b w q = if path_eq p q then b else w q

pub set_self : (p : FilePath) (b : Option Bytes) (w : Disk) → set p b w p ≡ b
set_self p b w = rw (path_eq_refl p)

pub set_ne : (p q : FilePath) (b : Option Bytes) (w : Disk) → p ≢ q → set p b w q ≡ w q
set_ne p q b w ne = rw (path_eq-false p q ne)

abbrev pub absent : IoError
absent = record { kind = not_found; message = codes "No such file or directory" }

abbrev pub attempt : Option Bytes → FilePath → Attempt IoError FilePath
attempt none p = failed absent
attempt (some b) p = done p

abbrev pub contents : Option Bytes → Attempt IoError Bytes
contents none = failed absent
contents (some b) = done b

pub opens-absent :
    (o : Option Bytes) (p : FilePath)
    → o ≡ none
    → (e : IoError) × (attempt o p ≡ failed e) × (e.kind ≡ not_found)
opens-absent o p h = rw h (absent, refl, refl)

pub opens-present :
    (w : Disk) (p : FilePath) (b : Bytes)
    → w p ≡ some b
    → (f : FilePath) × (attempt (w p) p ≡ done f) × (contents (w f) ≡ done b)
opens-present w p b h = (p, rw h refl, rw h refl)

pub writes :
    (w w₁ w₂ w₃ : Disk) (p f : FilePath) (b : Bytes)
    → Path (Attempt IoError FilePath × Disk) (done p, set p (some []) w) (done f, w₁)
    → Path (Attempt IoError (Unit {0}) × Disk) (done tt, set f (some b) w₁) (done tt, w₂)
    → Path (Attempt IoError (Unit {0}) × Disk) (done tt, w₂) (done tt, w₃)
    → (w₃ p ≡ some b) × ((q : FilePath) → p ≢ q → w₃ q ≡ w q)
writes w w₁ w₂ w₃ p f b c x e =
    let same : p ≡ f = cc in
    rw (sym (ap (λ r. r.1) e), sym (ap (λ r. r.1) x), sym same, sym (ap (λ r. r.1) c))
      (
        set_self p (some b) (set p (some []) w),
        λ q ne. set_ne p q (some b) (set p (some []) w) ne ∙ set_ne p q (some []) w ne,
      )

pub done-ne-failed : {e : IoError} → Path (Attempt IoError (Unit {0})) (done tt) (failed e) → ⊥
done-ne-failed h = cc

pub removes_file :
    (w w' : Disk) (p : FilePath)
    → Path (Attempt IoError (Unit {0}) × Disk) (done tt, set p none w) (done tt, w')
    → w' p ≡ none
removes_file w w' p h = rw (sym (ap (λ r. r.1) h)) (set_self p none w)

abbrev pub files_lib : FileSystem
files_lib = record {
  World = Disk;
  Handle = FilePath;
  content = λ w p. w p;
  metadata_len = λ w p. len? (w p);
  remove_file = λ p w. (done tt, set p none w);
  create_dir_all = λ p w. (done tt, w);
  create = λ p w. (done p, set p (some []) w);
  write_all = λ p b w. (done tt, set p (some b) w);
  flush = λ p w. (done tt, w);
  open_file = λ p w. attempt (w p) p;
  read_to_end = λ p w. contents (w p);
  metadata_len-absent = λ w p h. ap len? h;
  metadata_len-content = λ w p n h. h;
  content-remove_done = removes_file;
  content-remove_failed = λ w w' p e h. absurd (done-ne-failed (ap (λ r. r.0) h));
  content-remove_ne = λ w p q ne. set_ne p q none w ne;
  content-create_dir_all = λ w p q. refl;
  content-write = writes;
  open-absent = λ w p h. opens-absent (w p) p h;
  open-present = opens-present;
}

instance abbrev pub faultless_lib : Faultless files_lib
faultless_lib = record {
  measures = λ w p b h. ap len? h;
  removes = λ w p b h. (set p none w, refl);
}

abbrev pub denied : IoError
denied = record { kind = other; message = codes "Permission denied" }

-- the file system of which no file can be removed
abbrev pub locked_lib : FileSystem
locked_lib = record files_lib {
  remove_file = λ p w. (failed denied, w);
  content-remove_done = λ w w' p h. absurd (done-ne-failed (sym (ap (λ r. r.0) h)));
  content-remove_failed = λ w w' p e h. ap (λ r. r.1 p) (sym h);
  content-remove_ne = λ w p q ne. refl;
}

-- as many bytes as asked, with zeros behind a short text
abbrev pub padded : ℕ → Bytes → Bytes
padded zero s = []
padded (suc n) [] = 0 ∷ padded n []
padded (suc n) (c ∷ s) = c ∷ padded n s

pub length-padded : (n : ℕ) (s : Bytes) → length (padded n s) ≡ n
length-padded zero s = refl
length-padded (suc n) [] = ap suc (length-padded n [])
length-padded (suc n) (c ∷ s) = ap suc (length-padded n s)

-- bytes as digits from 0 to 7, two for each
abbrev pub octal : Bytes → Bytes
octal [] = []
octal (c ∷ s) = (48 + c / 8 % 8) ∷ (48 + c % 8) ∷ octal s

pub length-octal : (s : Bytes) → length (octal s) ≡ 2 * length s
length-octal [] = refl
length-octal (c ∷ s) = omega (arith, length-octal s)

pub octal-IsHex : (s : Bytes) → All IsHex (octal s)
octal-IsHex [] = tt
octal-IsHex (c ∷ s) =
    (inl (omega arith, omega arith), (inl (omega arith, omega arith), octal-IsHex s))

abbrev pub digests_lib : Digests
digests_lib = record {
  sha256 = padded 32;
  hex_encode = octal;
  length-sha256 = length-padded 32;
  length-hex_encode = length-octal;
  hex_encode-IsHex = octal-IsHex;
}

-- only metadata without headers can be written
abbrev pub numbers : DiskCacheMetadata → List (Bytes × Bytes) → Attempt Bytes Bytes
numbers m [] = done (m.status ∷ m.timestamp ∷ m.ttl_seconds ∷ m.data_size ∷ [])
numbers m (h ∷ hs) = failed (codes "headers")

abbrev pub read_numbers : Bytes → Attempt Bytes DiskCacheMetadata
read_numbers (a ∷ b ∷ c ∷ d ∷ []) =
    done (record { headers = []; status = a; timestamp = b; ttl_seconds = c; data_size = d })
read_numbers _ = failed (codes "expected four numbers")

pub read_numbers-numbers :
    (m : DiskCacheMetadata) (hs : List (Bytes × Bytes)) (b : Bytes)
    → m.headers ≡ hs
    → numbers m hs ≡ done b
    → (read_numbers b ≡ done m) × (0 < length b)
read_numbers-numbers m [] b e h =
    let written : b ≡ m.status ∷ m.timestamp ∷ m.ttl_seconds ∷ m.data_size ∷ [] = cc in
    rw written (ap (λ hs. done (record m { headers = hs })) (sym e), omega arith)
read_numbers-numbers m (x ∷ hs) b e h = absurd cc

abbrev pub json_lib : Json
json_lib = record {
  to_vec = λ m. numbers m m.headers;
  from_slice = read_numbers;
  from_slice-to_vec = λ m b h. (read_numbers-numbers m m.headers b refl h).0;
  to_vec-pos = λ m b h. (read_numbers-numbers m m.headers b refl h).1;
}

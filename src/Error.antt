-- ===== src/Error.antt =====
-- src/error.rs: the errors of the proxy and their messages.
use squiddish.Prelude.{◌++◌, ◌≡◌, refl}
use squiddish.Text.{Bytes, codes}

-- `std::io::ErrorKind`, as far as the program tells kinds apart
pub data ErrorKind : Type 0 where
  not_found timed_out other unlisted : ErrorKind

-- `std::io::Error`: its kind, and what its `Display` prints
pub record IoError : Type 0 where
  pub kind : ErrorKind
  pub message : Bytes

-- The errors of `hyper` and `http` come with what their `Display` prints.
pub data ProxyError : Type 0 where
  io : IoError → ProxyError
  http hyper hyper_util invalid_uri cache tunnel validation_failed dns_error network :
      Bytes → ProxyError

unfoldable pub to_string : ProxyError → Bytes
to_string (io e) = codes "IO error: " ++ e.message
to_string (http e) = codes "HTTP error: " ++ e
to_string (hyper e) = codes "Hyper error: " ++ e
to_string (hyper_util e) = codes "Hyper util error: " ++ e
to_string (invalid_uri e) = codes "Invalid URI: " ++ e
to_string (cache e) = codes "Cache error: " ++ e
to_string (tunnel e) = codes "Tunnel error: " ++ e
to_string (validation_failed e) = codes "Request validation failed: " ++ e
to_string (dns_error e) = codes "DNS lookup failed: " ++ e
to_string (network e) = codes "Network error: " ++ e

-- `Result<T>`, and `panicked` for a Rust panic
pub data Result {κ} (T : Type κ) : Type κ where
  panicked : Result T
  err : ProxyError → Result T
  ok : T → Result T

-- the operator `?`
infixl 5 ◌>>=◌
abbrev pub ◌>>=◌ {κ μ} : {T : Type κ} {U : Type μ} → Result T → (T → Result U) → Result U
panicked >>= next = panicked
err fault >>= next = err fault
ok x >>= next = next x

-- where a chain returns a value, its first step has returned one
pub >>=-eq-ok {κ μ} :
    {T : Type κ} {U : Type μ} {y : U} (first : Result T) (next : T → Result U)
    → (first >>= next) ≡ ok y
    → (x : T) × (first ≡ ok x) × (next x ≡ ok y)
>>=-eq-ok panicked next returned = cc
>>=-eq-ok (err fault) next returned = cc
>>=-eq-ok (ok x) next returned = (x, refl, returned)

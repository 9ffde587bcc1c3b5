-- ===== src/Proxy/Client/Examples.antt =====
-- An example of the theorem on bodies: a frame with data, and trailers.
use squiddish.Prelude.{◌≤◌, ◌≡◌, refl, Option, none, some, List, [], ◌∷◌, length, arith}
use squiddish.Text.{Bytes, codes}
use squiddish.Cache.Files.{Attempt, done}
use squiddish.Cache.Disk.State.{add64}
use squiddish.Proxy.Client.{collect_body}
use squiddish.Proxy.Client.Bodies.{body_bytes, collect_body_lem}

abbrev body : List (Attempt Bytes (Option Bytes))
body = done (some (codes "ab")) ∷ done none ∷ []

collect_body_example : (codes "ab" ≡ body_bytes body) × (length (codes "ab") ≤ 10)
unfolding collect_body add64
collect_body_example = collect_body_lem 10 body (codes "ab") (omega arith) refl

-- ===== src/Cache/Key/Words.antt =====
-- Hexadecimal digits, and paths as the list of their components.
use squiddish.Prelude.{ℕ, ◌≤◌, List, ◌⊎◌}
use squiddish.Text.{Bytes}

-- what `hex::encode` writes
abbrev pub IsHex : ℕ → Type 0
IsHex c = ((b'0' ≤ c) × (c ≤ b'9')) ⊎ ((b'a' ≤ c) × (c ≤ b'f'))

abbrev pub FilePath : Type 0
FilePath = List Bytes

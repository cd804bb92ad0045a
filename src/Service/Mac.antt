-- ===== src/Service/Mac.antt =====
-- `mac_for_name` of src/service.rs.
pub mod Reads
use croutond.Base.{ℕ, ◌/◌, ◌%◌, String}
use croutond.Base.Text.{◌+++◌, nth_letter}

-- `{:02x}` of a byte.
abbrev pub hex : ℕ → String
hex byte =
    String.◌∷◌ (nth_letter (byte / 16) "0123456789abcdef")
      (String.◌∷◌ (nth_letter (byte % 16) "0123456789abcdef") String.[])

unfoldable pub mac_for_name : (String → ℕ → ℕ) → String → String
mac_for_name digest name =
    let hash = digest name in
    "02:"
    +++ hex (hash 0)
    +++ ":"
    +++ hex (hash 1)
    +++ ":"
    +++ hex (hash 2)
    +++ ":"
    +++ hex (hash 3)
    +++ ":"
    +++ hex (hash 4)

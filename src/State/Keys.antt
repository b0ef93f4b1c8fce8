-- ===== src/State/Keys.antt =====
-- The stable keys of pkg/state/projection.go. `url.PathEscape` is the standard library's.
pub mod Injective
use tmuxatlas.Common.{
  ℕ, ◌+◌, ◌/◌, ◌%◌, Bool, ◌&&◌, ◌||◌, List, [], ◌∷◌, ◌++◌, ltb, leb, ◌==◌, if◌then◌else◌, Text,
  bytes,
}

abbrev is_alphanumeric : ℕ → Bool
is_alphanumeric c = leb b'a' c && leb c b'z' || leb b'A' c && leb c b'Z' || leb b'0' c && leb c b'9'

-- The bytes that PathEscape leaves alone.
is_plain : ℕ → Bool
is_plain c =
    is_alphanumeric c
    || (c == b'-' || c == b'_' || c == b'.' || c == b'~')
    || (c == b'$' || c == b'&' || c == b'+' || c == b':' || c == b'=' || c == b'@')

upper_hex : ℕ → ℕ
upper_hex n = if ltb n 10 then n + 48 else n + 55

-- Any other byte becomes % and two hexadecimal digits.
escape_byte : ℕ → Text → Text
unfolding is_plain upper_hex
escape_byte c rest =
    if is_plain c then c ∷ rest else b'%' ∷ upper_hex (c / 16) ∷ upper_hex (c % 16) ∷ rest

unfoldable pub key_part : Text → Text
unfolding escape_byte
key_part [] = []
key_part (c ∷ s) = escape_byte c (key_part s)

unfoldable pub host_key : Text → Text
unfolding key_part
host_key host_id = bytes "host/" ++ key_part host_id

unfoldable pub session_key : Text → Text → Text
unfolding host_key
session_key host_id session = host_key host_id ++ (bytes "/session/" ++ key_part session)

unfoldable pub window_key : Text → Text → Text → Text
unfolding session_key
window_key host_id session window =
    session_key host_id session ++ (bytes "/window/" ++ key_part window)

unfoldable pub pane_key : Text → Text → Text → Text → Text
unfolding window_key
pane_key host_id session window pane =
    window_key host_id session window ++ (bytes "/pane/" ++ key_part pane)

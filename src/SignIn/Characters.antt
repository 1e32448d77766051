-- ===== src/SignIn/Characters.antt =====
-- The character classes of the expressions in the sign-in pages, and the tests for one of a class.
use xp_panel.Shared.{ℕ, leb, ◌==◌, Bool, not, ◌&&◌, ◌||◌}

unfoldable pub is_upper : ℕ → Bool
is_upper c = leb b'A' c && leb c b'Z'

unfoldable pub is_lower : ℕ → Bool
is_lower c = leb b'a' c && leb c b'z'

unfoldable pub is_digit : ℕ → Bool
is_digit c = leb b'0' c && leb c b'9'

-- [a-z0-9], [a-z0-9-], [a-zA-Z0-9_-] and [^A-Za-z0-9].
unfoldable pub is_word : ℕ → Bool
unfolding is_lower is_digit
is_word c = is_lower c || is_digit c

unfoldable pub is_slug_code : ℕ → Bool
unfolding is_word
is_slug_code c = is_word c || c == b'-'

unfoldable pub is_username_code : ℕ → Bool
unfolding is_upper is_slug_code
is_username_code c = is_upper c || is_slug_code c || c == b'_'

unfoldable pub is_symbol : ℕ → Bool
unfolding is_upper is_word
is_symbol c = not (is_upper c || is_word c)

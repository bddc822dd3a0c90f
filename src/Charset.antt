-- ===== src/Charset.antt =====
-- The character set that document ids, locator ids and tenant ids share
-- (src/yomotsusaka/pipeline.py, src/yomotsusaka/boundary.py, src/yomotsusaka/tenant.py).
use yomotsusaka.Prelude.{
  ℕ, Text, codes, eq_text, Bool, false, [], ◌∷◌, length, all, leb, ◌==◌, ◌&&◌, ◌||◌,
}

abbrev pub is_alphanumeric : ℕ → Bool
is_alphanumeric c =
    leb b'A' c && leb c b'Z' || (leb b'a' c && leb c b'z' || leb b'0' c && leb c b'9')

-- `[A-Za-z0-9._-]`
unfoldable pub is_name_char : ℕ → Bool
is_name_char c = is_alphanumeric c || (c == b'.' || (c == b'_' || c == b'-'))

-- `\A[A-Za-z0-9._-]{1,limit}\Z`
unfoldable pub is_name : ℕ → Text → Bool
unfolding is_name_char
is_name limit [] = false
is_name limit (c ∷ t) = all is_name_char (c ∷ t) && leb (length (c ∷ t)) limit

-- `t in {".", ".."}`
unfoldable pub is_traversal : Text → Bool
unfolding eq_text
is_traversal t = eq_text t (codes ".") || eq_text t (codes "..")

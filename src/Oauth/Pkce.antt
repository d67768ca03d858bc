-- ===== src/Oauth/Pkce.antt =====
-- src/oauth/pkce.ts and `constantTimeEqual` of src/oauth/crypto.ts. `utf8` gives the bytes of a text, and
-- `sha256_base64url` the digest in base64url.
use brain_mcp_server.Prelude.{
  ℕ, Bool, false, not, ◌&&◌, ◌||◌, Text, codes, text_eq, nat_eq, ◌==◌, length, leb, all, contains,
  if◌then◌else◌,
}

-- The bytes are of the same number and the same.
unfoldable pub constant_time_equal : (Text → Text) → Text → Text → Bool
constant_time_equal utf8 a b = utf8 a == utf8 b

abbrev is_alphanumeric : ℕ → Bool
is_alphanumeric c = leb b'A' c && leb c b'Z' || leb b'a' c && leb c b'z' || leb b'0' c && leb c b'9'

abbrev in_verifier : ℕ → Bool
in_verifier c = is_alphanumeric c || contains c (codes "-._~")

unfoldable pub is_valid_verifier_format : Text → Bool
is_valid_verifier_format verifier =
    leb 43 (length verifier) && leb (length verifier) 128 && all in_verifier verifier

abbrev in_challenge : ℕ → Bool
in_challenge c = is_alphanumeric c || contains c (codes "-_")

abbrev is_challenge : Text → Bool
is_challenge challenge = length challenge == 43 && all in_challenge challenge

unfoldable pub verify_challenge :
    (utf8 sha256_base64url : Text → Text) → (verifier challenge method : Text) → Bool
unfolding is_valid_verifier_format constant_time_equal
verify_challenge utf8 sha256_base64url verifier challenge method =
    if not (method == codes "S256")
    then false
    else if not (is_valid_verifier_format verifier)
    then false
    else if not (is_challenge challenge)
    then false
    else constant_time_equal utf8 (sha256_base64url verifier) challenge

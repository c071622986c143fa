-- ===== src/Authentication/Tokens.antt =====
-- services/control-plane/src/mathews_control_plane/authentication.py: the checks of tokens and
-- passwords.
use mathews.Common.{
  ℕ, ◌+◌, Bool, false, ◌&&◌, ◌||◌, Option, none, some, [], ◌∷◌, length, all, leb, ltb, ◌==◌,
  if◌then◌else◌, Text, text_eq,
}

-- `[A-Za-z0-9_-]`
unfoldable pub is_token_character : ℕ → Bool
is_token_character c =
    leb 65 c && leb c 90 || leb 97 c && leb c 122 || leb 48 c && leb c 57 || c == 95 || c == 45

-- `_TOKEN_PATTERN.fullmatch`
unfoldable pub is_token : Text → Bool
is_token token = length token == 43 && all is_token_character token

-- `_token_is_canonical`
abbrev pub token_is_canonical : Option Text → Bool
token_is_canonical none = false
token_is_canonical (some token) = is_token token

-- `len(text.encode("utf-8"))`. A request holds no lone surrogate, which `encode` would refuse.
unfoldable pub utf8_length : Text → ℕ
utf8_length [] = 0
utf8_length (c ∷ cs) =
    (if ltb c 128 then 1 else if ltb c 2048 then 2 else if ltb c 65536 then 3 else 4)
    + utf8_length cs

-- `_MIN_PASSWORD_CHARACTERS` and `_MAX_PASSWORD_BYTES`
abbrev pub min_password_characters : ℕ
min_password_characters = 15

abbrev pub max_password_bytes : ℕ
max_password_bytes = 1024

-- The condition of `_validate_new_password`.
unfoldable pub is_new_password : Text → Bool
is_new_password password =
    leb min_password_characters (length password) && leb (utf8_length password) max_password_bytes

-- `_authentication_input_is_bounded`
unfoldable pub authentication_input_is_bounded : Text → Bool
authentication_input_is_bounded password = leb (utf8_length password) max_password_bytes

-- `verify_double_submit_csrf`
unfoldable pub verify_double_submit_csrf : Option Text → Option Text → Bool
verify_double_submit_csrf (some cookie_token) (some header_token) =
    is_token cookie_token && is_token header_token && text_eq cookie_token header_token
verify_double_submit_csrf _ _ = false

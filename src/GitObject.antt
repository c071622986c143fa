-- ===== src/GitObject.antt =====
-- services/control-plane/src/mathews_control_plane/task_state_machine.py, `_normalized_git_sha`,
-- with `str.strip` and `str.lower` of the texts that it is given.
--
-- Texts are lists of code points. `str.lower` is written for the ASCII letters: it leaves every
-- other code point as it is. No character outside ASCII has a hexadecimal digit as its lower case,
-- so that a text with such a character is refused in either way.
pub mod Normal
use mathews.Errors.{TransitionError, bad_git_object}
use mathews.Common.{
  ℕ, ◌+◌, Bool, false, true, ◌&&◌, ◌||◌, not, List, [], ◌∷◌, ◌++◌, map, Text, Result, ok, err, leb,
  ◌==◌, if◌then◌else◌, length, all,
}

-- `str.isspace` of one character, which `str.strip` removes at both ends.
unfoldable pub is_space : ℕ → Bool
is_space c =
    (leb 9 c && leb c 13)
    || (leb 28 c && leb c 32)
    || c == 133
    || c == 160
    || c == 5760
    || (leb 8192 c && leb c 8202)
    || c == 8232
    || c == 8233
    || c == 8239
    || c == 8287
    || c == 12288

unfoldable pub strip_left : Text → Text
strip_left [] = []
strip_left (c ∷ s) = if is_space c then strip_left s else c ∷ s

unfoldable pub strip_right : Text → Text
strip_right [] = []
strip_right (c ∷ s) =
    let rest = strip_right s in
    elim rest [ [] ↦ (if is_space c then [] else c ∷ []) | d ∷ r ↦ c ∷ d ∷ r ]

-- `value.strip()`
unfoldable pub strip : Text → Text
strip s = strip_right (strip_left s)

unfoldable pub lower_char : ℕ → ℕ
lower_char c = if leb 65 c && leb c 90 then c + 32 else c

-- `value.lower()`
unfoldable pub lower : Text → Text
lower s = map lower_char s

-- `character in "0123456789abcdef"`
unfoldable pub is_hex : ℕ → Bool
is_hex c = (leb 48 c && leb c 57) || (leb 97 c && leb c 102)

-- `_normalized_git_sha`
unfoldable pub normalized_git_sha : Text → Result TransitionError Text
normalized_git_sha value =
    let normalized = lower (strip value) in
    if (length normalized == 40 || length normalized == 64) && all is_hex normalized
    then ok normalized
    else err bad_git_object

-- ===== src/GitObject/Normal.antt =====
-- What `_normalized_git_sha` returns is in normal form.
use mathews.Common.{ℕ, ◌≡◌, refl, ◌⊎◌, true, false, [], ◌∷◌, Text, ok, arith, length, all}
use mathews.GitObject.{
  is_space, strip_left, strip_right, strip, lower_char, lower, is_hex, normalized_git_sha,
}

-- A full Git object id: 40 or 64 lower-case hexadecimal digits.
pub record IsObjectId (s : Text) : Type 0 where
  pub full_length : (length s ≡ 40) ⊎ (length s ≡ 64)
  pub hexadecimal : all is_hex s ≡ true

hex-not_space : (c : ℕ) → is_hex c ≡ true → is_space c ≡ false
unfolding is_hex is_space
hex-not_space c h = ground arith

hex-lower : (c : ℕ) → is_hex c ≡ true → lower_char c ≡ c
unfolding is_hex lower_char
hex-lower c h = ground arith

lower-hex : (s : Text) → all is_hex s ≡ true → lower s ≡ s
unfolding lower
lower-hex [] h = refl
lower-hex (c ∷ s) h = ground (arith, hex-lower c, lower-hex s)

strip_left-hex : (s : Text) → all is_hex s ≡ true → strip_left s ≡ s
unfolding strip_left
strip_left-hex [] h = refl
strip_left-hex (c ∷ s) h = ground (arith, hex-not_space c)

strip_right-hex : (s : Text) → all is_hex s ≡ true → strip_right s ≡ s
unfolding strip_right
strip_right-hex [] h = refl
strip_right-hex (c ∷ []) h = ground (arith, hex-not_space c)
strip_right-hex (c ∷ d ∷ r) h = ground (arith, strip_right-hex (d ∷ r))

strip-hex : (s : Text) → all is_hex s ≡ true → strip s ≡ s
unfolding strip
strip-hex s h = rw (strip_left-hex s h) (strip_right-hex s h)

-- Whatever text is accepted, the result is a full lower-case object id, and the function leaves an
-- object id in that form as it is, so that normalising twice is normalising once.
pub normalized_git_sha_canonical :
    (value normalized : Text)
    → normalized_git_sha value ≡ ok normalized
    → IsObjectId normalized × (normalized_git_sha normalized ≡ ok normalized)
unfolding normalized_git_sha
normalized_git_sha_canonical value normalized h =
    ground (arith, strip-hex normalized, lower-hex normalized)

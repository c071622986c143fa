-- ===== src/Retrieval.antt =====
-- services/control-plane/src/mathews_control_plane/retrieval_index.py: how the text of a source is cut
-- into chunks, and what is checked of the span of a stored chunk.
pub mod Slices
pub mod Chunks
use mathews.Common.{
  ℕ, zero, suc, ◌+◌, ◌-◌, ◌*◌, min, Bool, true, false, ◌&&◌, Option, none, some, List, [], ◌∷◌,
  length, take, drop, ltb, ◌==◌, if◌then◌else◌, Text, text_eq,
}

-- `RETRIEVAL_CHUNK_CHARACTERS` and `RETRIEVAL_CHUNK_OVERLAP`
abbrev pub retrieval_chunk_characters : ℕ
retrieval_chunk_characters = 1000

abbrev pub retrieval_chunk_overlap : ℕ
retrieval_chunk_overlap = 100

-- `text[start:end]`
unfoldable pub slice : ℕ → ℕ → Text → Text
slice start end text = take (end - start) (drop start text)

-- A chunk, as `_chunks` gives it.
pub record Chunk : Type 0 where
  pub ordinal : ℕ
  pub start : ℕ
  pub end : ℕ
  pub text : Text

abbrev pub is_nonempty : Text → Bool
is_nonempty [] = false
is_nonempty (_ ∷ _) = true

abbrev pub prepend : List Chunk → Option (List Chunk) → Option (List Chunk)
prepend cs none = none
prepend [] (some rest) = some rest
prepend (c ∷ _) (some rest) = some (c ∷ rest)

module _ (size overlap : ℕ) where
  -- What a round of the loop appends.
  unfoldable pub appended : Text → ℕ → ℕ → List Chunk
  appended text start ordinal =
      let end = min (length text) (start + size) in
      let value = slice start end text in
      if is_nonempty value
      then record { ordinal = ordinal; start = start; end = end; text = value } ∷ []
      else []

  -- The `while` loop, on fuel. `none` where the fuel is too little.
  unfoldable pub chunk_loop : ℕ → Text → ℕ → ℕ → Option (List Chunk)
  chunk_loop zero text start ordinal = none
  chunk_loop (suc fuel) text start ordinal =
      let end = min (length text) (start + size) in
      let new = appended text start ordinal in
      let rest = chunk_loop fuel text (end - overlap) (ordinal + length new) in
      if ltb start (length text)
      then (if end == length text then some new else prepend new rest)
      else some []

  -- `_chunks`, with the two constants as arguments. One round for each character is enough.
  unfoldable pub chunks_of : Text → Option (List Chunk)
  chunks_of [] = some []
  chunks_of (c ∷ cs) = chunk_loop (suc (length (c ∷ cs))) (c ∷ cs) 0 1

  -- The checks of `_verify_chunk_payload` on a span.
  unfoldable pub verify_span : Text → Chunk → Bool
  verify_span source_text c =
      let expected_start = (c.ordinal - 1) * (size - overlap) in
      let expected_end = min (length source_text) (expected_start + size) in
      c.start == expected_start
      && c.end == expected_end
      && text_eq c.text (slice expected_start expected_end source_text)

-- `_chunks`
abbrev pub chunks : Text → Option (List Chunk)
chunks text = chunks_of retrieval_chunk_characters retrieval_chunk_overlap text

-- ===== src/Tests/RetrievalTests.antt =====
-- The chunks of concrete texts.
use mathews.Common.{ℕ, zero, suc, ◌≡◌, refl, none, some, List, [], ◌∷◌, Text}
use mathews.Common.Queries.{All}
use mathews.Retrieval.{
  slice, Chunk, appended, chunk_loop, chunks_of, verify_span, chunks, retrieval_chunk_characters,
  retrieval_chunk_overlap,
}
use mathews.Retrieval.Chunks.{
  Numbered, joined, IsChunkOf, chunks-total, chunks-joined, chunks-verified,
}

computes : ℕ
unfolding slice appended chunk_loop chunks_of verify_span
computes = 0

abbrev chunk : ℕ → ℕ → ℕ → Text → Chunk
chunk ordinal start end text = record { ordinal = ordinal; start = start; end = end; text = text }

-- Five characters in chunks of three that overlap by one.
two_chunks :
    chunks_of 3 1 (1 ∷ 2 ∷ 3 ∷ 4 ∷ 5 ∷ [])
    ≡ some (chunk 1 0 3 (1 ∷ 2 ∷ 3 ∷ []) ∷ chunk 2 2 5 (3 ∷ 4 ∷ 5 ∷ []) ∷ [])
unfolding computes
two_chunks = refl

-- Where the overlap is not smaller than the size, the loop has no end.
no_end : chunks_of 1 1 (1 ∷ 2 ∷ []) ≡ none
unfolding computes
no_end = refl

no_text : chunks [] ≡ some []
unfolding computes
no_text = refl

abbrev letters : ℕ → Text
letters zero = []
letters (suc n) = 65 ∷ letters n

abbrev long_text : Text
long_text = letters 1500

chunks-total_example : (cs : List Chunk) × (chunks long_text ≡ some cs)
chunks-total_example = chunks-total long_text

abbrev long_chunks : List Chunk
long_chunks = (chunks-total long_text).0

chunks-joined_example : joined retrieval_chunk_overlap long_chunks ≡ long_text
chunks-joined_example = chunks-joined long_text long_chunks (chunks-total long_text).1

chunks-verified_example :
    Numbered 1 long_chunks
    × All (IsChunkOf retrieval_chunk_characters retrieval_chunk_overlap long_text) long_chunks
chunks-verified_example = chunks-verified long_text long_chunks (chunks-total long_text).1

-- ===== src/Retrieval/Chunks.antt =====
-- The chunks of a text: their spans, and the text that they make.
use mathlib.Core.Path.{subst}
use mathews.Common.{
  ℕ, zero, suc, ◌+◌, ◌-◌, ◌*◌, ◌≤◌, ◌<◌, arith, min, ◌≡◌, refl, sym, ap, ◌∙◌, true, some, List, [],
  ◌∷◌, ◌++◌, inl, inr, Bool-cases, length, take, drop, ◌==◌, Text, text_eq_refl,
}
use mathews.Common.Queries.{All, some-inj}
use mathews.Retrieval.{
  slice, Chunk, is_nonempty, appended, chunk_loop, chunks_of, verify_span, chunks,
  retrieval_chunk_characters, retrieval_chunk_overlap,
}
use mathews.Retrieval.Slices.{
  drop-all, take-append-drop, length-drop, length-take, drop-drop, drop-take,
}

-- The chunks carry the numbers from one on.
abbrev pub Numbered : ℕ → List Chunk → Type 0
Numbered n [] = Unit
Numbered n (c ∷ cs) = (c.ordinal ≡ n) × Numbered (n + 1) cs

-- The text of the chunks after the first, each without its overlap with the one before.
abbrev pub continued : ℕ → List Chunk → Text
continued overlap [] = []
continued overlap (c ∷ cs) = drop overlap c.text ++ continued overlap cs

-- The text that chunks make.
abbrev pub joined : ℕ → List Chunk → Text
joined overlap [] = []
joined overlap (c ∷ cs) = c.text ++ continued overlap cs

-- A chunk that a search can verify, of at least one and at most `size` characters.
pub record IsChunkOf (size overlap : ℕ) (text : Text) (c : Chunk) : Type 0 where
  pub verified : verify_span size overlap text c ≡ true
  pub some_text : 0 < length c.text
  pub bounded : length c.text ≤ size

is_nonempty-true : (text : Text) → 0 < length text → is_nonempty text ≡ true
is_nonempty-true [] h = absurd (omega arith)
is_nonempty-true (c ∷ cs) h = refl

chunks_of-eq-chunk_loop :
    (size overlap : ℕ) (text : Text)
    → 0 < length text
    → chunks_of size overlap text ≡ chunk_loop size overlap (suc (length text)) text 0 1
unfolding chunks_of
chunks_of-eq-chunk_loop size overlap [] inside = absurd (omega arith)
chunks_of-eq-chunk_loop size overlap (c ∷ cs) inside = refl

module _ (size overlap : ℕ) (smaller : overlap < size) (text : Text) where
  -- The chunk that starts at an offset.
  abbrev chunk_at : ℕ → ℕ → Chunk
  chunk_at start ordinal = record {
    ordinal = ordinal;
    start = start;
    end = min (length text) (start + size);
    text = slice start (min (length text) (start + size)) text;
  }

  length-slice :
      (start : ℕ)
      → start < length text
      → length (slice start (min (length text) (start + size)) text)
        ≡ min (length text) (start + size) - start
  unfolding slice
  length-slice start inside =
      let n = length-drop start text in length-take _ (drop start text) (omega arith)

  appended-chunk_at :
      (start ordinal : ℕ)
      → start < length text
      → appended size overlap text start ordinal ≡ chunk_at start ordinal ∷ []
  unfolding appended
  appended-chunk_at start ordinal inside =
      let n = length-slice start inside in
      rw (is_nonempty-true (slice start (min (length text) (start + size)) text) (omega arith)) refl

  chunk_at-IsChunkOf :
      (start k : ℕ)
      → start < length text
      → start ≡ k * (size - overlap)
      → IsChunkOf size overlap text (chunk_at start (k + 1))
  unfolding verify_span
  chunk_at-IsChunkOf start k inside at =
      let n = length-slice start inside in
      let own = text_eq_refl (slice start (min (length text) (start + size)) text) in
      let same : (k + 1 - 1) * (size - overlap) ≡ start =
        ap (λ i. i * (size - overlap)) (omega arith) ∙ sym at in
      record { verified = rw same (ground arith); some_text = omega arith; bounded = omega arith }

  -- The chunks from an offset on, the first of which starts there.
  record Cut (start k : ℕ) (cs : List Chunk) : Type 0 where
    chunks_fit :
        IsChunkOf size overlap text (chunk_at start (k + 1)) × All (IsChunkOf size overlap text) cs
    numbered : Numbered (k + 1 + 1) cs
    rest : continued overlap cs ≡ drop (min (length text) (start + size)) text

  -- A chunk without its overlap, with what follows it.
  chunk-continued :
      (start : ℕ)
      → start + overlap < length text
      → drop overlap (slice start (min (length text) (start + size)) text)
          ++ drop (min (length text) (start + size)) text
        ≡ drop (start + overlap) text
  unfolding slice
  chunk-continued start inside =
      let n = min (length text) (start + size) - start in
      let to_end : min (length text) (start + size) ≡ start + n = omega arith in
      let tail : drop (min (length text) (start + size)) text ≡ drop n (drop start text) =
        ap (λ i. drop i text) to_end ∙ sym (drop-drop n start text) in
      ap (λ t. drop overlap (take n (drop start text)) ++ t) tail
      ∙ drop-take overlap n (drop start text) (omega arith)
      ∙ drop-drop overlap start text

  chunk_loop-Cut :
      (fuel start k : ℕ)
      → start < length text
      → start ≡ k * (size - overlap)
      → length text + 1 ≤ start + fuel
      → (cs : List Chunk) × (chunk_loop size overlap fuel text start (k + 1)
          ≡ some (chunk_at start (k + 1) ∷ cs))
        × Cut start k cs
  unfolding chunk_loop
  chunk_loop-Cut zero start k inside at enough = absurd (omega arith)
  chunk_loop-Cut (suc fuel) start k inside at enough =
      let end = min (length text) (start + size) in
      let new = appended-chunk_at start (k + 1) inside in
      elim (Bool-cases (end == length text)) [
        | inl last ↦ (
          [],
          ground arith,
          record {
            chunks_fit = (chunk_at-IsChunkOf start k inside at, tt);
            numbered = tt;
            rest = sym (drop-all end text (ground arith));
          },
        )
        | inr more ↦
            let before : start + size < length text = ground arith in
            let end_at : end ≡ start + size = omega arith in
            let (cs, loops, cut) =
              chunk_loop-Cut fuel (end - overlap) (k + 1) (omega arith) (ground arith)
                (omega arith) in
            let back : end - overlap + overlap ≡ end = omega arith in
            let next = chunk_at (end - overlap) (k + 1 + 1) in
            (
              chunk_at (end - overlap) (k + 1 + 1) ∷ cs,
              rw new (rw loops (ground arith)),
              record {
                chunks_fit = (chunk_at-IsChunkOf start k inside at, cut.chunks_fit);
                numbered = (refl, cut.numbered);
                rest =
                    ap (λ t. drop overlap next.text ++ t) cut.rest
                    ∙ chunk-continued (end - overlap) (omega arith)
                    ∙ ap (λ i. drop i text) back;
              },
            )
      ]

  chunks_of-Cut :
      0 < length text
      → (cs : List Chunk) × (chunks_of size overlap text ≡ some (chunk_at 0 1 ∷ cs)) × Cut 0 0 cs
  chunks_of-Cut inside =
      let (cs, loops, cut) =
        chunk_loop-Cut (suc (length text)) 0 0 inside (omega arith) (omega arith) in
      (cs, chunks_of-eq-chunk_loop size overlap text inside ∙ loops, cut)

  joined-Cut : (cs : List Chunk) → Cut 0 0 cs → joined overlap (chunk_at 0 1 ∷ cs) ≡ text
  unfolding slice
  joined-Cut cs cut =
      let end = min (length text) (0 + size) in
      let whole : end - 0 ≡ end = omega arith in
      ap (λ t. take (end - 0) text ++ t) cut.rest
      ∙ ap (λ i. take i text ++ drop end text) whole
      ∙ take-append-drop end text

-- What the chunks of a text are.
record IsCut (text : Text) (cs : List Chunk) : Type 0 where
  chunks_fit : All (IsChunkOf retrieval_chunk_characters retrieval_chunk_overlap text) cs
  numbered : Numbered 1 cs
  whole : joined retrieval_chunk_overlap cs ≡ text

chunks-IsCut : (text : Text) → (cs : List Chunk) × (chunks text ≡ some cs) × IsCut text cs
unfolding chunks_of
chunks-IsCut [] = ([], refl, record { chunks_fit = tt; numbered = tt; whole = refl })
chunks-IsCut (x ∷ xs) =
    let (cs, cuts, cut) = chunks_of-Cut 1000 100 (omega arith) (x ∷ xs) (omega arith) in
    (
      chunk_at 1000 100 (omega arith) (x ∷ xs) 0 1 ∷ cs,
      cuts,
      record {
        chunks_fit = cut.chunks_fit;
        numbered = (refl, cut.numbered);
        whole = joined-Cut 1000 100 (omega arith) (x ∷ xs) cs cut;
      },
    )

-- Where `_chunks` gives chunks, they are these.
chunks-IsCut_of : (text : Text) (cs : List Chunk) → chunks text ≡ some cs → IsCut text cs
chunks-IsCut_of text cs h =
    let (ds, e, cut) = chunks-IsCut text in subst (IsCut text) (some-inj (sym e ∙ h)) cut

-- The loop of `_chunks` ends for every text.
pub chunks-total : (text : Text) → (cs : List Chunk) × (chunks text ≡ some cs)
chunks-total text = let (cs, e, cut) = chunks-IsCut text in (cs, e)

-- The chunks that `_chunks` makes of a text, each after the first without its first 100 characters,
-- join to the text.
pub chunks-joined :
    (text : Text) (cs : List Chunk)
    → chunks text ≡ some cs
    → joined retrieval_chunk_overlap cs ≡ text
chunks-joined text cs h = (chunks-IsCut_of text cs h).whole

-- The chunks that `_chunks` makes of a text carry the numbers from 1 on, have from 1 to 1,000 characters
-- each, and pass the checks of the span in `_verify_chunk_payload`, which computes the span from the
-- number alone.
pub chunks-verified :
    (text : Text) (cs : List Chunk)
    → chunks text ≡ some cs
    → Numbered 1 cs × All (IsChunkOf retrieval_chunk_characters retrieval_chunk_overlap text) cs
chunks-verified text cs h = let cut = chunks-IsCut_of text cs h in (cut.numbered, cut.chunks_fit)

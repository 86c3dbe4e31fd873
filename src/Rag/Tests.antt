-- ===== src/Rag/Tests.antt =====
-- Runs of src/amberclaw/rag, and its theorems at them.
use amber_claw.Base.{ℕ, ◌≡◌, refl, true, some, List, [], ◌∷◌, arith, raise}
use amber_claw.Base.Text.{
  Text, same_code, is_space, starts, rfind, rfind_from, slice, lstrip, rstrip, keep_last, strip,
  has_ink,
}
use amber_claw.Rag.Chunker.{
  Chunk, TextChunker, new_chunker, overlap_too_large, window_end, window_chunk, next_pos,
  chunk_loop, chunk_text, chunk_documents,
}
use amber_claw.Rag.Chunker.Cover.{covered, chunk_text-covers}

program : Unit {0}
unfolding same_code is_space starts rfind rfind_from slice lstrip rstrip keep_last strip has_ink
    new_chunker window_end window_chunk next_pos chunk_loop chunk_text chunk_documents
program = tt

abbrev chunker : TextChunker
chunker = record { chunk_size = 4; chunk_overlap = 1; separator = 10 ∷ 10 ∷ [] }

-- "ab cd ef"
abbrev sentence : Text
sentence = 97 ∷ 98 ∷ 32 ∷ 99 ∷ 100 ∷ 32 ∷ 101 ∷ 102 ∷ []

abbrev piece : Text → ℕ → ℕ → ℕ → Chunk
piece text idx start end = record { text = text; index = idx; start_char = start; end_char = end }

abbrev pieces : List Chunk
pieces =
    piece (97 ∷ 98 ∷ []) 0 0 2
    ∷ piece (98 ∷ []) 1 1 2
    ∷ piece (99 ∷ 100 ∷ []) 2 2 5
    ∷ piece (100 ∷ 32 ∷ 101 ∷ 102 ∷ []) 3 4 8
    ∷ []

chunks_sentence : chunk_text chunker sentence ≡ some pieces
unfolding program
chunks_sentence = refl

chunks_blank : chunk_text chunker (32 ∷ 10 ∷ []) ≡ some []
unfolding program
chunks_blank = refl

chunks_documents :
    chunk_documents chunker ((97 ∷ []) ∷ [] ∷ (98 ∷ []) ∷ [])
    ≡ some (piece (97 ∷ []) 0 0 1 ∷ piece (98 ∷ []) 0 0 1 ∷ [])
unfolding program
chunks_documents = refl

overlap_refused : new_chunker 3 3 [] ≡ raise overlap_too_large
unfolding program
overlap_refused = refl

chunk_text-covers_example : covered 3 pieces ≡ true
unfolding has_ink is_space same_code
chunk_text-covers_example =
    chunk_text-covers chunker sentence pieces 3 (omega arith) chunks_sentence refl
